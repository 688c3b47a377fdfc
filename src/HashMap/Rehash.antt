-- ===== src/HashMap/Rehash.antt =====
-- `hash_map_resize` of src/core/hash_map.c: it ends, and the new table holds the same pairs.
use mathlib.Core.Option.{or_else}
use native.Mathlib.Nat.{add-zero, mod-eq_of_lt}
use clueless_task_manager.Base.{
  ℕ, zero, suc, ◌+◌, ◌<◌, ◌≡◌, ◌≢◌, refl, sym, ◌∙◌, ap, inl, inr, List, arith, length, set, dec_lt,
  [], ◌∷◌, Returns, Returns-bind,
}
use clueless_task_manager.HashMap.Keys.{Key, same_iff}
use clueless_task_manager.HashMap.{
  Entry, empty, tombstone, occupied, home, place_loop, place, rehash,
}
use clueless_task_manager.HashMap.Contents.{
  entry_at, IsUnique, IsUnique-tail, lookup, contents, live, lookup-none, length-contents_full,
  length-contents-set,
}
use clueless_task_manager.HashMap.Probe.{
  probe, probe-lt, probe-next, probe_reaches, home-lt, Entry-cases, IsTable,
}
use clueless_task_manager.HashMap.Write.{
  entry_at-set, Slot, IsTable-occupy, lookup-occupy, IsTable-bury, lookup-bury_free,
}

module _ {ℓ} {K V : Type ℓ} where
  -- where `hash_map_resize` puts an entry whose probe begins at `h`
  record Placed (es : List (Entry K V)) (h n i : ℕ) : Type ℓ where
    steps : ℕ
    round : steps < n
    here : probe h n steps ≡ i
    free : live (entry_at es i) ≡ 0
    path : (e : ℕ) → e < steps → live (entry_at es (probe h n e)) ≡ 1

  -- The loop has no guard, and needs none while one entry is free.
  place_loop-Placed :
      (es : List (Entry K V)) (h n : ℕ)
      → length es ≡ n
      → h < n
      → length (contents es) < n
      → (f d index : ℕ) → d + f ≡ n
      → index ≡ probe h n d
      → ((e : ℕ) → e < d → live (entry_at es (probe h n e)) ≡ 1)
      → Returns (place_loop es n f index) (Placed es h n)
  unfolding place_loop
  place_loop-Placed es h n width start room zero d index fuel at path =
      let full = length-contents_full es λ i p.
        (let (e, round, here) = probe_reaches h n i start (omega arith) in
          rw here at (path e (omega arith))) in
      absurd (omega arith)
  place_loop-Placed es h n width start room (suc f) d index fuel at path =
      elim (Entry-cases (entry_at es index)) [
        | inl (inl e) ↦ (index, rw (e, place_loop), here (ap live e))
        | inl (inr e) ↦ (index, rw (e, place_loop), here (ap live e))
        | inr (k, v, e) ↦
            rw (e, place_loop)
              (place_loop-Placed es h n width start room f (suc d) _ (omega arith)
                (rw at (probe-next h n d)) (λ x p. visited x p e))
      ]
    where
      here : live (entry_at es index) ≡ 0 → Placed es h n index
      here vacant = record {
        steps = d;
        round = omega arith;
        here = sym at;
        free = vacant;
        path = path;
      }

      visited :
          {k : K} {v : V} (x : ℕ)
          → x < suc d
          → entry_at es index ≡ occupied k v
          → live (entry_at es (probe h n x)) ≡ 1
      visited x p e = elim (dec_lt x d) [
        | yes before ↦ path x before
        | no last ↦ let same_step : x ≡ d = omega arith in rw (same_step, ← at, e)
      ]

module _ {ℓ} {K V : Type ℓ} where
  -- no pair of `old` has its key in `es`
  abbrev pub IsApart : List (Entry K V) → List (Entry K V) → Type ℓ
  IsApart old es =
      (q : K) (i j : ℕ) (v w : V) → entry_at old i ≡ occupied q v → entry_at es j ≢ occupied q w

module _ {ℓ} {K V : Type ℓ} ⦃key : Key K⦄ (n : ℕ) where
  -- The entry goes to a free place on the path of `k`.
  place_lem :
      (es : List (Entry K V)) (k : K) (e : Entry K V)
      → IsTable es n
      → length (contents es) < n
      → Returns
          (place es n k e)
          (λ es'. (i : ℕ) × (i < n) × Placed es (home k n) n i × (es' ≡ set es i e))
  unfolding place
  place_lem es k e t room =
      let h = home k n in
      let (i, run, p) =
        place_loop-Placed es h n t.width (home-lt k n t.positive) room n 0 h (omega arith)
          (rw add-zero (sym (mod-eq_of_lt (home-lt k n t.positive)))) (λ x q. elim q [ ]) in
      (set es i e, rw run, (i, rw p.here at (probe-lt h n p.steps t.positive), p, refl))

  -- what moving the entries `old` into `es` gives
  pub record Moved (old es r : List (Entry K V)) : Type ℓ where
    pub table : IsTable r n
    pub kept : length (contents r) ≡ length (contents es) + length (contents old)
    pub reads :
        (q : K) → lookup q (contents r) ≡ or_else (lookup q (contents es)) (lookup q (contents old))

  module _ {es : List (Entry K V)} (t : IsTable es n) {h i : ℕ} (lt : i < n)
      (p : Placed es h n i) where
    vacant : (k : K) (v : V) → entry_at es i ≢ occupied k v
    vacant k v o = let free = p.free in ground arith

    bury-Moved :
        (old : List (Entry K V)) {r : List (Entry K V)}
        → Moved old (set es i tombstone) r
        → Moved (tombstone ∷ old) es r
    unfolding contents
    bury-Moved old {r} m = record {
      table = m.table;
      kept =
          omega
            (arith, m.kept, p.free, length-contents-set es i tombstone (omega (arith, t.width)));
      reads = λ q.
          m.reads q
          ∙ ap (λ o. or_else o (lookup q (contents old))) (lookup-bury_free t i lt vacant q);
    }

    module _ {k : K} {v : V} (old : List (Entry K V)) (u : IsUnique (occupied k v ∷ old))
        (apart : IsApart (occupied k v ∷ old) es) (e : h ≡ home k n) where
      slot : Slot t i lt k
      slot = record {
        only = λ j w o. absurd (apart k 0 j v w refl o);
        mine = λ k' w o. absurd (vacant k' w o);
        steps = p.steps;
        round = p.round;
        here = rw (← e) p.here;
        path = λ x q. let alive = p.path x q in rw (← e) (λ c. ground arith);
      }

      IsApart-occupy : IsApart old (set es i (occupied k v))
      IsApart-occupy q a b x y o o' = ground (
        arith,
        entry_at-set es i b (occupied k v) (rw t.width lt),
        u 0 (suc a) q v x,
        apart q (suc a) b x y,
      )

      occupy-Moved :
          {r : List (Entry K V)}
          → Moved old (set es i (occupied k v)) r
          → Moved (occupied k v ∷ old) es r
      unfolding contents lookup or_else
      occupy-Moved {r} m = record {
        table = m.table;
        kept = omega (
          arith,
          m.kept,
          p.free,
          length-contents-set es i (occupied k v) (omega (arith, t.width)),
        );
        reads = λ q.
            m.reads q
            ∙ ground (
              arith,
              lookup-occupy t i lt slot v q,
              (same_iff q k).0,
              lookup-none es k (λ j w o. apart k 0 j v w refl o),
            );
      }

  pub rehash-Moved :
      (old es : List (Entry K V))
      → IsTable es n
      → IsUnique old
      → IsApart old es
      → length (contents es) + length (contents old) < n
      → Returns (rehash old n es) (Moved old es)
  unfolding rehash contents lookup or_else
  rehash-Moved [] es t u apart room =
      (es, refl, record { table = t; kept = omega arith; reads = λ q. ground arith })
  rehash-Moved (empty ∷ old) es t u apart room =
      let (r, run, m) =
        rehash-Moved old es t (IsUnique-tail empty old u) (λ q i. apart q (suc i)) room in
      (r, run, record { table = m.table; kept = m.kept; reads = m.reads })
  rehash-Moved (tombstone ∷ old) es t u apart room =
      Returns-bind (place es n key.placeholder tombstone) (rehash old n)
        (place_lem es key.placeholder tombstone t (omega arith))
        λ es' (i, lt, p, e).
          (let size = length-contents-set es i tombstone (omega (arith, t.width)) in
            let (r, run, m) =
              rehash-Moved old (set es i tombstone) (IsTable-bury t i lt)
                (IsUnique-tail tombstone old u)
                (λ q a b v w o o'.
                  ground
                    (arith, entry_at-set es i b tombstone (rw t.width lt), apart q (suc a) b v w))
                (omega (arith, p.free)) in
            (r, rw e run, bury-Moved t lt p old m))
  rehash-Moved (occupied k v ∷ old) es t u apart room =
      Returns-bind (place es n k (occupied k v)) (rehash old n)
        (place_lem es k (occupied k v) t (omega arith))
        λ es' (i, lt, p, e).
          (let size = length-contents-set es i (occupied k v) (omega (arith, t.width)) in
            let (r, run, m) =
              rehash-Moved old (set es i (occupied k v))
                (IsTable-occupy t i lt (slot t lt p old u apart refl) v)
                (IsUnique-tail (occupied k v) old u) (IsApart-occupy t lt p old u apart refl)
                (omega (arith, p.free)) in
            (r, rw e run, occupy-Moved t lt p old u apart refl m))
