-- ===== src/HashMap/Find.antt =====
-- The search loop of `hash_map_get` and `hash_map_remove`: it ends, and it is right.
use native.Mathlib.Nat.{add-zero, mod-eq_of_lt}
use clueless_task_manager.Base.{
  ℕ, zero, suc, ◌+◌, ◌%◌, ◌<◌, ◌≡◌, ◌≢◌, refl, sym, inl, inr, List, Option, none, some, arith,
  if◌then◌else◌, ◌==◌, ==→eq, dec_lt, done, Returns, Bool-cases,
}
use clueless_task_manager.HashMap.Keys.{Key, same, same_iff, same_refl}
use clueless_task_manager.HashMap.{Entry, empty, occupied, home, HashMap, find_loop, find, get}
use clueless_task_manager.HashMap.Contents.{entry_at, lookup-none, lookup-at}
use clueless_task_manager.HashMap.Probe.{
  probe, probe-next, probe-round, probe-lt, Entry-cases, IsTable, home-lt, IsValid, view,
}

module _ {ℓ} {K V : Type ℓ} ⦃key : Key K⦄ {es : List (Entry K V)} {n : ℕ} (t : IsTable es n)
    (q : K) where
  -- none of the first `d` entries of the search holds the key
  abbrev pub Unmatched : ℕ → Type ℓ
  Unmatched d = (e : ℕ) (v : V) → e < d → entry_at es (probe (home q n) n e) ≢ occupied q v

  abbrev pub Absent : Type ℓ
  Absent = (i : ℕ) (v : V) → entry_at es i ≢ occupied q v

  pub Absent_round : Unmatched n → Absent
  Absent_round u i v o = let (d, lt, at, path) = t.placed i q v o in u d v lt (rw at o)

  pub Absent_empty : (d : ℕ) → Unmatched d → entry_at es (probe (home q n) n d) ≡ empty → Absent
  Absent_empty d u vacant i v o =
      let (d', lt, at, path) = t.placed i q v o in
      elim (dec_lt d' d) [
        | yes before ↦ u d' v before (rw at o)
        | no later ↦ elim (dec_lt d d') [
          | yes between ↦ path d between vacant
          | no here ↦
              let e : d' ≡ d = omega arith in
              let o' : entry_at es (probe (home q n) n d) ≡ occupied q v = rw (← e, at) o in cc
        ]
      ]

  pub Unmatched-suc :
      (d : ℕ)
      → Unmatched d
      → ((v : V) → entry_at es (probe (home q n) n d) ≢ occupied q v)
      → Unmatched (suc d)
  Unmatched-suc d u here e v lt o = elim (dec_lt e d) [
    | yes before ↦ u e v before o
    | no later ↦ let same_step : e ≡ d = omega arith in here v (rw same_step at o)
  ]

  -- what the search returns
  abbrev pub Found : Option (ℕ × V) → Type ℓ
  Found none = Absent
  Found (some (i, v)) = (entry_at es i ≡ occupied q v) × (i < n)

  find_continue :
      (f d index : ℕ)
      → d + suc f ≡ n
      → index ≡ probe (home q n) n d
      → Unmatched (suc d)
      → (0 < f → Returns (find_loop es n (home q n) q f ((index + 1) % n)) Found)
      → Returns
          (if ((index + 1) % n) == home q n
            then done none
            else find_loop es n (home q n) q f ((index + 1) % n))
          Found
  find_continue f d index fuel at u rest =
      let round : (((index + 1) % n) == home q n) ≡ (suc d == n) =
        rw at (probe-round (home q n) n d (home-lt q n t.positive) (omega arith)) in
      elim (Bool-cases (suc d == n)) [
        | inl e ↦
            let whole : suc d ≡ n = ==→eq _ _ e in
            rw (round, e) (none, refl, Absent_round (rw whole at u))
        | inr e ↦ rw (round, e) (rest (ground arith))
      ]

  pub find_loop-Found :
      (f d index : ℕ)
      → d + f ≡ n
      → 0 < f
      → index ≡ probe (home q n) n d
      → Unmatched d
      → Returns (find_loop es n (home q n) q f index) Found
  unfolding find_loop
  find_loop-Found zero d index fuel pos at u = absurd (omega arith)
  find_loop-Found (suc f) d index fuel pos at u =
      let rest = λ (u' : Unmatched (suc d)) (p : 0 < f).
        find_loop-Found f (suc d) ((index + 1) % n) (omega arith) p (rw at (probe-next _ n d)) u' in
      let go_on = λ (h : (v : V) → entry_at es (probe (home q n) n d) ≢ occupied q v).
        let u' = Unmatched-suc d u h in find_continue f d index fuel at u' (rest u') in
      elim (Entry-cases (entry_at es index)) [
        | inl (inl e) ↦ rw (e, find_loop) (none, refl, Absent_empty d u (rw at at e))
        | inl (inr e) ↦ rw (e, find_loop) (go_on λ v o. let e' = rw at at e in cc)
        | inr (k, v, e) ↦ elim (Bool-cases (same q k)) [
          | inl hit ↦
              let qk = (same_iff q k).0 hit in
              (
                some (index, v),
                rw (e, find_loop, hit),
                (cc, omega (arith, probe-lt (home q n) n d t.positive)),
              )
          | inr miss ↦
              rw (e, find_loop, miss) (go_on λ w o. let o' = rw (← at) at o in cc (same_refl q))
        ]
      ]

module _ {ℓ} {K V : Type ℓ} ⦃key : Key K⦄ {m : HashMap K V} (valid : IsValid m) (q : K) where
  pub find-Found : Returns (find m q) (Found valid.table q)
  unfolding find
  find-Found =
      let t = valid.table in
      find_loop-Found t q m.capacity 0 _ (omega arith) t.positive
        (rw add-zero (sym (mod-eq_of_lt (home-lt q m.capacity t.positive)))) (λ e v h. elim h [ ])

  get-Found :
      (r : Option (ℕ × V)) → find m q ≡ done r → Found valid.table q r → get m q ≡ done (view m q)
  unfolding get
  get-Found none run absent = rw (run, lookup-none m.entries q absent)
  get-Found (some (i, v)) run (o, lt) = rw (run, lookup-at m.entries q v i valid.table.unique o)

  -- On a table whose invariant holds, so that each key is found on the way from its home entry, `hash_map_get` ends,
  -- and returns the value that the table holds for the key, or `NULL`. (Allocations that are refused can break the
  -- invariant.)
  pub get-view : get m q ≡ done (view m q)
  get-view = let (r, run, found) = find-Found in get-Found r run found
