-- ===== src/HashMap/Insert.antt =====
-- The loop of `hash_map_put`: it ends, at the key's entry or at a slot where the key may stand.
use native.Mathlib.Nat.{add-zero, mod-eq_of_lt}
use clueless_task_manager.Base.{
  ℕ, zero, suc, ◌+◌, ◌%◌, ◌<◌, ◌≤◌, ◌≡◌, ◌≢◌, refl, sym, ap, inl, inr, false, List, Option, none,
  some, arith, if◌then◌else◌, ◌==◌, ==→eq, length, dec_lt, Bool-cases, done, Returns,
}
use clueless_task_manager.HashMap.Keys.{Key, same, same_iff, same_refl}
use clueless_task_manager.HashMap.{
  Entry, empty, tombstone, occupied, home, Scan, matched, stopped, target, put_loop,
}
use clueless_task_manager.HashMap.Contents.{entry_at, contents, live, length-contents_full}
use clueless_task_manager.HashMap.Probe.{
  probe, probe-lt, probe-next, probe-round, probe_reaches, home-lt, Entry-cases, IsTable,
}
use clueless_task_manager.HashMap.Find.{
  Unmatched, Unmatched-suc, Absent, Absent_round, Absent_empty,
}
use clueless_task_manager.HashMap.Write.{Slot}

module _ {ℓ} {K V : Type ℓ} ⦃key : Key K⦄ {es : List (Entry K V)} {n : ℕ} (t : IsTable es n)
    (k : K) where
  -- what the variable `first_tombstone_index` says after `d` entries
  abbrev First : ℕ → Option ℕ → Type ℓ
  First d none =
      (e : ℕ) → e < d → (k' : K) × (v : V) × (entry_at es (probe (home k n) n e) ≡ occupied k' v)
  First d (some i) = (e : ℕ) × (e < d) × (probe (home k n) n e ≡ i) × (entry_at es i ≡ tombstone)

  -- what the loop knows after `d` entries
  record Seen (d : ℕ) (first : Option ℕ) : Type ℓ where
    unmatched : Unmatched t k d
    path : (e : ℕ) → e < d → entry_at es (probe (home k n) n e) ≢ empty
    firsts : First d first

  -- where the loop may end
  abbrev pub Ends : Scan → Type ℓ
  Ends (matched i) = (i < n) × ((v : V) × (entry_at es i ≡ occupied k v))
  Ends (stopped i first) =
      Absent t k
      × ((lt : target first i < n) × Slot t (target first i) lt k)
      × (live (entry_at es (target first i)) ≡ 0)

  stop_free :
      (i : ℕ) (absent : Absent t k) (lt : i < n) (d : ℕ)
      → d < n
      → probe (home k n) n d ≡ i
      → ((e : ℕ) → e < d → entry_at es (probe (home k n) n e) ≢ empty)
      → live (entry_at es i) ≡ 0
      → Slot t i lt k
  stop_free i absent lt d round here path free = record {
    only = λ j w o. absurd (absent j w o);
    mine = λ k' w o. ground arith;
    steps = d;
    round = round;
    here = here;
    path = path;
  }

  -- A tombstone that was seen is a slot for an absent key.
  stopped_at : (d i j : ℕ) → Absent t k → Seen d (some j) → d ≤ n → Ends (stopped i (some j))
  stopped_at d i j absent s le =
      let (e, before, here, grave) = s.firsts in
      let lt : j < n = rw here at (probe-lt (home k n) n e t.positive) in
      (
        absent,
        (
          lt,
          stop_free j absent lt e (omega arith) here (λ x p. s.path x (omega arith))
              (ap live grave),
        ),
        ap live grave,
      )

  -- The loop ended at an empty entry.
  stopped_empty :
      (d : ℕ) (first : Option ℕ)
      → Seen d first
      → d < n
      → entry_at es (probe (home k n) n d) ≡ empty
      → Ends (stopped (probe (home k n) n d) first)
  stopped_empty d none s lt vacant =
      let absent = Absent_empty t k d s.unmatched vacant in
      let inside = probe-lt (home k n) n d t.positive in
      (
        absent,
        (inside, stop_free _ absent inside d lt refl s.path (ap live vacant)),
        ap live vacant,
      )
  stopped_empty d (some j) s lt vacant =
      stopped_at d (probe (home k n) n d) j (Absent_empty t k d s.unmatched vacant) s (omega arith)

  -- After a whole round a tombstone was seen, since the table is not full.
  stopped_round :
      (i : ℕ) (first : Option ℕ) → Seen n first → length (contents es) < n → Ends (stopped i first)
  stopped_round i none s room =
      let full = length-contents_full es λ j p.
        (let (e, round, here) =
            probe_reaches (home k n) n j (home-lt k n t.positive) (omega (arith, t.width)) in
          let (k', v, o) = s.firsts e round in rw (← here, o)) in
      absurd (omega (arith, t.width))
  stopped_round i (some j) s room = stopped_at n i j (Absent_round t k s.unmatched) s (omega arith)

  Seen-suc :
      (d : ℕ) (first first' : Option ℕ)
      → Seen d first
      → entry_at es (probe (home k n) n d) ≢ empty
      → ((v : V) → entry_at es (probe (home k n) n d) ≢ occupied k v)
      → First (suc d) first'
      → Seen (suc d) first'
  Seen-suc d first first' s some_key other firsts = record {
    unmatched = Unmatched-suc t k d s.unmatched other;
    path = λ e p. elim (dec_lt e d) [
      | yes before ↦ s.path e before
      | no last ↦ let same_step : e ≡ d = omega arith in rw same_step some_key
    ];
    firsts = firsts;
  }

  First-suc :
      (d : ℕ) (first : Option ℕ) {k' : K} {v : V}
      → First d first
      → entry_at es (probe (home k n) n d) ≡ occupied k' v
      → First (suc d) first
  First-suc d none {k'} {v} f o = λ e p. elim (dec_lt e d) [
    | yes before ↦ f e before
    | no last ↦ let same_step : e ≡ d = omega arith in (k', v, rw same_step o)
  ]
  First-suc d (some j) (e, before, here, grave) o = (e, omega arith, here, grave)

  module _ (room : length (contents es) < n) where
    put_continue :
        (f d index : ℕ) (first : Option ℕ)
        → d + suc f ≡ n
        → index ≡ probe (home k n) n d
        → Seen (suc d) first
        → (0 < f → Returns (put_loop es n (home k n) k f ((index + 1) % n) first) Ends)
        → Returns
            (if ((index + 1) % n) == home k n
              then done (stopped ((index + 1) % n) first)
              else put_loop es n (home k n) k f ((index + 1) % n) first)
            Ends
    put_continue f d index first fuel at s rest =
        let round : (((index + 1) % n) == home k n) ≡ (suc d == n) =
          rw at (probe-round (home k n) n d (home-lt k n t.positive) (omega arith)) in
        elim (Bool-cases (suc d == n)) [
          | inl e ↦
              let whole : suc d ≡ n = ==→eq _ _ e in
              rw (round, e) (_, refl, stopped_round ((index + 1) % n) first (rw whole at s) room)
          | inr e ↦ rw (round, e) (rest (ground arith))
        ]

    module _ (real : k ≢ key.placeholder) where
      put_tombstone :
          (f d index : ℕ) (first : Option ℕ)
          → d + suc f ≡ n
          → index ≡ probe (home k n) n d
          → Seen d first
          → entry_at es index ≡ tombstone
          → ((first' : Option ℕ)
              → Seen (suc d) first'
              → 0 < f
              → Returns (put_loop es n (home k n) k f ((index + 1) % n) first') Ends)
          → Returns (put_loop es n (home k n) k (suc f) index first) Ends
      unfolding put_loop
      put_tombstone f d index none fuel at s e rest =
          let o = rw at at e in
          let s' =
            Seen-suc d none (some index) s (λ c. cc) (λ v c. cc) (d, omega arith, sym at, e) in
          rw (e, put_loop) (put_continue f d index (some index) fuel at s' (rest (some index) s'))
      put_tombstone f d index (some j) fuel at s e rest =
          let o = rw at at e in
          let (x, before, here, grave) = s.firsts in
          let s' =
            Seen-suc d (some j) (some j) s (λ c. cc) (λ v c. cc) (x, omega arith, here, grave) in
          let other : same k key.placeholder ≡ false =
            ground (arith, (same_iff k key.placeholder).0) in
          rw (e, put_loop, other) (put_continue f d index (some j) fuel at s' (rest (some j) s'))

      put_loop-Ends :
          (f d index : ℕ) (first : Option ℕ)
          → d + f ≡ n
          → 0 < f
          → index ≡ probe (home k n) n d
          → Seen d first
          → Returns (put_loop es n (home k n) k f index first) Ends
      unfolding put_loop
      put_loop-Ends zero d index first fuel pos at s = absurd (omega arith)
      put_loop-Ends (suc f) d index first fuel pos at s =
          let rest = λ (first' : Option ℕ) (s' : Seen (suc d) first') (p : 0 < f).
            put_loop-Ends f (suc d) ((index + 1) % n) first' (omega arith) p
              (rw at (probe-next (home k n) n d)) s' in
          elim (Entry-cases (entry_at es index)) [
            | inl (inl e) ↦
                rw (e, put_loop)
                  (
                    stopped index first,
                    refl,
                    rw at (stopped_empty d first s (omega arith) (rw at at e)),
                  )
            | inl (inr e) ↦ put_tombstone f d index first fuel at s e rest
            | inr (k', v, e) ↦ elim (Bool-cases (same k k')) [
              | inl hit ↦
                  let kk' = (same_iff k k').0 hit in
                  (
                    matched index,
                    rw (e, put_loop, hit),
                    (rw at (probe-lt (home k n) n d t.positive), (v, cc)),
                  )
              | inr miss ↦
                  let o = rw at at e in
                  let s' =
                    Seen-suc d first first s (λ c. cc) (λ w c. cc (same_refl k))
                      (First-suc d first s.firsts o) in
                  rw (e, put_loop, miss) (put_continue f d index first fuel at s' (rest first s'))
            ]
          ]

      pub put_scan-Ends : Returns (put_loop es n (home k n) k n (home k n) none) Ends
      put_scan-Ends =
          put_loop-Ends n 0 (home k n) none (omega arith) t.positive
            (rw add-zero (sym (mod-eq_of_lt (home-lt k n t.positive))))
            (record {
              unmatched = λ e v h. elim h [ ];
              path = λ e h. elim h [ ];
              firsts = λ e h. elim h [ ];
            })
