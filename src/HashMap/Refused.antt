-- ===== src/HashMap/Refused.antt =====
-- `hash_map_put` of src/core/hash_map.c when no memory is left.
use clueless_task_manager.Base.{
  ℕ, zero, suc, ◌+◌, ◌*◌, ◌<◌, ◌≡◌, ◌≢◌, refl, sym, ◌∙◌, ap, subst, inl, inr, Bool, true, false,
  Option, none, some, List, [], ◌∷◌, arith, leb, length, get_or, set, Bool-cases, Returns,
}
use clueless_task_manager.HashMap.Keys.{Key}
use clueless_task_manager.HashMap.{
  empty, tombstone, HashMap, Scan, matched, stopped, target, store, insert, put, resize, Grants,
}
use clueless_task_manager.HashMap.Contents.{entry_at, live, lookup-at, lookup-none}
use clueless_task_manager.HashMap.Probe.{IsValid, view, Entry-cases}
use clueless_task_manager.HashMap.Insert.{Ends, put_scan-Ends}
use clueless_task_manager.HashMap.Put.{Puts, store-Writes, Writes-Puts}

one-zero : ◌≢◌ {A = ℕ} 1 0
one-zero e = omega (arith, e)

-- every allocation fails
abbrev pub refused : Grants
refused = record { calloc_ok = false; malloc_key = false; malloc_value = false }

set-same {ℓ} :
    {A : Type ℓ} (xs : List A) (i : ℕ) (d v : A)
    → get_or xs i d ≡ v
    → i < length xs
    → set xs i v ≡ xs
set-same [] i d v e h = refl
set-same (x ∷ xs) zero d v e h = ap (λ y. y ∷ xs) (sym e)
set-same (x ∷ xs) (suc i) d v e h = ap (λ l. x ∷ l) (set-same xs i d v e (omega arith))

module _ {ℓ} {K V : Type ℓ} where
  abbrev pub HasNoTombstone : HashMap K V → Type ℓ
  HasNoTombstone m = (i : ℕ) → entry_at m.entries i ≢ tombstone

module _ {ℓ} {K V : Type ℓ} ⦃key : Key K⦄ where
  store_refused :
      (m : HashMap K V) (k : K) (v : V) (i : ℕ) (first : Option ℕ)
      → entry_at m.entries (target first i) ≡ empty
      → store refused m k v (stopped i first)
        ≡ (false, record m { entries = set m.entries (target first i) empty })
  unfolding store
  store_refused m k v i first e = ground arith

  -- what is left: where the table is to grow, or the key is new, it is as before and the call fails
  abbrev pub Refuses :
      (m : HashMap K V) → K → V → (full : Bool) → Option V → Bool × HashMap K V → Type ℓ
  Refuses m k v true bound r = r ≡ (false, m)
  Refuses m k v false none r = r ≡ (false, m)
  Refuses m k v false (some w) r = Puts m k v r

  module _ {m : HashMap K V} (k : K) (v : V) (valid : IsValid m) (clean : HasNoTombstone m) where
    free-empty : (i : ℕ) → live (entry_at m.entries i) ≡ 0 → entry_at m.entries i ≡ empty
    free-empty i free = elim (Entry-cases (entry_at m.entries i)) [
      | inl (inl e) ↦ e
      | inl (inr e) ↦ absurd (clean i e)
      | inr (k', w, e) ↦ absurd (one-zero (sym (ap live e) ∙ free))
    ]

    store-Refuses :
        (room : m.count + 1 < m.capacity) (s : Scan)
        → Ends valid.table k s
        → Refuses m k v false (view m k) (store refused m k v s)
    unfolding store
    store-Refuses room (matched i) (lt, (w, o)) =
        let found = lookup-at m.entries k w i valid.table.unique o in
        let written = store-Writes m valid.table valid.counted v (matched i) (lt, (w, o)) in
        rw found (Writes-Puts m m k v (λ q. refl) refl valid.roomy room written)
    store-Refuses room (stopped i first) (absent, (lt, slot), free) =
        let at = target first i in
        let e = free-empty at free in
        let width : at < length m.entries = omega (arith, valid.table.width) in
        let same = set-same m.entries at empty empty e width in
        let stored : store refused m k v (stopped i first) ≡ (false, m) =
          store_refused m k v i first e ∙ ap (λ es. (false, record m { entries = es })) same in
        subst (λ o. Refuses m k v false o (store refused m k v (stopped i first)))
          (sym (lookup-none m.entries k absent)) stored

    -- If no memory is left, the map has no tombstone and the key is not the one that TOMBSTONE reads as,
    -- `hash_map_put` ends: where the table would have to grow, or where the key is new, it fails and the map
    -- is as before; where the key is bound, it succeeds all the same, and only that value changes.
    pub put-Refuses :
        k ≢ key.placeholder
        → Returns
            (put refused m k v)
            (Refuses m k v (leb (3 * m.capacity) (4 * m.count)) (view m k))
    unfolding put resize insert
    put-Refuses real = elim (Bool-cases (leb (3 * m.capacity) (4 * m.count))) [
      | inl full ↦ ((false, m), rw full (ground arith), rw full refl)
      | inr sparse ↦
          let (s, run, ends) =
            put_scan-Ends valid.table k (omega (arith, valid.counted, valid.sparse)) real in
          let room : m.count + 1 < m.capacity = ground (arith, valid.roomy) in
          (store refused m k v s, rw (sparse, run) refl, rw sparse (store-Refuses room s ends))
    ]
