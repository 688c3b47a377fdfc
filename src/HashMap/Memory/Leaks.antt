-- ===== src/HashMap/Memory/Leaks.antt =====
-- Allocations and releases of src/core/hash_map.c, compared over the life of a map.
use mathlib.Core.Bool.{false≢true}
use clueless_task_manager.Base.{
  ℕ, ◌+◌, ◌-◌, ◌*◌, ◌<◌, ◌≡◌, ◌≢◌, refl, ap, inl, inr, Bool, true, false, ◌&&◌, Option, none, some,
  List, [], ◌++◌, arith, leb, ltb, length, Bool-cases, done, ◌>>=◌, Returns,
}
use clueless_task_manager.HashMap.{HashMap, Scan, matched, stopped, target, find, minimum_capacity}
use clueless_task_manager.HashMap.Keys.{Key}
use clueless_task_manager.HashMap.Contents.{contents, entry_at, live, lookup-at, lookup-none}
use clueless_task_manager.HashMap.Probe.{IsTable, IsValid, view}
use clueless_task_manager.HashMap.Find.{Found}
use clueless_task_manager.HashMap.Insert.{Ends, put_scan-Ends}
use clueless_task_manager.HashMap.Put.{granted, present}
use clueless_task_manager.HashMap.Resize.{Resized, resize-Resized}
use clueless_task_manager.HashMap.Memory.{
  BlockKind, of_key, of_value, of_entries, of_map, MemoryCall, resize_memory, store_memory,
  insert_memory, put_memory, remove_memory,
}
use clueless_task_manager.HashMap.Memory.Count.{
  allocated, released, allocated-append, released-append, held, lost, pair, pair-adds,
  resize_memory-even, dropped, nil-even,
}

module _ {ℓ} {K V : Type ℓ} ⦃key : Key K⦄ where
  -- what a call of `hash_map_put` allocates: a key and a value exactly if the key is new
  abbrev pub Stores : HashMap K V → K → List MemoryCall → Type 0
  Stores m k calls =
      (kind : BlockKind)
      → allocated kind calls + held kind (present (view m k)) ≡ released kind calls + held kind 1

  store_memory-new :
      (m : HashMap K V) (i : ℕ) (first : Option ℕ)
      → live (entry_at m.entries (target first i)) ≡ 0
      → store_memory granted m (stopped i first) ≡ pair
  unfolding store_memory
  store_memory-new m i first free = ground arith

  store-Stores :
      (m : HashMap K V) (t : IsTable m.entries m.capacity) (k : K) (s : Scan)
      → Ends t k s
      → Stores m k (store_memory granted m s)
  unfolding store_memory allocated released
  store-Stores m t k (matched i) (lt, (w, o)) kind = rw (lookup-at m.entries k w i t.unique o) refl
  store-Stores m t k (stopped i first) (absent, place, free) kind =
      rw (lookup-none m.entries k absent, store_memory-new m i first free) (pair-adds kind)

  insert_memory-Stores :
      (m : HashMap K V) (k : K)
      → IsTable m.entries m.capacity
      → length (contents m.entries) < m.capacity
      → k ≢ key.placeholder
      → Returns (insert_memory granted m k) (Stores m k)
  insert_memory-Stores m k t room real =
      let (s, run, ends) = put_scan-Ends t k room real in
      (store_memory granted m s, rw run refl, store-Stores m t k s ends)

  put_memory-grown :
      (m : HashMap K V) (k : K) (r : Bool × HashMap K V)
      → IsValid m
      → k ≢ key.placeholder
      → Resized m (m.capacity * 2) r
      → Returns
          (let grown = resize_memory true (m.capacity * 2) in
            elim r.0 [
              | false ↦ done grown
              | true ↦ insert_memory granted r.1 k >>= λ stored. done (grown ++ stored)
            ])
          (Stores m k)
  put_memory-grown m k (false, m') valid real z = absurd (false≢true z.flag)
  put_memory-grown m k (true, m') valid real z =
      let (calls, run, stores) =
        insert_memory-Stores m' k z.table
          (omega (arith, z.entries, z.capacity, valid.counted, valid.sparse)) real in
      let grown = resize_memory true (m.capacity * 2) in
      (
        grown ++ calls,
        rw run refl,
        λ kind.
            let more = allocated-append kind grown calls in
            let fewer = released-append kind grown calls in
            let even = resize_memory-even kind true (m.capacity * 2) in
            let alike = ap (λ o. held kind (present o)) (z.reads k) in
            let step = stores kind in omega arith,
      )

  pub put_memory-Stores :
      (m : HashMap K V) (k : K)
      → IsValid m
      → k ≢ key.placeholder
      → Returns (put_memory granted m k) (Stores m k)
  unfolding put_memory
  put_memory-Stores m k valid real = elim (Bool-cases (leb (3 * m.capacity) (4 * m.count))) [
    | inr sparse ↦
        rw sparse
          (insert_memory-Stores m k valid.table (omega (arith, valid.counted, valid.sparse)) real)
    | inl full ↦
        let (r, resized, z) =
          resize-Resized m (m.capacity * 2) valid.table
            (omega (arith, valid.counted, valid.sparse)) in
        rw (full, resized) (put_memory-grown m k r valid real z)
  ]

  -- What a call of `hash_map_remove` releases: a key exactly if the key is found; the value is not.
  abbrev pub Drops : HashMap K V → K → List MemoryCall → Type 0
  Drops m k calls =
      (kind : BlockKind)
      → allocated kind calls + held kind (present (view m k))
        ≡ released kind calls + held kind 0 + lost kind (present (view m k))

  nothing-Drops : (m : HashMap K V) (k : K) → view m k ≡ none → Drops m k []
  unfolding allocated released
  nothing-Drops m k unbound of_key = rw unbound refl
  nothing-Drops m k unbound of_value = rw unbound refl
  nothing-Drops m k unbound of_entries = refl
  nothing-Drops m k unbound of_map = refl

  pub remove_memory-Found :
      (calloc_ok : Bool) (m : HashMap K V) (valid : IsValid m) (k : K) (r : Option (ℕ × V))
      → find m k ≡ done r
      → Found valid.table k r
      → Returns (remove_memory calloc_ok m k) (Drops m k)
  unfolding remove_memory
  remove_memory-Found calloc_ok m valid k none run absent =
      ([], rw run refl, nothing-Drops m k (lookup-none m.entries k absent))
  remove_memory-Found calloc_ok m valid k (some (i, v)) run (at, lt) =
      let bound : view m k ≡ some v = lookup-at m.entries k v i valid.table.unique at in
      let shrinks =
        ltb minimum_capacity m.capacity
        && ltb 0 (m.count - 1)
        && leb (4 * (m.count - 1)) m.capacity in
      rw (run, bound)
        (elim (Bool-cases shrinks) [
          | inl small ↦
              rw small (_, refl, λ kind. dropped kind _ (resize_memory-even kind calloc_ok _))
          | inr large ↦ rw large (_, refl, λ kind. dropped kind [] (nil-even kind))
        ])
