-- ===== src/HashMap/Memory.antt =====
-- The calls of `malloc`, `calloc` and `free` in src/core/hash_map.c, over the life of a map.
pub mod Count
pub mod Leaks
pub mod Lifetime
use mathlib.Core.List.{map}
use clueless_task_manager.Base.{
  ℕ, ◌+◌, ◌-◌, ◌*◌, ◌/◌, Bool, true, false, ◌&&◌, ◌||◌, not, Option, none, some, List, [], ◌∷◌,
  ◌++◌, ltb, leb, ◌==◌, if◌then◌else◌, get_or, Outcome, done, ◌>>=◌,
}
use clueless_task_manager.HashMap.{
  empty, tombstone, occupied, HashMap, Scan, matched, stopped, target, Grants, home, put_loop, find,
  resize, minimum_capacity,
}
use clueless_task_manager.HashMap.Keys.{Key}
use clueless_task_manager.HashMap.Put.{granted}
use clueless_task_manager.HashMap.Calls.{
  Block, key_block, value_block, entries_block, map_block, hash_map_free,
}
use clueless_task_manager.HashMap.Client.{Call, call_put, call_get, call_remove, call_count, call}

-- what a block is for
pub data BlockKind : Type 0 where
  of_key of_value of_entries of_map : BlockKind

pub data MemoryCall : Type 0 where
  allocate release : BlockKind → MemoryCall

-- `hash_map_create`
unfoldable pub create_memory :
    (hash_given compare_given malloc_ok calloc_ok : Bool) → ℕ → ℕ → List MemoryCall
create_memory hash_given compare_given malloc_ok calloc_ok key_size value_size =
    let filled = if calloc_ok then allocate of_entries ∷ [] else release of_map ∷ [] in
    if key_size == 0 || value_size == 0 || not hash_given || not compare_given
    then []
    else (if malloc_ok then allocate of_map ∷ filled else [])

-- `hash_map_resize`
unfoldable pub resize_memory : Bool → ℕ → List MemoryCall
resize_memory calloc_ok new_capacity =
    if new_capacity == 0 || not calloc_ok then [] else allocate of_entries ∷ release of_entries ∷ []

module _ {ℓ} {K V : Type ℓ} where
  -- what `hash_map_put` does behind its loop
  unfoldable pub store_memory : Grants → HashMap K V → Scan → List MemoryCall
  store_memory g m (matched index) = []
  store_memory g m (stopped index first) =
      let second = if g.malloc_value then allocate of_value ∷ [] else release of_key ∷ [] in
      elim (get_or m.entries (target first index) empty) [
        | occupied k v ↦ []
        | _ ↦ if g.malloc_key then allocate of_key ∷ second else []
      ]

  abbrev pub release_block : Block K V → MemoryCall
  release_block (key_block k) = release of_key
  release_block (value_block v) = release of_value
  release_block entries_block = release of_entries
  release_block map_block = release of_map

module _ {ℓ} {K V : Type ℓ} ⦃key : Key K⦄ where
  abbrev pub insert_memory : Grants → HashMap K V → K → Outcome (List MemoryCall)
  insert_memory g m k =
      let start = home k m.capacity in
      put_loop m.entries m.capacity start k m.capacity start none >>= λ s. done (store_memory g m s)

  -- `hash_map_put`
  unfoldable pub put_memory : Grants → HashMap K V → K → Outcome (List MemoryCall)
  unfolding resize_memory store_memory
  put_memory g m k =
      if leb (3 * m.capacity) (4 * m.count)
      then (resize g.calloc_ok m (m.capacity * 2) >>= λ r.
          let grown = resize_memory g.calloc_ok (m.capacity * 2) in
          elim r.0 [
            | false ↦ done grown
            | true ↦ insert_memory g r.1 k >>= λ stored. done (grown ++ stored)
          ])
      else insert_memory g m k

  -- `hash_map_remove`
  unfoldable pub remove_memory : Bool → HashMap K V → K → Outcome (List MemoryCall)
  unfolding resize_memory
  remove_memory calloc_ok m k = find m k >>= λ r. elim r [
    | none ↦ done []
    | some (index, v) ↦
        let count = m.count - 1 in
        let half = m.capacity / 2 in
        let new_capacity = if ltb half minimum_capacity then minimum_capacity else half in
        done (
          release of_key
          ∷ (if ltb minimum_capacity m.capacity && ltb 0 count && leb (4 * count) m.capacity
              then resize_memory calloc_ok new_capacity
              else []))
  ]

  unfoldable pub call_memory : Call K V → HashMap K V → Outcome (List MemoryCall)
  unfolding put_memory remove_memory
  call_memory (call_put k v) m = put_memory granted m k
  call_memory (call_get k) m = done []
  call_memory (call_remove calloc_ok k) m = remove_memory calloc_ok m k
  call_memory call_count m = done []

  -- these calls on a map, and then `hash_map_free`
  unfoldable pub lifetime : List (Call K V) → Option (HashMap K V) → Outcome (List MemoryCall)
  unfolding call_memory
  lifetime [] m = done (map release_block (hash_map_free m))
  lifetime (c ∷ calls) none = done []
  lifetime (c ∷ calls) (some m) = call_memory c m >>= λ first.
      call c (some m) >>= λ r. lifetime calls r.1 >>= λ rest. done (first ++ rest)
