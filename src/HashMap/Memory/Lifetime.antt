-- ===== src/HashMap/Memory/Lifetime.antt =====
-- What src/core/hash_map.c has allocated and not released when a map is freed.
use mathlib.Core.List.{map}
use clueless_task_manager.Base.{
  ℕ, ◌+◌, ◌≤◌, ◌≡◌, refl, sym, ◌∙◌, ap, Bool, Option, none, some, List, [], ◌∷◌, ◌++◌, arith,
  if◌then◌else◌, length, done, Returns, pos,
}
use clueless_task_manager.HashMap.{HashMap, create}
use clueless_task_manager.HashMap.Keys.{Key}
use clueless_task_manager.HashMap.Contents.{contents}
use clueless_task_manager.HashMap.Probe.{view}
use clueless_task_manager.HashMap.Find.{find-Found}
use clueless_task_manager.HashMap.Put.{present}
use clueless_task_manager.HashMap.Remove.{is_some, remove-Removes}
use clueless_task_manager.HashMap.Resize.{create-IsValid}
use clueless_task_manager.HashMap.Calls.{
  entries_block, map_block, pair_blocks, hash_map_free-blocks,
}
use clueless_task_manager.HashMap.Client.{
  Call, call_put, call_get, call_remove, call_count, code, Dict, empty_dict, call_dict, run_dict,
  RealKey, RealKeys, Represents, call-Agrees,
}
use clueless_task_manager.HashMap.Memory.{
  BlockKind, of_key, of_value, of_entries, of_map, create_memory, release_block, call_memory,
  lifetime,
}
use clueless_task_manager.HashMap.Memory.Leaks.{put_memory-Stores, remove_memory-Found}
use clueless_task_manager.HashMap.Memory.Count.{
  allocated, released, allocated-append, released-append, held, removed_by, removals, lost,
  lost_add, Steps, put-Steps, remove-Steps, idle-Steps, Lives, created, created-holds,
}

removed_by-present {ℓ} :
    {V : Type ℓ} (o : Option V)
    → removed_by {V = V} (code (if is_some o then pos 1 else pos 0)) ≡ present o
removed_by-present none = refl
removed_by-present (some v) = refl

present_bounded {ℓ} : {V : Type ℓ} (o : Option V) → present o ≤ 1
present_bounded none = omega arith
present_bounded (some v) = omega arith

module _ {ℓ} {K V : Type ℓ} where
  blocks-held :
      (kvs : List (K × V)) (kind : BlockKind)
      → let calls = map release_block (pair_blocks kvs ++ entries_block ∷ map_block ∷ []) in
        (allocated kind calls ≡ 0) × (released kind calls ≡ held kind (length kvs))
  unfolding allocated released
  blocks-held [] of_key = (refl, refl)
  blocks-held [] of_value = (refl, refl)
  blocks-held [] of_entries = (refl, refl)
  blocks-held [] of_map = (refl, refl)
  blocks-held ((k, v) ∷ kvs) of_key = ground (arith, blocks-held kvs of_key)
  blocks-held ((k, v) ∷ kvs) of_value = ground (arith, blocks-held kvs of_value)
  blocks-held ((k, v) ∷ kvs) of_entries = ground (arith, blocks-held kvs of_entries)
  blocks-held ((k, v) ∷ kvs) of_map = ground (arith, blocks-held kvs of_map)

module _ {ℓ} {K V : Type ℓ} ⦃key : Key K⦄ where
  -- a call, its answer on the abstract map, and the keys that it removes
  call_memory-Steps :
      (c : Call K V) {m m' : HashMap K V} {d : Dict K V}
      → RealKey c
      → Represents m d
      → Represents m' (call_dict c d).1
      → Returns
          (call_memory c m)
          (λ calls. Steps calls m.count m'.count (removed_by (call_dict c d).0))
  unfolding call_memory call_dict
  call_memory-Steps (call_put k v) {m} {m'} {d} real now next =
      let (calls, run, stores) = put_memory-Stores m k now.valid real in
      let bound = ap present (now.reads k) in
      (
        calls,
        run,
        put-Steps calls m.count m'.count (present (view m k)) stores
            (omega (arith, now.counted, next.counted, present_bounded (d.value_of k))),
      )
  call_memory-Steps (call_get k) {m} {m'} {d} real now next =
      let same_count : m'.count ≡ m.count = next.counted ∙ sym now.counted in
      ([], refl, rw same_count (idle-Steps m.count))
  call_memory-Steps call_count {m} {m'} {d} real now next =
      let same_count : m'.count ≡ m.count = next.counted ∙ sym now.counted in
      ([], refl, rw same_count (idle-Steps m.count))
  call_memory-Steps (call_remove calloc_ok k) {m} {m'} {d} real now next =
      let (r, found, at) = find-Found now.valid k in
      let (calls, run, drops) = remove_memory-Found calloc_ok m now.valid k r found at in
      let (s, gone, removes) = remove-Removes calloc_ok {m = m} k now.valid in
      let bound = ap present (now.reads k) in
      rw (removed_by-present (d.value_of k), ← bound)
        (
          calls,
          run,
          remove-Steps calls m.count m'.count (present (view m k)) drops
              (omega (arith, now.counted, next.counted, removes.counted)),
        )

  lifetime-Lives :
      (calls : List (Call K V)) {m : HashMap K V} {d : Dict K V}
      → RealKeys calls
      → Represents m d
      → Returns
          (lifetime calls (some m))
          (λ after. Lives after m.count (removals (run_dict calls d).0))
  unfolding lifetime run_dict removals
  lifetime-Lives [] {m} {d} real now =
      let blocks = ap (map release_block) (hash_map_free-blocks m now.valid) in
      (
        _,
        ap done blocks,
        λ kind.
            let (none_more, all_back) = blocks-held (contents m.entries) kind in
            let keys = ap (held kind) now.valid.counted in
            let nothing = lost_add kind 0 0 in omega arith,
      )
  lifetime-Lives (c ∷ calls) {m} {d} (real, more) now =
      let (r, ran, (answer, (m', at, next))) = call-Agrees c {m = m} {d = d} real now in
      let (first, began, steps) = call_memory-Steps c real now next in
      let (rest, ended, lives) = lifetime-Lives calls more next in
      (
        first ++ rest,
        rw (began, ran, at, ended) refl,
        λ kind.
            let now_allocated = allocated-append kind first rest in
            let now_released = released-append kind first rest in
            let all_lost =
              lost_add kind (removed_by (call_dict c d).0)
                (removals (run_dict calls (call_dict c d).1).0) in
            let step = steps kind in let life = lives kind in omega arith,
      )

  create_memory-made :
      (hash_given compare_given malloc_ok calloc_ok : Bool) (key_size value_size : ℕ)
      {m : HashMap K V}
      → create hash_given compare_given malloc_ok calloc_ok key_size value_size ≡ some m
      → create_memory hash_given compare_given malloc_ok calloc_ok key_size value_size ≡ created
  unfolding create create_memory
  create_memory-made a b c d key_size value_size made = ground arith

  -- The memory of a hash map, from `hash_map_create` over any sequence of calls to `hash_map_free`: keys,
  -- tables and the map itself are released as often as they are allocated, through all growing and
  -- shrinking; of the blocks for values, exactly one is left for each call of `hash_map_remove` that finds
  -- its key, and no other. Every allocation of `hash_map_put` succeeds, that of a smaller table may fail,
  -- and no key that is put is the one that TOMBSTONE reads as.
  pub lifetime-leaks :
      (kind : BlockKind) (hash_given compare_given malloc_ok calloc_ok : Bool)
      (key_size value_size : ℕ) {m : HashMap K V} (calls : List (Call K V))
      → create hash_given compare_given malloc_ok calloc_ok key_size value_size ≡ some m
      → RealKeys calls
      → Returns (lifetime calls (some m)) (λ after.
        let all =
          create_memory hash_given compare_given malloc_ok calloc_ok key_size value_size ++ after in
        allocated kind all ≡ released kind all + lost kind (removals (run_dict calls empty_dict).0))
  lifetime-leaks kind h c a b key_size value_size {m} calls made real =
      let (valid, none_yet, unbound) = create-IsValid h c a b key_size value_size {m = m} made in
      let (after, ran, lives) =
        lifetime-Lives calls real (record { valid = valid; counted = none_yet; reads = unbound }) in
      let start = create_memory-made h c a b key_size value_size {m = m} made in
      let (holds, none_back) = created-holds kind in
      let more = allocated-append kind created after in
      let fewer = released-append kind created after in
      let life = lives kind in
      let same_held = ap (held kind) none_yet in (after, ran, rw start (omega arith))
