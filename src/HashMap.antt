-- ===== src/HashMap.antt =====
-- src/core/hash_map.c: an open-addressing table with tombstones.
pub mod Keys
pub mod Contents
pub mod Probe
pub mod Find
pub mod Write
pub mod Rehash
pub mod Resize
pub mod Insert
pub mod Put
pub mod Remove
pub mod Refused
pub mod Calls
pub mod Client
pub mod Iter
pub mod Memory
mod Tests
use clueless_task_manager.Base.{
  ℕ, zero, suc, ◌+◌, ◌-◌, ◌*◌, ◌/◌, ◌%◌, Bool, true, false, ◌&&◌, ◌||◌, not, Option, none, some,
  List, [], ◌∷◌, ltb, leb, ◌==◌, if◌then◌else◌, get_or, set, replicate, Outcome, done, fault,
  out_of_fuel, ◌>>=◌,
}
use clueless_task_manager.HashMap.Keys.{Key, same}

-- `struct HashEntry`: the key is `NULL`, TOMBSTONE or allocated; only the last has a value.
pub data Entry {ℓ} (K V : Type ℓ) : Type ℓ where
  empty tombstone : Entry K V
  occupied : K → V → Entry K V

-- `struct HashMap`. An entry has 16 bytes, so the capacity stays far below 2^64 and no index wraps.
pub record HashMap {ℓ} (K V : Type ℓ) : Type ℓ where
  pub entries : List (Entry K V)
  pub capacity : ℕ
  pub count : ℕ
  pub key_size : ℕ
  pub value_size : ℕ

abbrev pub minimum_capacity : ℕ
minimum_capacity = 16

-- what `hash_map_create` fills in
abbrev pub fresh {ℓ} : {K V : Type ℓ} → ℕ → ℕ → HashMap K V
fresh key_size value_size = record {
  entries = replicate minimum_capacity empty;
  capacity = minimum_capacity;
  count = 0;
  key_size = key_size;
  value_size = value_size;
}

-- `hash_map_create`: which of the function pointers are given, which allocations succeed.
unfoldable pub create {ℓ} :
    {K V : Type ℓ} (hash_given compare_given malloc_ok calloc_ok : Bool)
    → ℕ
    → ℕ
    → Option (HashMap K V)
create hash_given compare_given malloc_ok calloc_ok key_size value_size =
    if key_size == 0 || value_size == 0 || not hash_given || not compare_given
    then none
    else (if malloc_ok && calloc_ok then some (fresh key_size value_size) else none)

-- `hash_map_count`; `none` is `NULL`, for which `errno` is set.
pub hash_map_count {ℓ} : {K V : Type ℓ} → Option (HashMap K V) → ℕ
hash_map_count none = 0
hash_map_count (some m) = m.count

-- where the loop of `hash_map_put` ends: at an equal key, or at an index, with the first tombstone
pub data Scan : Type 0 where
  matched : ℕ → Scan
  stopped : ℕ → Option ℕ → Scan

-- the slot that `hash_map_put` fills: the first tombstone, or where the loop ended
abbrev pub target : Option ℕ → ℕ → ℕ
target none index = index
target (some t) index = t

-- which allocations of one `hash_map_put` succeed
pub record Grants : Type 0 where
  pub calloc_ok : Bool
  pub malloc_key : Bool
  pub malloc_value : Bool

-- the index at which every loop starts
abbrev pub home {ℓ} : {K : Type ℓ} ⦃key : Key K⦄ → K → ℕ → ℕ
home ⦃key⦄ k capacity = key.hash_func k % capacity

module _ {ℓ} {K V : Type ℓ} where
  -- The inner loop of `hash_map_resize`: it has no guard against running in circles.
  pub place_loop : List (Entry K V) → ℕ → ℕ → ℕ → Outcome ℕ
  place_loop es capacity zero index = out_of_fuel
  place_loop es capacity (suc f) index = elim (get_or es index empty) [
    | empty ↦ done index
    | tombstone ↦ done index
    | occupied k v ↦ place_loop es capacity f ((index + 1) % capacity)
  ]

  -- What `hash_map_put` does behind its loop; the flag is whether it returns 0.
  pub store : Grants → HashMap K V → K → V → Scan → Bool × HashMap K V
  store g m k v (matched index) = (true, record m { entries = set m.entries index (occupied k v) })
  store g m k v (stopped index first) =
      let at = target first index in
      let written = record m { entries = set m.entries at (occupied k v); count = m.count + 1 } in
      let cleared = record m { entries = set m.entries at empty } in
      elim (get_or m.entries at empty) [
        | occupied k' w ↦ (true, written)
        | _ ↦ if g.malloc_key && g.malloc_value then (true, written) else (false, cleared)
      ]

  -- `hash_map_iter_next`: the entry, if one is left, and the iterator's new index.
  pub iter_loop : List (Entry K V) → ℕ → ℕ → ℕ → Outcome (Option (K × V) × ℕ)
  iter_loop es capacity zero index = out_of_fuel
  iter_loop es capacity (suc f) index =
      let rest = iter_loop es capacity f (index + 1) in
      let step : Outcome (Option (K × V) × ℕ) = elim (get_or es index empty) [
        | occupied k v ↦ done (some (k, v), index + 1)
        | _ ↦ rest
      ] in
      if ltb index capacity then step else done (none, index)

  pub iter_next : HashMap K V → ℕ → Outcome (Option (K × V) × ℕ)
  iter_next m index = iter_loop m.entries m.capacity (m.capacity + 1 - index) index

module _ {ℓ} {K V : Type ℓ} ⦃key : Key K⦄ where
  -- The loop that `hash_map_get` and `hash_map_remove` share, on fuel.
  pub find_loop : List (Entry K V) → (capacity start : ℕ) → K → ℕ → ℕ → Outcome (Option (ℕ × V))
  find_loop es capacity start k zero index = out_of_fuel
  find_loop es capacity start k (suc f) index =
      let index' = (index + 1) % capacity in
      let rest = find_loop es capacity start k f index' in
      let go_on : Outcome (Option (ℕ × V)) = if index' == start then done none else rest in
      elim (get_or es index empty) [
        | empty ↦ done none
        | tombstone ↦ go_on
        | occupied k' v ↦ if same k k' then done (some (index, v)) else go_on
      ]

  pub find : HashMap K V → K → Outcome (Option (ℕ × V))
  find m k =
      let start = home k m.capacity in find_loop m.entries m.capacity start k m.capacity start

  -- `hash_map_get`
  pub get : HashMap K V → K → Outcome (Option V)
  get m k = find m k >>= λ r. elim r [ none ↦ done none | some (index, v) ↦ done (some v) ]

  pub place : List (Entry K V) → ℕ → K → Entry K V → Outcome (List (Entry K V))
  place es capacity k e =
      place_loop es capacity capacity (home k capacity) >>= λ index. done (set es index e)

  -- The outer loop: tombstones move too, by the hash of the placeholder.
  pub rehash : List (Entry K V) → ℕ → List (Entry K V) → Outcome (List (Entry K V))
  rehash [] capacity es = done es
  rehash (empty ∷ old) capacity es = rehash old capacity es
  rehash (tombstone ∷ old) capacity es =
      place es capacity key.placeholder tombstone >>= rehash old capacity
  rehash (occupied k v ∷ old) capacity es =
      place es capacity k (occupied k v) >>= rehash old capacity

  -- `hash_map_resize`; the flag is whether it returns 0.
  pub resize : Bool → HashMap K V → ℕ → Outcome (Bool × HashMap K V)
  resize calloc_ok m new_capacity =
      if new_capacity == 0 || not calloc_ok
      then done (false, m)
      else (rehash m.entries new_capacity (replicate new_capacity empty) >>= λ es.
          done (true, record m { entries = es; capacity = new_capacity }))

  -- The loop of `hash_map_put`. From the second tombstone on it compares TOMBSTONE as a key, and a
  -- match then copies through the `NULL` value.
  pub put_loop : List (Entry K V) → (capacity start : ℕ) → K → ℕ → ℕ → Option ℕ → Outcome Scan
  put_loop es capacity start k zero index first = out_of_fuel
  put_loop es capacity start k (suc f) index first =
      let index' = (index + 1) % capacity in
      let go_on : Option ℕ → Outcome Scan = λ first'.
        (let rest = put_loop es capacity start k f index' first' in
          if index' == start then done (stopped index' first') else rest) in
      elim (get_or es index empty) [
        | empty ↦ done (stopped index first)
        | tombstone ↦ elim first [
          | none ↦ go_on (some index)
          | some t ↦ if same k key.placeholder then fault else go_on (some t)
        ]
        | occupied k' v ↦ if same k k' then done (matched index) else go_on first
      ]

  pub insert : Grants → HashMap K V → K → V → Outcome (Bool × HashMap K V)
  insert g m k v =
      let start = home k m.capacity in
      put_loop m.entries m.capacity start k m.capacity start none >>= λ s. done (store g m k v s)

  -- `hash_map_put`; `count >= capacity * 0.75l` is exact in integers.
  pub put : Grants → HashMap K V → K → V → Outcome (Bool × HashMap K V)
  put g m k v =
      let grown : Outcome (Bool × HashMap K V) =
        if leb (3 * m.capacity) (4 * m.count)
        then resize g.calloc_ok m (m.capacity * 2)
        else done (true, m) in
      grown >>= λ r. elim r.0 [ false ↦ done (false, r.1) | true ↦ insert g r.1 k v ]

  -- `hash_map_remove`; the flag is whether it returns 1. The result of the resize is ignored.
  pub remove : Bool → HashMap K V → K → Outcome (Bool × HashMap K V)
  remove calloc_ok m k = find m k >>= λ r. elim r [
    | none ↦ done (false, m)
    | some (index, v) ↦
        let count = m.count - 1 in
        let m' = record m { entries = set m.entries index tombstone; count = count } in
        let half = m.capacity / 2 in
        let new_capacity = if ltb half minimum_capacity then minimum_capacity else half in
        if ltb minimum_capacity m.capacity && ltb 0 count && leb (4 * count) m.capacity
        then (resize calloc_ok m' new_capacity >>= λ s. done (true, s.1))
        else done (true, m')
  ]
