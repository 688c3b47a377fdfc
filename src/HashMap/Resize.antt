-- ===== src/HashMap/Resize.antt =====
-- `hash_map_create` and `hash_map_resize` of src/core/hash_map.c on whole tables.
use mathlib.Core.Option.{or_else}
use clueless_task_manager.Base.{
  ℕ, ◌<◌, ◌≡◌, ◌≢◌, refl, ◌∙◌, Bool, true, false, none, some, arith, ◌==◌, length, done, Returns,
  replicate, length-replicate, get_or-replicate,
}
use clueless_task_manager.HashMap.Keys.{Key}
use clueless_task_manager.HashMap.{
  Entry, empty, occupied, HashMap, resize, create, fresh, minimum_capacity,
}
use clueless_task_manager.HashMap.Contents.{entry_at, lookup, contents, contents-replicate}
use clueless_task_manager.HashMap.Probe.{IsTable, IsValid, view}
use clueless_task_manager.HashMap.Rehash.{rehash-Moved}

module _ {ℓ} {K V : Type ℓ} ⦃key : Key K⦄ where
  vacant : (n i : ℕ) (k : K) (v : V) → entry_at (replicate n empty) i ≢ occupied k v
  vacant n i k v p = let e = get_or-replicate {A = Entry K V} n i empty in cc

  pub IsTable-replicate : (n : ℕ) → 0 < n → IsTable (replicate {A = Entry K V} n empty) n
  IsTable-replicate n h = record {
    width = length-replicate n empty;
    positive = h;
    unique = λ i j k v w p q. absurd (vacant n i k v p);
    placed = λ i k v p. absurd (vacant n i k v p);
  }

  -- A map that `hash_map_create` returns is valid, and binds no key.
  pub create-IsValid :
      (hash_given compare_given malloc_ok calloc_ok : Bool) (key_size value_size : ℕ)
      {m : HashMap K V}
      → create hash_given compare_given malloc_ok calloc_ok key_size value_size ≡ some m
      → IsValid m × (m.count ≡ 0) × ((q : K) → view m q ≡ none)
  unfolding create lookup contents
  create-IsValid a b c d key_size value_size {m} e =
      let made : m ≡ fresh key_size value_size = ground arith in
      let t = IsTable-replicate minimum_capacity (omega arith) in
      rw made (
        record { table = t; counted = refl; sparse = omega arith; roomy = omega arith },
        refl,
        λ q. refl,
      )

  -- the result `r` of a resize to `c` that succeeds
  pub record Resized (m : HashMap K V) (c : ℕ) (r : Bool × HashMap K V) : Type ℓ where
    pub flag : r.0 ≡ true
    pub capacity : r.1.capacity ≡ c
    pub count : r.1.count ≡ m.count
    pub table : IsTable r.1.entries r.1.capacity
    pub entries : length (contents r.1.entries) ≡ length (contents m.entries)
    pub reads : (q : K) → view r.1 q ≡ view m q

  -- Moving to a larger or smaller table ends, and keeps every binding and the count, if a free
  -- entry is left in it.
  pub resize-Resized :
      (m : HashMap K V) (new_capacity : ℕ)
      → IsTable m.entries m.capacity
      → length (contents m.entries) < new_capacity
      → Returns (resize true m new_capacity) (Resized m new_capacity)
  unfolding resize lookup or_else
  resize-Resized m c t room =
      let nonzero : (c == 0) ≡ false = ground arith in
      let (r, run, mv) =
        rehash-Moved c m.entries (replicate c empty) (IsTable-replicate c (omega arith)) t.unique
          (λ q i j v w _ o. vacant c j q w o) (rw contents-replicate (omega arith)) in
      (
        (true, record m { entries = r; capacity = c }),
        rw (nonzero, run),
        record {
          flag = refl;
          capacity = refl;
          count = refl;
          table = mv.table;
          entries = mv.kept ∙ rw contents-replicate (omega arith);
          reads = λ q. mv.reads q ∙ rw contents-replicate refl;
        },
      )

  -- A failed allocation leaves the map as it was.
  pub resize_failed : (m : HashMap K V) (c : ℕ) → resize false m c ≡ done (false, m)
  unfolding resize
  resize_failed m c = ground arith
