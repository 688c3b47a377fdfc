-- ===== src/HashMap/Put.antt =====
-- `hash_map_put` of src/core/hash_map.c against the map that the table stands for.
use mathlib.Core.Bool.{false≢true}
use clueless_task_manager.Base.{
  ℕ, ◌+◌, ◌*◌, ◌<◌, ◌≤◌, ◌≡◌, ◌≢◌, refl, sym, ◌∙◌, ap, inl, inr, Bool, true, false, Option, none,
  some, arith, if◌then◌else◌, leb, length, set, Bool-cases, done, Returns, Returns-bind,
}
use clueless_task_manager.HashMap.Keys.{Key, same}
use clueless_task_manager.HashMap.{
  occupied, HashMap, Scan, matched, stopped, target, store, insert, put, resize, Grants,
  minimum_capacity,
}
use clueless_task_manager.HashMap.Contents.{
  entry_at, contents, live, lookup-at, lookup-none, length-contents-set,
}
use clueless_task_manager.HashMap.Probe.{IsTable, IsValid, view}
use clueless_task_manager.HashMap.Insert.{Ends, put_scan-Ends}
use clueless_task_manager.HashMap.Write.{Slot, IsTable-occupy, lookup-occupy}
use clueless_task_manager.HashMap.Resize.{Resized, resize-Resized}

-- every allocation succeeds
abbrev pub granted : Grants
granted = record { calloc_ok = true; malloc_key = true; malloc_value = true }

abbrev pub present {ℓ} : {V : Type ℓ} → Option V → ℕ
present none = 0
present (some v) = 1

module _ {ℓ} {K V : Type ℓ} ⦃key : Key K⦄ where
  -- the result `r` of writing `v` at `k` in `m`
  pub record Writes (m : HashMap K V) (k : K) (v : V) (r : Bool × HashMap K V) : Type ℓ where
    pub flag : r.0 ≡ true
    pub capacity : r.1.capacity ≡ m.capacity
    pub table : IsTable r.1.entries m.capacity
    pub entries : length (contents r.1.entries) ≡ r.1.count
    pub counted : r.1.count + present (view m k) ≡ m.count + 1
    pub reads : (q : K) → view r.1 q ≡ (if same q k then some v else view m q)

  store_free :
      (m : HashMap K V) (k : K) (v : V) (i : ℕ) (first : Option ℕ)
      → live (entry_at m.entries (target first i)) ≡ 0
      → store granted m k v (stopped i first) ≡ (
        true,
        record m { entries = set m.entries (target first i) (occupied k v); count = m.count + 1 },
      )
  unfolding store
  store_free m k v i first free = ground arith

  module _ (m : HashMap K V) (t : IsTable m.entries m.capacity)
      (counted : length (contents m.entries) ≡ m.count) {k : K} (v : V) where
    -- the entry that holds `k` is a slot for `k`
    matched-Slot :
        (i : ℕ) (lt : i < m.capacity) {w : V} → entry_at m.entries i ≡ occupied k w → Slot t i lt k
    matched-Slot i lt {w} o =
        let (d, round, here, path) = t.placed i k w o in
        record {
          only = λ j x p. t.unique j i k x w p o;
          mine = λ k' x p. cc;
          steps = d;
          round = round;
          here = here;
          path = path;
        }

    pub store-Writes : (s : Scan) → Ends t k s → Writes m k v (store granted m k v s)
    unfolding store
    store-Writes (matched i) (lt, (w, o)) =
        let slot = matched-Slot i lt o in
        let size = length-contents-set m.entries i (occupied k v) (omega (arith, t.width)) in
        let found = lookup-at m.entries k w i t.unique o in
        record {
          flag = refl;
          capacity = refl;
          table = IsTable-occupy t i lt slot v;
          entries = omega (arith, ap live o);
          counted = rw found (omega arith);
          reads = lookup-occupy t i lt slot v;
        }
    store-Writes (stopped i first) (absent, (lt, slot), free) =
        let at = target first i in
        let size = length-contents-set m.entries at (occupied k v) (omega (arith, t.width)) in
        rw (store_free m k v i first free) (record {
          flag = refl;
          capacity = refl;
          table = IsTable-occupy t at lt slot v;
          entries = omega arith;
          counted = rw (lookup-none m.entries k absent) (omega arith);
          reads = lookup-occupy t at lt slot v;
        })

    module _ (room : m.count < m.capacity) (real : k ≢ key.placeholder) where
      insert-Writes : Returns (insert granted m k v) (Writes m k v)
      unfolding insert
      insert-Writes =
          let (s, run, ends) = put_scan-Ends t k (omega arith) real in
          (store granted m k v s, rw run, store-Writes s ends)

  -- the result `r` of `hash_map_put`
  pub record Puts (m : HashMap K V) (k : K) (v : V) (r : Bool × HashMap K V) : Type ℓ where
    pub flag : r.0 ≡ true
    pub valid : IsValid r.1
    pub counted : r.1.count + present (view m k) ≡ m.count + 1
    pub reads : (q : K) → view r.1 q ≡ (if same q k then some v else view m q)

  -- A write in a table that reads as `m` is a write in `m`.
  pub Writes-Puts :
      (m m' : HashMap K V) (k : K) (v : V) {r : Bool × HashMap K V}
      → ((q : K) → view m' q ≡ view m q)
      → m'.count ≡ m.count
      → minimum_capacity ≤ m'.capacity
      → m.count + 1 < m'.capacity
      → Writes m' k v r
      → Puts m k v r
  Writes-Puts m m' k v {r} same_map count roomy sparse w = record {
    flag = w.flag;
    valid = record {
      table = rw w.capacity w.table;
      counted = w.entries;
      sparse = omega (arith, w.counted, w.capacity);
      roomy = omega (arith, w.capacity);
    };
    counted = rw (same_map k) at w.counted ∙ omega arith;
    reads = λ q. w.reads q ∙ ap (λ o. if same q k then some v else o) (same_map q);
  }

  put_grown :
      {m : HashMap K V} (k : K) (v : V) (r : Bool × HashMap K V)
      → IsValid m
      → k ≢ key.placeholder
      → Resized m (m.capacity * 2) r
      → Returns
          (elim r.0 [ false ↦ done (false, r.1) | true ↦ insert granted r.1 k v ])
          (Puts m k v)
  put_grown k v (false, m') valid real z = absurd (false≢true z.flag)
  put_grown {m} k v (true, m') valid real z =
      let (r, run, w) =
        insert-Writes m' z.table (z.entries ∙ valid.counted ∙ sym z.count) v
          (omega (arith, z.count, z.capacity, valid.sparse)) real in
      (
        r,
        run,
        Writes-Puts m m' k v z.reads z.count (omega (arith, z.capacity, valid.roomy))
            (omega (arith, z.capacity, valid.roomy, valid.sparse)) w,
      )

  -- If every allocation succeeds and the key is not the one that TOMBSTONE reads as, `hash_map_put`
  -- ends with success; afterwards the key has the new value, every other key has the value that it
  -- had, the count has grown by one exactly if the key is new, and the invariant holds again.
  pub put-Puts :
      {m : HashMap K V} (k : K) (v : V)
      → IsValid m
      → k ≢ key.placeholder
      → Returns (put granted m k v) (Puts m k v)
  unfolding put
  put-Puts {m} k v valid real = elim (Bool-cases (leb (3 * m.capacity) (4 * m.count))) [
    | inl full ↦ rw full (
        Returns-bind (resize true m (m.capacity * 2)) _
          (resize-Resized m (m.capacity * 2) valid.table
            (omega (arith, valid.counted, valid.sparse)))
          (λ r z. put_grown k v r valid real z))
    | inr sparse ↦
        let (r, run, w) = insert-Writes m valid.table valid.counted v valid.sparse real in
        let room : m.count + 1 < m.capacity = ground (arith, valid.roomy) in
        (r, rw sparse run, Writes-Puts m m k v (λ q. refl) refl valid.roomy room w)
  ]
