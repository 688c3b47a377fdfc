-- ===== src/HashMap/Remove.antt =====
-- `hash_map_remove` of src/core/hash_map.c against the map that the table stands for.
use clueless_task_manager.Base.{
  ℕ, ◌+◌, ◌-◌, ◌*◌, ◌/◌, ◌<◌, ◌≤◌, ◌≡◌, refl, sym, ◌∙◌, ap, inl, inr, Bool, true, false, Option,
  none, some, arith, if◌then◌else◌, ◌&&◌, leb, ltb, set, Bool-cases, done, ◌>>=◌, Returns,
  Returns-bind,
}
use clueless_task_manager.HashMap.Keys.{Key, same, same_iff}
use clueless_task_manager.HashMap.{
  tombstone, occupied, HashMap, find, remove, resize, minimum_capacity,
}
use clueless_task_manager.HashMap.Contents.{
  entry_at, live, lookup-at, lookup-none, length-contents-set,
}
use clueless_task_manager.HashMap.Probe.{IsValid, view}
use clueless_task_manager.HashMap.Find.{Found, find-Found}
use clueless_task_manager.HashMap.Write.{IsTable-bury, lookup-bury}
use clueless_task_manager.HashMap.Resize.{Resized, resize-Resized, resize_failed}
use clueless_task_manager.HashMap.Put.{present}

abbrev pub is_some {ℓ} : {V : Type ℓ} → Option V → Bool
is_some none = false
is_some (some v) = true

module _ {ℓ} {K V : Type ℓ} ⦃key : Key K⦄ where
  -- the result `r` of `hash_map_remove`
  pub record Removes (m : HashMap K V) (k : K) (r : Bool × HashMap K V) : Type ℓ where
    pub flag : r.0 ≡ is_some (view m k)
    pub valid : IsValid r.1
    pub counted : r.1.count + present (view m k) ≡ m.count
    pub reads : (q : K) → view r.1 q ≡ (if same q k then none else view m q)

  module _ {m : HashMap K V} (valid : IsValid m) (k : K) {i : ℕ} {v : V}
      (held : entry_at m.entries i ≡ occupied k v) (lt : i < m.capacity) where
    buried : HashMap K V
    buried = record m { entries = set m.entries i tombstone; count = m.count - 1 }

    found : view m k ≡ some v
    found = lookup-at m.entries k v i valid.table.unique held

    found_one : present (view m k) ≡ 1
    found_one = rw found

    -- the map behind the deletion, before a resize
    buried-Removes : Removes m k (true, buried)
    unfolding buried
    buried-Removes =
        let t = valid.table in
        let size = length-contents-set m.entries i tombstone (omega (arith, t.width)) in
        let one = ap live held in
        record {
          flag = rw found;
          valid = record {
            table = IsTable-bury t i lt;
            counted = omega (arith, valid.counted);
            sparse = omega (arith, valid.sparse);
            roomy = valid.roomy;
          };
          counted = rw found (omega (arith, valid.counted));
          reads = lookup-bury t i lt held;
        }

    -- A resize behind it, whether it succeeds or not, changes no lookup.
    Resized-Removes :
        (c : ℕ) (s : Bool × HashMap K V)
        → Resized buried c s
        → minimum_capacity ≤ c
        → m.count ≤ c
        → Removes m k (true, s.1)
    Resized-Removes c s z roomy room =
        let b = buried-Removes in
        record {
          flag = b.flag;
          valid = record {
            table = z.table;
            counted = z.entries ∙ b.valid.counted ∙ sym z.count;
            sparse = let one = found_one in omega (arith, z.count, z.capacity, b.counted);
            roomy = omega (arith, z.capacity);
          };
          counted = omega (arith, z.count, b.counted);
          reads = λ q. z.reads q ∙ b.reads q;
        }

    shrunk : ℕ
    shrunk = if ltb (m.capacity / 2) minimum_capacity then minimum_capacity else m.capacity / 2

    shrunk_bounds :
        leb (4 * (m.count - 1)) m.capacity ≡ true → (minimum_capacity ≤ shrunk) × (m.count ≤ shrunk)
    unfolding shrunk
    shrunk_bounds h = let r = valid.roomy in ground arith

    remove-resized :
        (calloc_ok : Bool)
        → leb (4 * (m.count - 1)) m.capacity ≡ true
        → Returns (resize calloc_ok buried shrunk >>= λ s. done (true, s.1)) (Removes m k)
    remove-resized false h = rw resize_failed ((true, buried), refl, buried-Removes)
    remove-resized true h =
        let (roomy, room) = shrunk_bounds h in
        let b = buried-Removes in
        Returns-bind (resize true buried shrunk) _
          (resize-Resized buried shrunk b.valid.table
            (omega (arith, b.valid.counted, b.counted, found_one)))
          (λ s z. ((true, s.1), refl, Resized-Removes shrunk s z roomy room))

  absent-Removes : {m : HashMap K V} (k : K) → IsValid m → view m k ≡ none → Removes m k (false, m)
  absent-Removes {m} k valid e = record {
    flag = rw e;
    valid = valid;
    counted = rw e (omega arith);
    reads = λ q. elim (Bool-cases (same q k)) [
      | inl hit ↦ rw (hit, (same_iff q k).0 hit, e)
      | inr miss ↦ rw miss
    ];
  }

  remove-Found :
      (calloc_ok : Bool) {m : HashMap K V} (valid : IsValid m) (k : K) (r : Option (ℕ × V))
      → find m k ≡ done r
      → Found valid.table k r
      → Returns (remove calloc_ok m k) (Removes m k)
  unfolding remove buried shrunk
  remove-Found calloc_ok {m} valid k none run absent =
      rw run ((false, m), refl, absent-Removes k valid (lookup-none m.entries k absent))
  remove-Found calloc_ok {m} valid k (some (i, v)) run (held, lt) =
      let test =
        ltb minimum_capacity m.capacity
        && ltb 0 (m.count - 1)
        && leb (4 * (m.count - 1)) m.capacity in
      elim (Bool-cases test) [
        | inl small ↦
            let quarter : leb (4 * (m.count - 1)) m.capacity ≡ true = ground arith in
            rw (run, small) (remove-resized valid k held lt calloc_ok quarter)
        | inr large ↦
            rw (run, large) ((true, buried valid k held lt), refl, buried-Removes valid k held lt)
      ]

  -- `hash_map_remove` ends, and reports whether the key was bound; afterwards the key is unbound,
  -- every other key has the value that it had, the count has fallen by one exactly if the key was
  -- bound, and the invariant holds. A failed resize behind the deletion does not matter.
  pub remove-Removes :
      (calloc_ok : Bool) {m : HashMap K V} (k : K)
      → IsValid m
      → Returns (remove calloc_ok m k) (Removes m k)
  remove-Removes calloc_ok k valid =
      let (r, run, found) = find-Found valid k in remove-Found calloc_ok valid k r run found
