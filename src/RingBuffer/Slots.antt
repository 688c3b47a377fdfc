-- ===== src/RingBuffer/Slots.antt =====
-- Where the samples of src/core/ring_buffer.c lie, and what one capture does to each of them.
use native.Mathlib.Nat.{mod-eq_of_lt, mod-eq-sub-mod}
use clueless_task_manager.Base.{
  ℕ, suc, ◌+◌, ◌-◌, ◌*◌, ◌%◌, ◌≤◌, ◌<◌, ◌≡◌, ◌≢◌, sym, ◌∙◌, ap, none, some, List, arith, length,
  dec_lt, ltb, if◌then◌else◌, lt→ltb,
}
use clueless_task_manager.RingBuffer.{RingBuffer, push, peek, peek_item, store_item, load_item}
use clueless_task_manager.RingBuffer.Bytes.{
  load_item-store_self, load_item-store_before, load_item-store_after,
}
use clueless_task_manager.RingBuffer.Invariant.{
  IsValid, slot, slot-lt, slot_in, peek-slot, advance_in_bounds, push-IsValid,
}

pub peek_item-slot :
    {r : RingBuffer} (offset : ℕ)
    → IsValid r
    → offset < r.count
    → peek_item r offset ≡ some (load_item r.buffer (slot r offset * r.item_size) r.item_size)
unfolding peek_item
peek_item-slot {r} offset v h = rw (peek-slot offset v h, peek_item)

peek-none : (r : RingBuffer) (offset : ℕ) → r.count ≤ offset → peek r offset ≡ none
unfolding peek
peek-none r offset h = ground arith

pub peek_item-none : (r : RingBuffer) (offset : ℕ) → r.count ≤ offset → peek_item r offset ≡ none
unfolding peek_item
peek_item-none r offset h = rw (peek-none r offset h, peek_item)

-- A write to one slot leaves the others.
load_item-store_ne :
    (bytes item : List ℕ) (i j capacity size : ℕ)
    → length item ≡ size
    → length bytes ≡ capacity * size
    → i < capacity
    → j < capacity
    → i ≢ j
    → load_item (store_item bytes (i * size) item) (j * size) size ≡ load_item bytes (j * size) size
load_item-store_ne bytes item i j capacity size e l hi hj ne =
    let inside : i * size + length item ≤ length bytes =
      omega (arith, slot_in i capacity size hi) in
    elim (dec_lt i j) [
      | yes p ↦
          load_item-store_after bytes item (i * size) inside (j * size) size
            (omega (arith, slot_in i j size p))
      | no p ↦
          load_item-store_before bytes item (i * size) inside (j * size) size
            (omega (arith, slot_in j i size (omega arith)))
    ]

-- the fields behind one capture
pub push_fields :
    {r : RingBuffer} (item : List ℕ)
    → IsValid r
    → ((push r item).capacity ≡ r.capacity)
      × ((push r item).item_size ≡ r.item_size)
      × ((push r item).count ≡ (if ltb r.count r.capacity then r.count + 1 else r.count))
      × ((push r item).head ≡ (if ltb 0 r.count then (r.head + 1) % r.capacity else r.head))
      × ((push r item).buffer ≡ store_item r.buffer ((push r item).head * r.item_size) item)
unfolding push
push_fields {r} item v = ground (arith, advance_in_bounds v)

-- going `k` places back round `c` places
back : (h c k : ℕ) → h < c → k < c → (h + c - k) % c ≡ (if ltb h k then h + c - k else h - k)
back h c k p q = elim (dec_lt h k) [
  | yes less ↦ ground (arith, mod-eq_of_lt {n = h + c - k} {m = c} (omega arith))
  | no more ↦ ground (
    arith,
    mod-eq-sub-mod {n = h + c - k} {m = c} (omega arith),
    mod-eq_of_lt {n = h - k} {m = c} (omega arith),
  )
]

next : (h c : ℕ) → h < c → (h + 1) % c ≡ (if ltb (h + 1) c then h + 1 else 0)
next h c p = elim (dec_lt (h + 1) c) [
  | yes less ↦ ground (arith, mod-eq_of_lt {n = h + 1} {m = c} (omega arith))
  | no more ↦ ground (
    arith,
    mod-eq-sub-mod {n = h + 1} {m = c} (omega arith),
    mod-eq_of_lt {n = h + 1 - c} {m = c} (omega arith),
  )
]

back-next :
    (h c k : ℕ)
    → h < c
    → suc k < c
    → (((h + 1) % c + c - suc k) % c ≡ (h + c - k) % c) × ((h + 1) % c ≢ (h + c - k) % c)
back-next h c k p q = ground (
  arith,
  next h c p,
  back h c k p (omega arith),
  back ((h + 1) % c) c (suc k) (omega (arith, next h c p)) q,
)

-- An older sample moves one place, and its slot does not move.
slot-push :
    {r : RingBuffer} (item : List ℕ) (k : ℕ)
    → IsValid r
    → suc k < r.capacity
    → k < r.count
    → (slot (push r item) (suc k) ≡ slot r k) × ((push r item).head ≢ slot r k)
slot-push {r} item k v h c = ground (arith, push_fields item v, back-next r.head r.capacity k)

slot-zero : {r : RingBuffer} → IsValid r → slot r 0 ≡ r.head
slot-zero {r} v = ground (arith, back r.head r.capacity 0)

load_item-store_eq :
    (bytes item : List ℕ) (at size : ℕ)
    → length item ≡ size
    → at + size ≤ length bytes
    → load_item (store_item bytes at item) at size ≡ item
load_item-store_eq bytes item at size e h =
    rw (← e) (load_item-store_self bytes item at (omega arith))

module _ {r : RingBuffer} (item : List ℕ) (v : IsValid r) (sized : length item ≡ r.item_size) where
  w : IsValid (push r item)
  w = push-IsValid item v sized

  -- The slot under the head holds what was just captured.
  pub peek_item-push-zero : peek_item (push r item) 0 ≡ some item
  peek_item-push-zero =
      let (c, s, n, hd, b) = push_fields item v in
      let inside : (push r item).head * r.item_size + r.item_size ≤ length r.buffer = omega (
        arith,
        v.storage,
        slot_in (push r item).head r.capacity r.item_size (omega (arith, w.head_in)),
      ) in
      peek_item-slot 0 w (ground arith)
      ∙ ap some
          (rw (slot-zero w, b, s) (load_item-store_eq r.buffer item _ r.item_size sized inside))

  -- Every other sample is one place older, and the oldest one is gone from a full buffer.
  pub peek_item-push-suc :
      (k : ℕ)
      → peek_item (push r item) (suc k) ≡ (if ltb (suc k) r.capacity then peek_item r k else none)
  peek_item-push-suc k = elim (dec_lt (suc k) (push r item).count) [
    | yes p ↦
        let (c, s, n, hd, b) = push_fields item v in
        let lt : suc k < r.capacity = omega (arith, w.count_in) in
        let kc : k < r.count = ground arith in
        let (same, ne) = slot-push item k v lt kc in
        rw (lt→ltb _ _ lt) (
          peek_item-slot (suc k) w p
          ∙ ap some (
              rw (same, b, s)
                (load_item-store_ne r.buffer item _ _ r.capacity r.item_size sized v.storage
                  (omega (arith, w.head_in)) (slot-lt k v) ne))
          ∙ sym (peek_item-slot k v kc))
    | no p ↦
        let (c, s, n, hd, b) = push_fields item v in
        rw (peek_item-none (push r item) (suc k) (omega arith)) (ground (arith, peek_item-none r k))
  ]
