-- ===== src/RingBuffer/Invariant.antt =====
-- The representation invariant of `struct ring_buffer`: no index out of range, no wrap.
use clueless_task_manager.Base.{
  ℕ, ◌+◌, ◌-◌, ◌*◌, ◌%◌, ◌^◌, ◌≤◌, ◌<◌, ◌≡◌, true, some, List, arith, length, length-replicate, ◌∙◌,
}
use clueless_task_manager.RingBuffer.{RingBuffer, alloc, advance, push, peek}
use clueless_task_manager.RingBuffer.Bytes.{length-store_item}

pub record IsValid (r : RingBuffer) : Type 0 where
  pub positive : 0 < r.capacity
  pub small : r.capacity ≤ 2 ^ 63
  pub bytes : r.capacity * r.item_size < 2 ^ 64
  pub storage : length r.buffer ≡ r.capacity * r.item_size
  pub head_in : r.head < r.capacity
  pub count_in : r.count ≤ r.capacity

-- A slot below the capacity lies inside the buffer.
pub slot_in : (i capacity size : ℕ) → i < capacity → i * size + size ≤ capacity * size
slot_in i capacity size h = grind arith

-- A buffer that `ring_buffer_alloc` returns is valid and empty, if its size is representable.
pub alloc-IsValid :
    (capacity item_size : ℕ) {r : RingBuffer}
    → 0 < capacity
    → capacity ≤ 2 ^ 63
    → capacity * item_size < 2 ^ 64
    → alloc true true capacity item_size ≡ some r
    → IsValid r × (r.count ≡ 0) × (r.capacity ≡ capacity) × (r.item_size ≡ item_size)
unfolding alloc
alloc-IsValid capacity item_size {r} pos small bytes e =
    ground (arith, length-replicate {A = ℕ} (capacity * item_size) 0)

pub advance-IsValid : {r : RingBuffer} → IsValid r → IsValid (advance r).0
unfolding advance
advance-IsValid {r} v = ground arith

-- The slot that `ring_buffer_advance` returns lies inside the buffer.
pub advance_in_bounds :
    {r : RingBuffer}
    → IsValid r
    → ((advance r).1 ≡ (advance r).0.head * r.item_size)
      × ((advance r).1 + r.item_size ≤ length r.buffer)
unfolding advance
advance_in_bounds {r} v = ground (
  arith,
  slot_in r.head r.capacity r.item_size,
  slot_in ((r.head + 1) % r.capacity) r.capacity r.item_size,
)

pub advance_fields :
    (r : RingBuffer)
    → ((advance r).0.capacity ≡ r.capacity)
      × ((advance r).0.item_size ≡ r.item_size)
      × ((advance r).0.buffer ≡ r.buffer)
unfolding advance
advance_fields r = ground arith

-- The slot of the sample that is `offset` samples old.
abbrev pub slot : RingBuffer → ℕ → ℕ
slot r offset = (r.head + r.capacity - offset) % r.capacity

pub slot-lt : {r : RingBuffer} (offset : ℕ) → IsValid r → slot r offset < r.capacity
slot-lt offset v = grind arith

-- `ring_buffer_peek` computes the slot with no wrap.
pub peek-slot :
    {r : RingBuffer} (offset : ℕ)
    → IsValid r
    → offset < r.count
    → peek r offset ≡ some (slot r offset * r.item_size)
unfolding peek
peek-slot {r} offset v h =
    ground (arith, slot_in (slot r offset) r.capacity r.item_size, slot-lt offset v)

-- `ring_buffer_peek` returns a pointer to an item inside the buffer.
pub peek_in_bounds :
    {r : RingBuffer} (offset : ℕ) {at : ℕ}
    → IsValid r
    → peek r offset ≡ some at
    → at + r.item_size ≤ length r.buffer
unfolding peek
peek_in_bounds {r} offset {at} v e =
    ground (arith, slot_in (slot r offset) r.capacity r.item_size, slot-lt offset v)

-- Capturing an item of the declared size keeps the invariant.
pub push-IsValid :
    {r : RingBuffer} (item : List ℕ) → IsValid r → length item ≡ r.item_size → IsValid (push r item)
unfolding push
push-IsValid {r} item v e =
    let (at, inside) = advance_in_bounds v in
    let w = advance-IsValid v in
    record {
      positive = w.positive;
      small = w.small;
      bytes = w.bytes;
      storage = length-store_item r.buffer item (advance r).1 (omega arith) ∙ v.storage;
      head_in = w.head_in;
      count_in = w.count_in;
    }
