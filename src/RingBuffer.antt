-- ===== src/RingBuffer.antt =====
-- src/core/ring_buffer.c: the circular buffer of fixed-size samples.
-- A pointer into `buffer` is the byte offset from its start.
pub mod Bytes
pub mod Invariant
pub mod Slots
pub mod History
mod Tests
use clueless_task_manager.Base.{
  ℕ, ◌+◌, ◌*◌, ◌%◌, Bool, Option, none, some, List, ◌++◌, ltb, leb, if◌then◌else◌, take, drop,
  replicate, length, add_size, sub_size, mul_size,
}

-- `struct ring_buffer`; a byte is any number, since bytes are only moved.
pub record RingBuffer : Type 0 where
  pub capacity : ℕ
  pub count : ℕ
  pub buffer : List ℕ
  pub item_size : ℕ
  pub head : ℕ

-- `ring_buffer_alloc`: the flags say whether `malloc` and `calloc` succeed. `none` is `NULL`.
unfoldable pub alloc : Bool → Bool → ℕ → ℕ → Option RingBuffer
alloc malloc_ok calloc_ok capacity item_size =
    if malloc_ok
    then (if calloc_ok
        then some (record {
          capacity = capacity;
          count = 0;
          buffer = replicate (capacity * item_size) 0;
          item_size = item_size;
          head = 0;
        })
        else none)
    else none

-- `ring_buffer_advance`: the new state and the byte offset of the slot to fill.
unfoldable pub advance : RingBuffer → RingBuffer × ℕ
advance r =
    let head' = if ltb 0 r.count then add_size r.head 1 % r.capacity else r.head in
    let count' = if ltb r.count r.capacity then add_size r.count 1 else r.count in
    (record r { head = head'; count = count' }, mul_size head' r.item_size)

-- `ring_buffer_peek`: the byte offset of the sample; `none` is `NULL` with `errno` at `EINVAL`.
pub peek : RingBuffer → ℕ → Option ℕ
peek r offset =
    if leb r.count offset
    then none
    else some (mul_size (sub_size (add_size r.head r.capacity) offset % r.capacity) r.item_size)

-- `ring_buffer_get_capacity`; `none` is the argument `NULL`, for which `errno` is set.
pub get_capacity : Option RingBuffer → ℕ
get_capacity none = 0
get_capacity (some r) = r.capacity

-- What a caller does with the pointers: fill a slot with the bytes of an item, read an item.
unfoldable pub store_item : List ℕ → ℕ → List ℕ → List ℕ
store_item bytes at item = take at bytes ++ item ++ drop (at + length item) bytes

unfoldable pub load_item : List ℕ → ℕ → ℕ → List ℕ
load_item bytes at size = take size (drop at bytes)

-- One sample, captured into the slot that `ring_buffer_advance` returns.
unfoldable pub push : RingBuffer → List ℕ → RingBuffer
unfolding advance
push r item = let (r', slot) = advance r in record r' { buffer = store_item r'.buffer slot item }

-- The item behind the pointer that `ring_buffer_peek` returns.
pub peek_item : RingBuffer → ℕ → Option (List ℕ)
peek_item r offset = elim (peek r offset) [
  | none ↦ none
  | some at ↦ some (load_item r.buffer at r.item_size)
]
