-- ===== src/RingBuffer/Tests.antt =====
-- src/core/ring_buffer.c with three slots of two bytes.
use mathlib.Core.List.{reverse_aux}
use clueless_task_manager.Base.{ℕ, zero, suc, ◌≡◌, refl, List, [], ◌∷◌, take, get_elem?, arith}
use clueless_task_manager.RingBuffer.{RingBuffer, alloc, peek, peek_item, load_item}
use clueless_task_manager.RingBuffer.Invariant.{IsValid}
use clueless_task_manager.RingBuffer.History.{push_all, captures-latest, Models}

abbrev three_slots : RingBuffer
three_slots = record {
  capacity = 3;
  count = 0;
  buffer = 0 ∷ 0 ∷ 0 ∷ 0 ∷ 0 ∷ 0 ∷ [];
  item_size = 2;
  head = 0;
}

-- one more than fits
abbrev four_samples : List (List ℕ)
four_samples = (1 ∷ 2 ∷ []) ∷ (3 ∷ 4 ∷ []) ∷ (5 ∷ 6 ∷ []) ∷ (7 ∷ 8 ∷ []) ∷ []

captures-latest_example :
    peek_item (push_all three_slots four_samples) 2
    ≡ get_elem? (take 3 (reverse_aux four_samples [])) 2
unfolding alloc
captures-latest_example =
    captures-latest 3 2 four_samples {r = three_slots} (omega arith) (omega arith) (omega arith)
      refl (refl, (refl, (refl, (refl, tt)))) 2

-- a buffer that is full and has wrapped
abbrev wrapped : RingBuffer
wrapped = record {
  capacity = 3;
  count = 3;
  buffer = 7 ∷ 8 ∷ 3 ∷ 4 ∷ 5 ∷ 6 ∷ [];
  item_size = 2;
  head = 0;
}

wrapped-IsValid : IsValid wrapped
wrapped-IsValid = record {
  positive = omega arith;
  small = omega arith;
  bytes = omega arith;
  storage = refl;
  head_in = omega arith;
  count_in = omega arith;
}

abbrev wrapped_samples : List (List ℕ)
wrapped_samples = (7 ∷ 8 ∷ []) ∷ (5 ∷ 6 ∷ []) ∷ (3 ∷ 4 ∷ []) ∷ []

wrapped-reads : (k : ℕ) → peek_item wrapped k ≡ get_elem? wrapped_samples k
unfolding peek_item peek load_item
wrapped-reads zero = refl
wrapped-reads (suc zero) = refl
wrapped-reads (suc (suc zero)) = refl
wrapped-reads (suc (suc (suc k))) = ground arith

wrapped-Models : Models wrapped wrapped_samples
wrapped-Models = record { valid = wrapped-IsValid; counted = refl; reads = wrapped-reads }
