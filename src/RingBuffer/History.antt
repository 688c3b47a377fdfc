-- ===== src/RingBuffer/History.antt =====
-- src/core/ring_buffer.c refines a bounded history, newest sample first.
use mathlib.Core.List.{reverse_aux}
use clueless_task_manager.Base.{
  ℕ, zero, suc, ◌*◌, ◌^◌, ◌≤◌, ◌<◌, ◌≡◌, refl, sym, ◌∙◌, ap, true, none, some, List, [], ◌∷◌, arith,
  length, take, length-take, get_elem?, ltb, if◌then◌else◌,
}
use clueless_task_manager.RingBuffer.{RingBuffer, push, alloc, peek_item}
use clueless_task_manager.RingBuffer.Invariant.{IsValid, push-IsValid, alloc-IsValid}
use clueless_task_manager.RingBuffer.Slots.{
  peek_item-none, push_fields, peek_item-push-zero, peek_item-push-suc,
}

-- What the buffer promises: the samples captured so far, newest first, at most `capacity` of them.
abbrev pub record_sample : ℕ → List ℕ → List (List ℕ) → List (List ℕ)
record_sample capacity item history = take capacity (item ∷ history)

pub record Models (r : RingBuffer) (history : List (List ℕ)) : Type 0 where
  pub valid : IsValid r
  pub counted : length history ≡ r.count
  pub reads : (k : ℕ) → peek_item r k ≡ get_elem? history k

get_elem?-take {ℓ} :
    {A : Type ℓ} (n k : ℕ) (xs : List A)
    → get_elem? (take n xs) k ≡ (if ltb k n then get_elem? xs k else none)
get_elem?-take zero k xs = ground arith
get_elem?-take (suc n) k [] = ground arith
get_elem?-take (suc n) zero (x ∷ xs) = ground arith
get_elem?-take (suc n) (suc k) (x ∷ xs) = ground (arith, get_elem?-take n k xs)

-- One capture is one step of the bounded history: the new sample is the newest, the others are
-- kept in order, and only the oldest one of a full buffer is lost.
pub push-Models :
    {r : RingBuffer} (history : List (List ℕ)) (item : List ℕ)
    → Models r history
    → length item ≡ r.item_size
    → Models (push r item) (record_sample r.capacity item history)
push-Models {r} history item m sized = record {
  valid = push-IsValid item m.valid sized;
  counted =
      ground (arith, push_fields item m.valid, length-take r.capacity (item ∷ history), m.valid);
  reads = reads;
}
  where
    reads :
        (k : ℕ) → peek_item (push r item) k ≡ get_elem? (record_sample r.capacity item history) k
    reads zero = ground (
      arith,
      peek_item-push-zero item m.valid sized,
      get_elem?-take r.capacity 0 (item ∷ history),
    )
    reads (suc k) = ground (
      arith,
      peek_item-push-suc item m.valid sized k,
      get_elem?-take r.capacity (suc k) (item ∷ history),
      m.reads k,
    )

unfoldable pub push_all : RingBuffer → List (List ℕ) → RingBuffer
push_all r [] = r
push_all r (item ∷ items) = push_all (push r item) items

abbrev pub Sized : ℕ → List (List ℕ) → Type 0
Sized size [] = Unit {0}
Sized size (item ∷ items) = (length item ≡ size) × Sized size items

unfoldable pub record_all : ℕ → List (List ℕ) → List (List ℕ) → List (List ℕ)
record_all capacity history [] = history
record_all capacity history (item ∷ items) =
    record_all capacity (record_sample capacity item history) items

push_all-Models :
    (items : List (List ℕ)) {r : RingBuffer} (history : List (List ℕ))
    → Models r history
    → Sized r.item_size items
    → Models (push_all r items) (record_all r.capacity history items)
unfolding push_all record_all push
push_all-Models [] history m s = m
push_all-Models (item ∷ items) {r} history m s =
    let (c, z, n, hd, b) = push_fields item m.valid in
    rw c at (push_all-Models items _ (push-Models history item m s.0) (rw z s.1))

take-take_le {ℓ} : {A : Type ℓ} (n m : ℕ) (xs : List A) → n ≤ m → take n (take m xs) ≡ take n xs
take-take_le zero m xs h = refl
take-take_le (suc n) zero xs h = absurd (omega arith)
take-take_le (suc n) (suc m) [] h = refl
take-take_le (suc n) (suc m) (x ∷ xs) h = ap (λ l. x ∷ l) (take-take_le n m xs (omega arith))

take-nil {ℓ} : {A : Type ℓ} (n : ℕ) → take {A = A} n [] ≡ []
take-nil zero = refl
take-nil (suc n) = refl

pub take-cons_take {ℓ} :
    {A : Type ℓ} (n : ℕ) (x : A) (xs : List A) → take n (x ∷ take n xs) ≡ take n (x ∷ xs)
take-cons_take zero x xs = refl
take-cons_take (suc n) x xs = ap (λ l. x ∷ l) (take-take_le n (suc n) xs (omega arith))

record_all-reverse :
    (capacity : ℕ) (items history : List (List ℕ))
    → record_all capacity (take capacity history) items ≡ take capacity (reverse_aux items history)
unfolding record_all
record_all-reverse capacity [] history = refl
record_all-reverse capacity (item ∷ items) history =
    rw (take-cons_take capacity item history) (record_all-reverse capacity items (item ∷ history))

pub fresh-Models :
    (capacity item_size : ℕ) {r : RingBuffer}
    → 0 < capacity
    → capacity ≤ 2 ^ 63
    → capacity * item_size < 2 ^ 64
    → alloc true true capacity item_size ≡ some r
    → Models r [] × (r.capacity ≡ capacity) × (r.item_size ≡ item_size)
fresh-Models capacity item_size {r} pos small bytes e =
    let (v, n, c, z) = alloc-IsValid capacity item_size pos small bytes e in
    (record { valid = v; counted = sym n; reads = λ k. peek_item-none r k (omega arith) }, c, z)

-- After any captures into a fresh buffer, `ring_buffer_peek` at offset `k` reads the sample captured
-- `k` captures before the last, for the newest `capacity` samples, and `NULL` behind them.
pub captures-latest :
    (capacity item_size : ℕ) (items : List (List ℕ)) {r : RingBuffer}
    → 0 < capacity
    → capacity ≤ 2 ^ 63
    → capacity * item_size < 2 ^ 64
    → alloc true true capacity item_size ≡ some r
    → Sized item_size items
    → (k : ℕ) → peek_item (push_all r items) k ≡ get_elem? (take capacity (reverse_aux items [])) k
captures-latest capacity item_size items {r} pos small bytes e s k =
    let (fresh, c, z) = fresh-Models capacity item_size pos small bytes e in
    let m = push_all-Models items [] fresh (rw z s) in
    m.reads k
    ∙ ap (λ h. get_elem? h k)
        (ap (λ h. record_all r.capacity h items) (sym (take-nil r.capacity))
          ∙ record_all-reverse r.capacity items []
          ∙ ap (λ c. take c (reverse_aux items [])) c)
