-- ===== src/RingBuffer/Bytes.antt =====
-- The bytes of src/core/ring_buffer.c: a write to one slot, seen from each slot.
use mathlib.Core.List.{append-nil}
use clueless_task_manager.Base.{
  ℕ, zero, suc, ◌+◌, ◌-◌, ◌≤◌, ◌≡◌, refl, sym, ap, ◌∙◌, List, [], ◌∷◌, ◌++◌, arith, length, take,
  drop, length-append, length-take, length-drop,
}
use clueless_task_manager.RingBuffer.{store_item, load_item}

module _ {ℓ} {A : Type ℓ} where
  take-length : (xs ys : List A) → take (length xs) (xs ++ ys) ≡ xs
  take-length [] ys = refl
  take-length (x ∷ xs) ys = ap (λ l. x ∷ l) (take-length xs ys)

  drop-length : (xs ys : List A) → drop (length xs) (xs ++ ys) ≡ ys
  drop-length [] ys = refl
  drop-length (x ∷ xs) ys = drop-length xs ys

  -- Reading before the split sees the front alone.
  take-drop-front :
      (n k : ℕ) (xs ys : List A)
      → n + k ≤ length xs
      → take n (drop k (xs ++ ys)) ≡ take n (drop k xs)
  take-drop-front zero k xs ys h = refl
  take-drop-front (suc n) zero [] ys h = absurd (omega arith)
  take-drop-front (suc n) zero (x ∷ xs) ys h =
      ap (λ l. x ∷ l) (take-drop-front n zero xs ys (omega arith))
  take-drop-front (suc n) (suc k) [] ys h = absurd (omega arith)
  take-drop-front (suc n) (suc k) (x ∷ xs) ys h = take-drop-front (suc n) k xs ys (omega arith)

  drop-nil : (n : ℕ) → drop {A = A} n [] ≡ []
  drop-nil zero = refl
  drop-nil (suc n) = refl

  drop-drop : (a b c : ℕ) (xs : List A) → a + b ≡ c → drop b (drop a xs) ≡ drop c xs
  drop-drop zero b c xs e = ap (λ k. drop k xs) (omega arith)
  drop-drop (suc a) b c [] e = rw (drop-nil b, drop-nil c)
  drop-drop (suc a) b zero (x ∷ xs) e = absurd (omega arith)
  drop-drop (suc a) b (suc c) (x ∷ xs) e = drop-drop a b c xs (omega arith)

  take-append-drop : (n : ℕ) (xs : List A) → take n xs ++ drop n xs ≡ xs
  take-append-drop zero xs = refl
  take-append-drop (suc n) [] = refl
  take-append-drop (suc n) (x ∷ xs) = ap (λ l. x ∷ l) (take-append-drop n xs)

module _ (bytes item : List ℕ) (at : ℕ) (fits : at + length item ≤ length bytes) where
  front : List ℕ
  front = take at bytes ++ item

  length-front : length front ≡ at + length item
  unfolding front
  length-front = omega (arith, length-append (take at bytes) item, length-take at bytes)

  -- A slot that was just written reads as the item.
  pub load_item-store_self : load_item (store_item bytes at item) at (length item) ≡ item
  unfolding load_item store_item front
  load_item-store_self =
      let e : length (take at bytes) ≡ at = omega (arith, length-take at bytes) in
      take-drop-front (length item) at front _ (omega (arith, length-front))
      ∙ ap (λ k. take (length item) (drop k front)) (sym e)
      ∙ ap (take (length item)) (drop-length (take at bytes) item)
      ∙ ap (take (length item)) (sym (append-nil item))
      ∙ take-length item []

  -- A slot that ends before the written one reads as before.
  pub load_item-store_before :
      (at' size : ℕ)
      → at' + size ≤ at
      → load_item (store_item bytes at item) at' size ≡ load_item bytes at' size
  unfolding load_item store_item front
  load_item-store_before at' size before =
      take-drop-front size at' front _ (omega (arith, length-front))
      ∙ take-drop-front size at' (take at bytes) item (omega (arith, length-take at bytes))
      ∙ sym (
          take-drop-front size at' (take at bytes) (drop at bytes)
            (omega (arith, length-take at bytes)))
      ∙ ap (λ l. take size (drop at' l)) (take-append-drop at bytes)

  -- A slot that begins behind the written one reads as before.
  pub load_item-store_after :
      (at' size : ℕ)
      → at + length item ≤ at'
      → load_item (store_item bytes at item) at' size ≡ load_item bytes at' size
  unfolding load_item store_item front
  load_item-store_after at' size behind =
      let rest = drop (at + length item) bytes in
      let b = at' - (at + length item) in
      ap (take size) (
        sym (drop-drop (length front) b at' (front ++ rest) (omega (arith, length-front)))
        ∙ ap (drop b) (drop-length front rest)
        ∙ drop-drop (at + length item) b at' bytes (omega arith))

  pub length-store_item : length (store_item bytes at item) ≡ length bytes
  unfolding store_item front
  length-store_item = omega (
    arith,
    length-append front (drop (at + length item) bytes),
    length-front,
    length-drop (at + length item) bytes,
  )
