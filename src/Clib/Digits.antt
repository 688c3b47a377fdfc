-- ===== src/Clib/Digits.antt =====
-- How many digits a printed number has, and what dividing it by ten leaves of them.
use clueless_task_manager.Base.{
  ℕ, zero, suc, ◌+◌, ◌*◌, dec_lt, ◌/◌, ◌%◌, ◌<◌, ◌≤◌, ◌≡◌, refl, ap, false, [], ◌∷◌, ◌++◌, ltb,
  length, length-append, arith, Bool-cases, inl, inr,
}
use clueless_task_manager.Clib.Decimal.{digits, digits_from}

-- Fuel above the number is enough.
digits_from-fuel : (f g n : ℕ) → n < f → n < g → digits_from f n ≡ digits_from g n
unfolding digits_from
digits_from-fuel zero g n h h' = absurd (omega arith)
digits_from-fuel (suc f) zero n h h' = absurd (omega arith)
digits_from-fuel (suc f) (suc g) n h h' = elim (Bool-cases (ltb n 10)) [
  | inl small ↦ rw small refl
  | inr large ↦
      let less : n / 10 < n = ground arith in
      rw large (
        ap (λ s. s ++ (n % 10 + b'0') ∷ [])
          (digits_from-fuel f g (n / 10) (omega arith) (omega arith)))
]

pub digits_small : (n : ℕ) → n < 10 → digits n ≡ (n + b'0') ∷ []
unfolding digits digits_from
digits_small n h = ground arith

pub digits_large : (n : ℕ) → 10 ≤ n → digits n ≡ digits (n / 10) ++ (n % 10 + b'0') ∷ []
unfolding digits digits_from
digits_large n h =
    let large : ltb n 10 ≡ false = ground arith in
    rw large (
      ap (λ s. s ++ (n % 10 + b'0') ∷ [])
        (digits_from-fuel n (suc (n / 10)) (n / 10) (omega arith) (omega arith)))

length-digits_small : (n : ℕ) → n < 10 → length (digits n) ≡ 1
length-digits_small n h = rw (digits_small n h) refl

length-digits_large : (n : ℕ) → 10 ≤ n → length (digits n) ≡ length (digits (n / 10)) + 1
length-digits_large n h =
    omega
      (arith, ap length (digits_large n h), length-append (digits (n / 10)) ((n % 10 + b'0') ∷ []))

abbrev pub ten_to : ℕ → ℕ
ten_to zero = 1
ten_to (suc k) = 10 * ten_to k

ten_to_positive : (k : ℕ) → 1 ≤ ten_to k
ten_to_positive zero = omega arith
ten_to_positive (suc k) = omega (arith, ten_to_positive k)

pub length-digits_below : (k n : ℕ) → n < ten_to (suc k) → length (digits n) ≤ suc k
length-digits_below zero n h = omega (arith, length-digits_small n)
length-digits_below (suc k) n h = elim (dec_lt n 10) [
  | yes small ↦ omega (arith, length-digits_small n small)
  | no large ↦
      omega
        (arith, length-digits_large n (omega arith), length-digits_below k (n / 10) (omega arith))
]

pub length-digits_above : (k n : ℕ) → ten_to k ≤ n → suc k ≤ length (digits n)
length-digits_above zero n h = elim (dec_lt n 10) [
  | yes small ↦ omega (arith, length-digits_small n small)
  | no large ↦ omega (arith, length-digits_large n (omega arith))
]
length-digits_above (suc k) n h =
    let positive = ten_to_positive k in
    omega (arith, length-digits_large n (omega arith), length-digits_above k (n / 10) (omega arith))
