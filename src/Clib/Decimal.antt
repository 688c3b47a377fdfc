-- ===== src/Clib/Decimal.antt =====
-- Numbers as the kernel prints them into the files of /proc, and how `strtoul` reads them back.
use mathlib.Core.List.{append_assoc}
use clueless_task_manager.Base.{
  ℕ, zero, suc, ◌+◌, ◌-◌, ◌*◌, ◌/◌, ◌%◌, ◌<◌, ◌^◌, ◌≡◌, refl, ◌∙◌, ap, Bool, true, false, ◌&&◌, ltb,
  if◌then◌else◌, some, List, [], ◌∷◌, ◌++◌, arith, Bool-cases, inl, inr,
}
use clueless_task_manager.Clib.{
  is_digit, is_space, skip_space, read_digits, starts_digit, read_sign, read_number, strtoul,
}

-- The digits of a number, on fuel above it.
unfoldable pub digits_from : ℕ → ℕ → List ℕ
digits_from zero n = []
digits_from (suc f) n =
    let rest = digits_from f (n / 10) in
    if ltb n 10 then (n + b'0') ∷ [] else rest ++ (n % 10 + b'0') ∷ []

unfoldable pub digits : ℕ → List ℕ
unfolding digits_from
digits n = digits_from (suc n) n

unfoldable pub all_digits : List ℕ → Bool
all_digits [] = true
all_digits (c ∷ s) = is_digit c && all_digits s

value : ℕ → List ℕ → ℕ
value acc [] = acc
value acc (c ∷ s) = value (acc * 10 + (c - b'0')) s

value-append :
    (acc : ℕ) (s : List ℕ) (c : ℕ) → value acc (s ++ c ∷ []) ≡ value acc s * 10 + (c - b'0')
unfolding value
value-append acc [] c = refl
value-append acc (x ∷ s) c = value-append (acc * 10 + (x - b'0')) s c

all_digits-append : (s : List ℕ) (c : ℕ) → all_digits (s ++ c ∷ []) ≡ (all_digits s && is_digit c)
unfolding all_digits
all_digits-append [] c = ground arith
all_digits-append (x ∷ s) c = ground (arith, all_digits-append s c)

pub digits_from-all_digits : (f n : ℕ) → all_digits (digits_from f n) ≡ true
unfolding digits_from all_digits is_digit
digits_from-all_digits zero n = refl
digits_from-all_digits (suc f) n = elim (Bool-cases (ltb n 10)) [
  | inl small ↦ rw (small, digits_from) (ground arith)
  | inr large ↦ ground (
    arith,
    digits_from-all_digits f (n / 10),
    all_digits-append (digits_from f (n / 10)) (n % 10 + b'0'),
  )
]

digits_from-value : (f n : ℕ) → n < f → value 0 (digits_from f n) ≡ n
unfolding digits_from value
digits_from-value zero n h = absurd (omega arith)
digits_from-value (suc f) n h = elim (Bool-cases (ltb n 10)) [
  | inl small ↦ ground arith
  | inr large ↦ ground (
    arith,
    digits_from-value f (n / 10) (ground arith),
    value-append 0 (digits_from f (n / 10)) (n % 10 + b'0'),
  )
]

read_digits-value :
    (acc : ℕ) (s rest : List ℕ)
    → all_digits s ≡ true
    → starts_digit rest ≡ false
    → read_digits acc (s ++ rest) ≡ (value acc s, rest)
unfolding read_digits all_digits starts_digit value
read_digits-value acc [] [] h e = refl
read_digits-value acc [] (c ∷ rest) h e = ground arith
read_digits-value acc (c ∷ s) rest h e =
    ground (arith, read_digits-value (acc * 10 + (c - b'0')) s rest)

-- A printed number begins with a digit.
pub digits_from-starts :
    (f n : ℕ) (rest : List ℕ) → starts_digit (digits_from (suc f) n ++ rest) ≡ true
unfolding digits_from starts_digit is_digit
digits_from-starts zero n rest = elim (Bool-cases (ltb n 10)) [
  | inl small ↦ ground arith
  | inr large ↦ ground arith
]
digits_from-starts (suc f) n rest = elim (Bool-cases (ltb n 10)) [
  | inl small ↦ ground arith
  | inr large ↦
      let last = n % 10 + b'0' in
      rw large (
        rw (append_assoc (digits_from (suc f) (n / 10)) (last ∷ []) rest)
          (digits_from-starts f (n / 10) (last ∷ rest)))
]

pub digits-all_digits : (n : ℕ) → all_digits (digits n) ≡ true
unfolding digits
digits-all_digits n = digits_from-all_digits (suc n) n

pub digits-starts : (n : ℕ) (rest : List ℕ) → starts_digit (digits n ++ rest) ≡ true
unfolding digits
digits-starts n rest = digits_from-starts n n rest

pub read_digits-digits :
    (n : ℕ) (rest : List ℕ)
    → starts_digit rest ≡ false
    → read_digits 0 (digits n ++ rest) ≡ (n, rest)
unfolding digits
read_digits-digits n rest e =
    read_digits-value 0 (digits_from (suc n) n) rest (digits_from-all_digits (suc n) n) e
    ∙ ap (λ v. (v, rest)) (digits_from-value (suc n) n (omega arith))

-- White space and a sign are passed over where a digit comes first.
digit_first : (s : List ℕ) → starts_digit s ≡ true → (skip_space s ≡ s) × (read_sign s ≡ (false, s))
unfolding starts_digit skip_space read_sign is_digit is_space
digit_first [] h = ground arith
digit_first (c ∷ s) h = (ground arith, ground arith)

-- A printed number is read back, behind one blank or none, and where no digit follows it.
pub read_number-digits :
    (n : ℕ) (rest : List ℕ)
    → starts_digit rest ≡ false
    → read_number (digits n ++ rest) ≡ some (false, n, rest)
unfolding read_number
read_number-digits n rest e =
    let (a, b) = digit_first (digits n ++ rest) (digits-starts n rest) in
    rw (a, b, digits-starts n rest, read_digits-digits n rest e)

-- the same behind one blank
pub read_number-blank : (s : List ℕ) → read_number (b' ' ∷ s) ≡ read_number s
unfolding read_number skip_space is_space
read_number-blank s = refl

strtoul_number :
    (s rest : List ℕ) (n : ℕ)
    → read_number s ≡ some (false, n, rest)
    → n < 2 ^ 64
    → strtoul s ≡ (n, rest)
unfolding strtoul
strtoul_number s rest n read fits = ground arith

pub strtoul-digits :
    (n : ℕ) (rest : List ℕ)
    → n < 2 ^ 64
    → starts_digit rest ≡ false
    → strtoul (digits n ++ rest) ≡ (n, rest)
strtoul-digits n rest fits e =
    strtoul_number (digits n ++ rest) rest n (read_number-digits n rest e) fits

pub strtoul-blank :
    (n : ℕ) (rest : List ℕ)
    → n < 2 ^ 64
    → starts_digit rest ≡ false
    → strtoul (b' ' ∷ (digits n ++ rest)) ≡ (n, rest)
strtoul-blank n rest fits e =
    strtoul_number (b' ' ∷ (digits n ++ rest)) rest n
      (read_number-blank (digits n ++ rest) ∙ read_number-digits n rest e) fits

-- numbers with a blank before each, and what follows them
unfoldable pub print_all : List ℕ → List ℕ → List ℕ
print_all [] rest = rest
print_all (n ∷ ns) rest = b' ' ∷ (digits n ++ print_all ns rest)

pub starts_digit-print_all :
    (ns rest : List ℕ) → starts_digit rest ≡ false → starts_digit (print_all ns rest) ≡ false
unfolding print_all starts_digit is_digit
starts_digit-print_all [] rest e = e
starts_digit-print_all (n ∷ ns) rest e = refl

-- the first of them, read by `strtoul`
pub strtoul-print_all :
    (n : ℕ) (ns rest : List ℕ)
    → n < 2 ^ 64
    → starts_digit rest ≡ false
    → strtoul (print_all (n ∷ ns) rest) ≡ (n, print_all ns rest)
unfolding print_all
strtoul-print_all n ns rest fits e =
    strtoul-blank n (print_all ns rest) fits (starts_digit-print_all ns rest e)

pub print_all-append :
    (ns rest more : List ℕ) → print_all ns rest ++ more ≡ print_all ns (rest ++ more)
unfolding print_all
print_all-append [] rest more = refl
print_all-append (n ∷ ns) rest more =
    ap (λ s. b' ' ∷ s)
      (append_assoc (digits n) (print_all ns rest) more
        ∙ ap (λ s. digits n ++ s) (print_all-append ns rest more))
