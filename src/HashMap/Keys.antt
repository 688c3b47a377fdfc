-- ===== src/HashMap/Keys.antt =====
-- include/core/hash_map.h: what `HashFunc` and `CompareFunc` promise, and the pair for `int` keys
-- of src/core/hash_map.c.
use clueless_task_manager.Base.{
  ℕ, ◌+◌, ◌-◌, ◌%◌, ◌≡◌, ◌↔◌, refl, Bool, true, ◌&&◌, arith, if◌then◌else◌, ℤ, pos, negsuc,
  pos_part, neg_part, is_zero, int_leb, word_mod, mul_size,
}

-- `compare_func` returns 0 exactly for equal keys. `placeholder` is the key that the bytes at
-- TOMBSTONE read as, when the code hashes or compares that pointer.
pub record Key {ℓ} (K : Type ℓ) : Type ℓ where
  pub hash_func : K → ℕ
  pub compare_func : K → K → ℤ
  pub placeholder : K
  pub compare_iff : (a b : K) → (compare_func a b ≡ pos 0) ↔ (a ≡ b)

is_zero_iff : (z : ℤ) → (is_zero z ≡ true) ↔ (z ≡ pos 0)
is_zero_iff (pos n) = ground arith
is_zero_iff (negsuc n) = ground arith

module _ {ℓ} {K : Type ℓ} ⦃key : Key K⦄ where
  -- `compare_func(a, b) == 0`
  unfoldable pub same : K → K → Bool
  same a b = is_zero (key.compare_func a b)

  pub same_iff : (a b : K) → (same a b ≡ true) ↔ (a ≡ b)
  unfolding same
  same_iff a b =
      let (l, r) = is_zero_iff (key.compare_func a b) in
      let (f, g) = key.compare_iff a b in (λ h. f (l h), λ e. r (g e))

  pub same_refl : (a : K) → same a a ≡ true
  same_refl a = (same_iff a a).1 refl

-- `hash_compare_int`
unfoldable pub hash_compare_int : ℤ → ℤ → ℤ
hash_compare_int pid_a pid_b =
    if int_leb pid_a pid_b && int_leb pid_b pid_a
    then pos 0
    else (if int_leb pid_a pid_b then negsuc 0 else pos 1)

-- `hash_int`: the conversion to `size_t` is modulo 2^64.
pub hash_int : ℤ → ℕ
hash_int pid = mul_size ((pos_part pid + word_mod - neg_part pid) % word_mod) 2654435761

pub hash_compare_int_iff : (a b : ℤ) → (hash_compare_int a b ≡ pos 0) ↔ (a ≡ b)
unfolding hash_compare_int
hash_compare_int_iff a b = ground arith

-- The bytes at TOMBSTONE read as some number.
unfoldable pub int_key : ℤ → Key ℤ
int_key placeholder = record {
  hash_func = hash_int;
  compare_func = hash_compare_int;
  placeholder = placeholder;
  compare_iff = hash_compare_int_iff;
}

pub int_key-placeholder : (placeholder : ℤ) → (int_key placeholder).placeholder ≡ placeholder
unfolding int_key
int_key-placeholder placeholder = refl
