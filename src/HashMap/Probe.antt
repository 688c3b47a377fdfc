-- ===== src/HashMap/Probe.antt =====
-- The order in which every loop of src/core/hash_map.c visits the entries, and where a key may stand.
use native.Mathlib.Nat.{mod-add-mod, mod-lt, mod-eq_of_lt, mod-eq-sub-mod}
use clueless_task_manager.Base.{
  ℕ, suc, ◌+◌, ◌-◌, ◌%◌, ◌<◌, ◌≤◌, ◌≡◌, ◌≢◌, refl, ◌∙◌, ap, inl, inr, ◌⊎◌, List, Option, arith,
  if◌then◌else◌, ◌==◌, ltb, length, dec_lt,
}
use clueless_task_manager.HashMap.Keys.{Key}
use clueless_task_manager.HashMap.{
  Entry, empty, tombstone, occupied, home, HashMap, minimum_capacity,
}
use clueless_task_manager.HashMap.Contents.{entry_at, IsUnique, lookup, contents}

-- the index that a loop from `h` visits after `d` steps
abbrev pub probe : ℕ → ℕ → ℕ → ℕ
probe h n d = (h + d) % n

pub probe-lt : (h n d : ℕ) → 0 < n → probe h n d < n
probe-lt h n d p = mod-lt (h + d) p

pub probe-next : (h n d : ℕ) → (probe h n d + 1) % n ≡ probe h n (suc d)
probe-next h n d = mod-add-mod (h + d) n 1 ∙ ap (λ k. k % n) (omega arith)

probe-eq : (h n d : ℕ) → h < n → d ≤ n → probe h n d ≡ (if ltb (h + d) n then h + d else h + d - n)
probe-eq h n d p q = elim (dec_lt (h + d) n) [
  | yes less ↦ ground (arith, mod-eq_of_lt {n = h + d} {m = n} less)
  | no more ↦ ground (
    arith,
    mod-eq-sub-mod {n = h + d} {m = n} (omega arith),
    mod-eq_of_lt {n = h + d - n} {m = n} (omega arith),
  )
]

-- The test `index == start` holds exactly after a whole round.
pub probe-round : (h n d : ℕ) → h < n → d < n → ((probe h n d + 1) % n == h) ≡ (suc d == n)
probe-round h n d p q = rw (probe-next h n d) (ground (arith, probe-eq h n (suc d)))

-- Every index is visited within a round.
pub probe_reaches : (h n i : ℕ) → h < n → i < n → (d : ℕ) × (d < n) × (probe h n d ≡ i)
probe_reaches h n i p q = elim (dec_lt i h) [
  | yes less ↦ (i + n - h, omega arith, ground (arith, probe-eq h n (i + n - h)))
  | no more ↦ (i - h, omega arith, ground (arith, probe-eq h n (i - h)))
]

pub home-lt {ℓ} : {K : Type ℓ} ⦃key : Key K⦄ (k : K) (n : ℕ) → 0 < n → home k n < n
home-lt k n h = grind arith

module _ {ℓ} {K V : Type ℓ} where
  pub Entry-cases :
      (e : Entry K V) → ((e ≡ empty) ⊎ (e ≡ tombstone)) ⊎ ((k : K) × (v : V) × (e ≡ occupied k v))
  Entry-cases empty = inl (inl refl)
  Entry-cases tombstone = inl (inr refl)
  Entry-cases (occupied k v) = inr (k, v, refl)

module _ {ℓ} {K V : Type ℓ} ⦃key : Key K⦄ where
  -- Every key can be reached from its home index with no empty entry in between.
  abbrev pub IsPlaced : List (Entry K V) → ℕ → Type ℓ
  IsPlaced es n =
      (i : ℕ) (k : K) (v : V)
      → entry_at es i ≡ occupied k v
      → (d : ℕ) × (d < n)
        × (probe (home k n) n d ≡ i)
        × ((e : ℕ) → e < d → entry_at es (probe (home k n) n e) ≢ empty)

  -- the invariant of the entries
  pub record IsTable (es : List (Entry K V)) (n : ℕ) : Type ℓ where
    pub width : length es ≡ n
    pub positive : 0 < n
    pub unique : IsUnique es
    pub placed : IsPlaced es n

  -- the map that a table stands for
  abbrev pub view : HashMap K V → K → Option V
  view m q = lookup q (contents m.entries)

  -- The invariant of `struct HashMap`.
  pub record IsValid (m : HashMap K V) : Type ℓ where
    pub table : IsTable m.entries m.capacity
    pub counted : length (contents m.entries) ≡ m.count
    pub sparse : m.count < m.capacity
    pub roomy : minimum_capacity ≤ m.capacity
