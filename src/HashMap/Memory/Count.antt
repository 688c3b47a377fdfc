-- ===== src/HashMap/Memory/Count.antt =====
-- How often src/core/hash_map.c allocates and releases blocks of each kind in a sequence of calls.
use clueless_task_manager.Base.{
  ℕ, ◌+◌, ◌≡◌, refl, Bool, true, false, List, [], ◌∷◌, ◌++◌, arith, ◌==◌, if◌then◌else◌, pos,
}
use clueless_task_manager.HashMap.Client.{Answer, code}
use clueless_task_manager.HashMap.Memory.{
  BlockKind, of_key, of_value, of_entries, of_map, MemoryCall, allocate, release, resize_memory,
}

abbrev pub same_kind : BlockKind → BlockKind → Bool
same_kind of_key of_key = true
same_kind of_value of_value = true
same_kind of_entries of_entries = true
same_kind of_map of_map = true
same_kind _ _ = false

-- how many blocks of a kind are allocated, and released
unfoldable pub allocated : BlockKind → List MemoryCall → ℕ
allocated kind [] = 0
allocated kind (allocate k ∷ calls) = allocated kind calls + (if same_kind kind k then 1 else 0)
allocated kind (release k ∷ calls) = allocated kind calls

unfoldable pub released : BlockKind → List MemoryCall → ℕ
released kind [] = 0
released kind (allocate k ∷ calls) = released kind calls
released kind (release k ∷ calls) = released kind calls + (if same_kind kind k then 1 else 0)

pub allocated-append :
    (kind : BlockKind) (xs ys : List MemoryCall)
    → allocated kind (xs ++ ys) ≡ allocated kind xs + allocated kind ys
unfolding allocated
allocated-append kind [] ys = omega arith
allocated-append kind (allocate k ∷ xs) ys = omega (arith, allocated-append kind xs ys)
allocated-append kind (release k ∷ xs) ys = allocated-append kind xs ys

pub released-append :
    (kind : BlockKind) (xs ys : List MemoryCall)
    → released kind (xs ++ ys) ≡ released kind xs + released kind ys
unfolding released
released-append kind [] ys = omega arith
released-append kind (allocate k ∷ xs) ys = released-append kind xs ys
released-append kind (release k ∷ xs) ys = omega (arith, released-append kind xs ys)

-- how many blocks of a kind a map with so many keys holds
abbrev pub held : BlockKind → ℕ → ℕ
held of_key n = n
held of_value n = n
held of_entries n = 1
held of_map n = 1

-- how many keys are removed by calls that give these answers
abbrev pub removed_by {ℓ} : {V : Type ℓ} → Answer V → ℕ
removed_by (code (pos n)) = if n == 1 then 1 else 0
removed_by _ = 0

unfoldable pub removals {ℓ} : {V : Type ℓ} → List (Answer V) → ℕ
removals [] = 0
removals (answer ∷ answers) = removed_by answer + removals answers

abbrev pub lost : BlockKind → ℕ → ℕ
lost of_value n = n
lost _ n = 0

abbrev pub pair : List MemoryCall
pair = allocate of_key ∷ allocate of_value ∷ []

abbrev pub moved : List MemoryCall
moved = allocate of_entries ∷ release of_entries ∷ []

pub pair-adds :
    (kind : BlockKind) → allocated kind pair + held kind 0 ≡ released kind pair + held kind 1
unfolding allocated released
pair-adds of_key = refl
pair-adds of_value = refl
pair-adds of_entries = refl
pair-adds of_map = refl

pub moved-even : (kind : BlockKind) → allocated kind moved ≡ released kind moved
unfolding allocated released
moved-even of_key = refl
moved-even of_value = refl
moved-even of_entries = refl
moved-even of_map = refl

pub resize_memory-even :
    (kind : BlockKind) (calloc_ok : Bool) (c : ℕ)
    → allocated kind (resize_memory calloc_ok c) ≡ released kind (resize_memory calloc_ok c)
unfolding resize_memory allocated released
resize_memory-even kind calloc_ok c = ground (arith, moved-even kind)

pub dropped :
    (kind : BlockKind) (calls : List MemoryCall)
    → allocated kind calls ≡ released kind calls
    → allocated kind (release of_key ∷ calls) + held kind 1
      ≡ released kind (release of_key ∷ calls) + held kind 0 + lost kind 1
unfolding allocated released
dropped of_key calls even = omega arith
dropped of_value calls even = omega arith
dropped of_entries calls even = omega arith
dropped of_map calls even = omega arith

pub nil-even : (kind : BlockKind) → allocated kind [] ≡ released kind []
unfolding allocated released
nil-even kind = refl

pub lost_add : (kind : BlockKind) (a b : ℕ) → lost kind (a + b) ≡ lost kind a + lost kind b
lost_add of_key a b = refl
lost_add of_value a b = refl
lost_add of_entries a b = refl
lost_add of_map a b = refl

-- one call: `before` and `after` are the counts around it, `gone` the keys that it removed
abbrev pub Steps : List MemoryCall → (before after gone : ℕ) → Type 0
Steps calls before after gone =
    (kind : BlockKind)
    → allocated kind calls + held kind before
      ≡ released kind calls + held kind after + lost kind gone

pub put-Steps :
    (calls : List MemoryCall) (before after p : ℕ)
    → ((kind : BlockKind) → allocated kind calls + held kind p ≡ released kind calls + held kind 1)
    → after + p ≡ before + 1
    → Steps calls before after 0
put-Steps calls before after p stores count of_key = omega (arith, stores of_key)
put-Steps calls before after p stores count of_value = omega (arith, stores of_value)
put-Steps calls before after p stores count of_entries = omega (arith, stores of_entries)
put-Steps calls before after p stores count of_map = omega (arith, stores of_map)

pub remove-Steps :
    (calls : List MemoryCall) (before after p : ℕ)
    → ((kind : BlockKind)
        → allocated kind calls + held kind p ≡ released kind calls + held kind 0 + lost kind p)
    → after + p ≡ before
    → Steps calls before after p
remove-Steps calls before after p drops count of_key = omega (arith, drops of_key)
remove-Steps calls before after p drops count of_value = omega (arith, drops of_value)
remove-Steps calls before after p drops count of_entries = omega (arith, drops of_entries)
remove-Steps calls before after p drops count of_map = omega (arith, drops of_map)

pub idle-Steps : (n : ℕ) → Steps [] n n 0
unfolding allocated released
idle-Steps n of_key = omega arith
idle-Steps n of_value = omega arith
idle-Steps n of_entries = omega arith
idle-Steps n of_map = omega arith

-- the counts of a whole life, from `before` keys on
abbrev pub Lives : List MemoryCall → (before gone : ℕ) → Type 0
Lives calls before gone =
    (kind : BlockKind)
    → allocated kind calls + held kind before ≡ released kind calls + lost kind gone

abbrev pub created : List MemoryCall
created = allocate of_map ∷ allocate of_entries ∷ []

pub created-holds :
    (kind : BlockKind) → (allocated kind created ≡ held kind 0) × (released kind created ≡ 0)
unfolding allocated released
created-holds of_key = (refl, refl)
created-holds of_value = (refl, refl)
created-holds of_entries = (refl, refl)
created-holds of_map = (refl, refl)
