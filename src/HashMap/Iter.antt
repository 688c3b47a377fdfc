-- ===== src/HashMap/Iter.antt =====
-- `hash_map_iter_next` of src/core/hash_map.c: walking the iterator to its end.
use clueless_task_manager.Base.{
  ℕ, zero, suc, ◌+◌, ◌-◌, ◌<◌, ◌≤◌, ◌≡◌, refl, ◌∙◌, ap, inl, inr, List, [], ◌∷◌, Option, none, some,
  arith, ltb, length, drop, get_or, Bool-cases, Outcome, done, out_of_fuel, ◌>>=◌, Returns,
}
use clueless_task_manager.HashMap.{Entry, empty, HashMap, iter_loop, iter_next}
use clueless_task_manager.HashMap.Contents.{entry_at, contents}
use clueless_task_manager.HashMap.Probe.{Entry-cases}

pub drop-get_or {ℓ} :
    {A : Type ℓ} (xs : List A) (i : ℕ) (d : A)
    → i < length xs
    → drop i xs ≡ get_or xs i d ∷ drop (i + 1) xs
drop-get_or [] i d h = absurd (omega arith)
drop-get_or (x ∷ xs) zero d h = refl
drop-get_or (x ∷ xs) (suc i) d h =
    drop-get_or xs i d (omega arith)
    ∙ ap (λ k. get_or xs i d ∷ drop k (x ∷ xs)) {x = suc (i + 1)} {y = suc i + 1} (omega arith)

pub drop-all {ℓ} : {A : Type ℓ} (xs : List A) (i : ℕ) → length xs ≤ i → drop i xs ≡ []
drop-all [] zero h = refl
drop-all [] (suc i) h = refl
drop-all (x ∷ xs) zero h = absurd (omega arith)
drop-all (x ∷ xs) (suc i) h = drop-all xs i (omega arith)

-- A loop `while (hash_map_iter_next(it, &k, &v) == 0)` that collects the pairs.
pub drain {ℓ} : {K V : Type ℓ} → ℕ → HashMap K V → ℕ → Outcome (List (K × V))
drain zero m index = out_of_fuel
drain (suc f) m index = iter_next m index >>= λ r. elim r.0 [
  | none ↦ done []
  | some kv ↦ (drain f m r.1 >>= λ rest. done (kv ∷ rest))
]

module _ {ℓ} {K V : Type ℓ} (es : List (Entry K V)) where
  -- what one call returns from index `i`
  abbrev Next : ℕ → Option (K × V) × ℕ → Type ℓ
  Next i (none, j) = contents (drop i es) ≡ []
  Next i (some kv, j) =
      (contents (drop i es) ≡ kv ∷ contents (drop j es)) × (i < j) × (j ≤ length es)

  Next-skip :
      (i : ℕ) (r : Option (K × V) × ℕ)
      → contents (drop i es) ≡ contents (drop (i + 1) es)
      → Next (i + 1) r
      → Next i r
  Next-skip i (none, j) e h = e ∙ h
  Next-skip i (some kv, j) e (h, less, le) = (e ∙ h, omega arith, le)

  iter_loop-Next :
      (f i : ℕ)
      → i ≤ length es
      → length es < i + f
      → Returns (iter_loop es (length es) f i) (Next i)
  unfolding iter_loop contents
  iter_loop-Next zero i le fuel = absurd (omega arith)
  iter_loop-Next (suc f) i le fuel = elim (Bool-cases (ltb i (length es))) [
    | inr over ↦ rw over ((none, i), refl, rw (drop-all es i (ground arith)) refl)
    | inl more ↦
        let lt : i < length es = ground arith in
        let here = drop-get_or es i empty lt in
        let (r, run, next) = iter_loop-Next f (i + 1) (omega arith) (omega arith) in
        elim (Entry-cases (entry_at es i)) [
          | inl (inl e) ↦ (r, ground arith, Next-skip i r (rw (here, e) refl) next)
          | inl (inr e) ↦ (r, ground arith, Next-skip i r (rw (here, e) refl) next)
          | inr (k, v, e) ↦
              ((some (k, v), i + 1), ground arith, (rw (here, e) refl, omega arith, omega arith))
        ]
  ]

module _ {ℓ} {K V : Type ℓ} (m : HashMap K V) (width : length m.entries ≡ m.capacity) where
  iter_next-Next : (i : ℕ) → i ≤ m.capacity → Returns (iter_next m i) (Next m.entries i)
  unfolding iter_next
  iter_next-Next i le =
      rw (← width)
        (iter_loop-Next m.entries (length m.entries + 1 - i) i (omega arith) (omega arith))

  collect :
      (f i : ℕ) (r : Option (K × V) × ℕ)
      → m.capacity < i + suc f
      → ((j : ℕ)
          → j ≤ m.capacity
          → m.capacity < j + f
          → drain f m j ≡ done (contents (drop j m.entries)))
      → Next m.entries i r
      → elim r.0 [ none ↦ done [] | some kv ↦ (drain f m r.1 >>= λ rest. done (kv ∷ rest)) ]
        ≡ done (contents (drop i m.entries))
  collect f i (none, j) fuel ih h = rw h
  collect f i (some kv, j) fuel ih (h, less, le) = rw (h, ih j (omega arith) (omega arith))

  drain_from :
      (f i : ℕ)
      → i ≤ m.capacity
      → m.capacity < i + f
      → drain f m i ≡ done (contents (drop i m.entries))
  unfolding drain
  drain_from zero i le fuel = absurd (omega arith)
  drain_from (suc f) i le fuel =
      let (r, run, next) = iter_next-Next i le in rw run (collect f i r fuel (drain_from f) next)

  -- Walking a fresh iterator to its end ends, and visits each pair of the map exactly once, in the
  -- order of the entries.
  pub drain-contents : drain (m.capacity + 1) m 0 ≡ done (contents m.entries)
  drain-contents = drain_from (m.capacity + 1) 0 (omega arith) (omega arith)
