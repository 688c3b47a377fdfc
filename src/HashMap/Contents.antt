-- ===== src/HashMap/Contents.antt =====
-- What the entries of a hash map stand for: the pairs in index order, looked up by key.
use clueless_task_manager.Base.{
  ℕ, zero, suc, ◌+◌, ◌<◌, ◌≤◌, ◌≡◌, ◌≢◌, refl, Option, none, some, List, [], ◌∷◌, arith,
  if◌then◌else◌, get_or, set, length, inl, inr, Option-cases, Bool-cases, replicate,
}
use clueless_task_manager.HashMap.Keys.{Key, same, same_iff}
use clueless_task_manager.HashMap.{Entry, empty, tombstone, occupied}

abbrev pub entry_at {ℓ} : {K V : Type ℓ} → List (Entry K V) → ℕ → Entry K V
entry_at es i = get_or es i empty

module _ {ℓ} {K V : Type ℓ} where
  unfoldable pub contents : List (Entry K V) → List (K × V)
  contents [] = []
  contents (empty ∷ es) = contents es
  contents (tombstone ∷ es) = contents es
  contents (occupied k v ∷ es) = (k, v) ∷ contents es

  abbrev pub live : Entry K V → ℕ
  live empty = 0
  live tombstone = 0
  live (occupied k v) = 1

  -- No key stands at two indices.
  abbrev pub IsUnique : List (Entry K V) → Type ℓ
  IsUnique es =
      (i j : ℕ) (k : K) (v w : V)
      → entry_at es i ≡ occupied k v
      → entry_at es j ≡ occupied k w
      → i ≡ j

  pub length-contents-set :
      (es : List (Entry K V)) (i : ℕ) (e : Entry K V)
      → i < length es
      → length (contents (set es i e)) + live (entry_at es i) ≡ length (contents es) + live e
  unfolding contents
  length-contents-set [] i e h = absurd (omega arith)
  length-contents-set (x ∷ es) zero e h = ground arith
  length-contents-set (empty ∷ es) (suc i) e h = length-contents-set es i e (omega arith)
  length-contents-set (tombstone ∷ es) (suc i) e h = length-contents-set es i e (omega arith)
  length-contents-set (occupied k v ∷ es) (suc i) e h =
      omega (arith, length-contents-set es i e (omega arith))

  pub length-contents-le : (es : List (Entry K V)) → length (contents es) ≤ length es
  unfolding contents
  length-contents-le [] = omega arith
  length-contents-le (empty ∷ es) = omega (arith, length-contents-le es)
  length-contents-le (tombstone ∷ es) = omega (arith, length-contents-le es)
  length-contents-le (occupied k v ∷ es) = omega (arith, length-contents-le es)

  -- Only a table that is occupied at every index has no free entry.
  pub length-contents_full :
      (es : List (Entry K V))
      → ((i : ℕ) → i < length es → live (entry_at es i) ≡ 1)
      → length (contents es) ≡ length es
  unfolding contents
  length-contents_full [] h = refl
  length-contents_full (e ∷ es) h =
      ground (arith, h 0, length-contents_full es λ i p. h (suc i) (omega arith))

  pub contents-replicate : (n : ℕ) → contents (replicate {A = Entry K V} n empty) ≡ []
  unfolding contents
  contents-replicate zero = refl
  contents-replicate (suc n) = contents-replicate n

  pub IsUnique-tail : (e : Entry K V) (es : List (Entry K V)) → IsUnique (e ∷ es) → IsUnique es
  IsUnique-tail e es u i j k v w p q = omega (arith, u (suc i) (suc j) k v w p q)

module _ {ℓ} {K V : Type ℓ} ⦃key : Key K⦄ where
  unfoldable pub lookup : K → List (K × V) → Option V
  lookup q [] = none
  lookup q ((k, v) ∷ c) = if same q k then some v else lookup q c

  pub lookup_sound :
      (es : List (Entry K V)) (q : K) (v : V)
      → lookup q (contents es) ≡ some v
      → (i : ℕ) × (entry_at es i ≡ occupied q v)
  unfolding lookup contents
  lookup_sound [] q v h = cc
  lookup_sound (empty ∷ es) q v h = let (i, e) = lookup_sound es q v h in (suc i, e)
  lookup_sound (tombstone ∷ es) q v h = let (i, e) = lookup_sound es q v h in (suc i, e)
  lookup_sound (occupied k w ∷ es) q v h = elim (Bool-cases (same q k)) [
    | inl e ↦ (0, ground (arith, (same_iff q k).0 e))
    | inr e ↦ let (i, e) = lookup_sound es q v (rw e at h) in (suc i, e)
  ]

  pub lookup-none :
      (es : List (Entry K V)) (q : K)
      → ((i : ℕ) (v : V) → entry_at es i ≢ occupied q v)
      → lookup q (contents es) ≡ none
  lookup-none es q h = elim (Option-cases (lookup q (contents es))) [
    | inl e ↦ e
    | inr (v, e) ↦ let (i, o) = lookup_sound es q v e in absurd (h i v o)
  ]

  pub lookup_complete :
      (es : List (Entry K V)) (q : K) (v : V) (i : ℕ)
      → entry_at es i ≡ occupied q v
      → lookup q (contents es) ≢ none
  unfolding lookup contents
  lookup_complete [] q v i h e = cc
  lookup_complete (empty ∷ es) q v zero h e = cc
  lookup_complete (tombstone ∷ es) q v zero h e = cc
  lookup_complete (occupied k w ∷ es) q v zero h e = ground (arith, same_iff q k)
  lookup_complete (empty ∷ es) q v (suc i) h e = lookup_complete es q v i h e
  lookup_complete (tombstone ∷ es) q v (suc i) h e = lookup_complete es q v i h e
  lookup_complete (occupied k w ∷ es) q v (suc i) h e = ground (arith, lookup_complete es q v i h)

  pub lookup-at :
      (es : List (Entry K V)) (q : K) (v : V) (i : ℕ)
      → IsUnique es
      → entry_at es i ≡ occupied q v
      → lookup q (contents es) ≡ some v
  lookup-at es q v i u h = elim (Option-cases (lookup q (contents es))) [
    | inl e ↦ absurd (lookup_complete es q v i h e)
    | inr (w, e) ↦ let (j, o) = lookup_sound es q w e in let same_index = u i j q v w h o in cc
  ]

  -- Two tables that bind a key alike answer alike.
  pub lookup_congr :
      (es es' : List (Entry K V)) (q : K)
      → IsUnique es'
      → ((i : ℕ) (v : V) → entry_at es i ≡ occupied q v → (j : ℕ) × (entry_at es' j ≡ occupied q v))
      → ((i : ℕ) (v : V) → entry_at es' i ≡ occupied q v → (j : ℕ) × (entry_at es j ≡ occupied q v))
      → lookup q (contents es') ≡ lookup q (contents es)
  lookup_congr es es' q u into back = elim (Option-cases (lookup q (contents es))) [
    | inl e ↦
        rw e (lookup-none es' q λ i v o. let (j, p) = back i v o in lookup_complete es q v j p e)
    | inr (v, e) ↦
        let (i, o) = lookup_sound es q v e in
        let (j, p) = into i v o in rw e (lookup-at es' q v j u p)
  ]
