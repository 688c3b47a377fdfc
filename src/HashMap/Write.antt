-- ===== src/HashMap/Write.antt =====
-- The two writes to an entry of src/core/hash_map.c: a pair, or a tombstone.
use clueless_task_manager.Base.{
  ℕ, ◌<◌, ◌≡◌, ◌≢◌, ◌∙◌, inl, inr, List, none, some, arith, if◌then◌else◌, ◌==◌, length, set,
  ℕ_discrete, Bool-cases, get_or-set, length-set,
}
use clueless_task_manager.HashMap.Keys.{Key, same, same_iff, same_refl}
use clueless_task_manager.HashMap.{Entry, empty, tombstone, occupied, home}
use clueless_task_manager.HashMap.Contents.{
  entry_at, IsUnique, lookup, contents, lookup-none, lookup-at, lookup_congr,
}
use clueless_task_manager.HashMap.Probe.{probe, IsTable, IsPlaced}

module _ {ℓ} {K V : Type ℓ} where
  pub entry_at-set :
      (es : List (Entry K V)) (i j : ℕ) (e : Entry K V)
      → i < length es
      → entry_at (set es i e) j ≡ (if i == j then e else entry_at es j)
  entry_at-set es i j e h = get_or-set es i j e empty h

  -- A write of anything but `empty` empties nothing.
  ne_empty-set :
      (es : List (Entry K V)) (i j : ℕ) (e : Entry K V)
      → i < length es
      → e ≢ empty
      → entry_at es j ≢ empty
      → entry_at (set es i e) j ≢ empty
  ne_empty-set es i j e h p q = rw (entry_at-set es i j e h) (ground arith)

module _ {ℓ} {K V : Type ℓ} ⦃key : Key K⦄ {es : List (Entry K V)} {n : ℕ} (t : IsTable es n) (i : ℕ)
    (lt : i < n) where
  -- a place for `k`: no other entry holds `k`, this one holds no other key, and `k` is found here
  pub record Slot (k : K) : Type ℓ where
    pub only : (j : ℕ) (w : V) → entry_at es j ≡ occupied k w → j ≡ i
    pub mine : (k' : K) (w : V) → entry_at es i ≡ occupied k' w → k' ≡ k
    pub steps : ℕ
    pub round : steps < n
    pub here : probe (home k n) n steps ≡ i
    pub path : (e : ℕ) → e < steps → entry_at es (probe (home k n) n e) ≢ empty

  inside : i < length es
  inside = rw t.width lt

  module _ {k : K} (slot : Slot k) (v : V) where
    IsUnique-occupy : IsUnique (set es i (occupied k v))
    IsUnique-occupy a b q x y p r = ground (
      arith,
      entry_at-set es i a (occupied k v) inside,
      entry_at-set es i b (occupied k v) inside,
      slot.only a x,
      slot.only b y,
      t.unique a b q x y,
    )

    IsPlaced-occupy : IsPlaced (set es i (occupied k v)) n
    IsPlaced-occupy a q w o = elim (ℕ_discrete i a) [
      | yes e ↦
          let kq : k ≡ q = ground (arith, entry_at-set es i a (occupied k v) inside) in
          rw (← kq) (
            slot.steps,
            slot.round,
            slot.here ∙ e,
            λ x p. ne_empty-set es i _ (occupied k v) inside (λ c. cc) (slot.path x p),
          )
      | no ne ↦
          let o' : entry_at es a ≡ occupied q w =
            ground (arith, entry_at-set es i a (occupied k v) inside) in
          let (d, round, here, path) = t.placed a q w o' in
          (d, round, here, λ x p. ne_empty-set es i _ (occupied k v) inside (λ c. cc) (path x p))
    ]

    pub IsTable-occupy : IsTable (set es i (occupied k v)) n
    IsTable-occupy = record {
      width = length-set es i _ ∙ t.width;
      positive = t.positive;
      unique = IsUnique-occupy;
      placed = IsPlaced-occupy;
    }

    pub lookup-occupy :
        (q : K)
        → lookup q (contents (set es i (occupied k v)))
          ≡ (if same q k then some v else lookup q (contents es))
    lookup-occupy q = elim (Bool-cases (same q k)) [
      | inl hit ↦
          let qk = (same_iff q k).0 hit in
          rw hit (
            lookup-at _ q v i IsUnique-occupy
              (ground (arith, entry_at-set es i i (occupied k v) inside)))
      | inr miss ↦ rw miss (
          lookup_congr es _ q IsUnique-occupy
            (λ j w o. (
              j,
              ground (arith, entry_at-set es i j (occupied k v) inside, slot.mine q w, same_refl k),
            ))
            (λ j w o. (j, ground (arith, entry_at-set es i j (occupied k v) inside, same_refl k))))
    ]

  -- A tombstone keeps every path: the other keys are found where they were.
  IsUnique-bury : IsUnique (set es i tombstone)
  IsUnique-bury a b q x y p r = ground (
    arith,
    entry_at-set es i a tombstone inside,
    entry_at-set es i b tombstone inside,
    t.unique a b q x y,
  )

  IsPlaced-bury : IsPlaced (set es i tombstone) n
  IsPlaced-bury a q w o =
      let o' : entry_at es a ≡ occupied q w =
        ground (arith, entry_at-set es i a tombstone inside) in
      let (d, round, here, path) = t.placed a q w o' in
      (d, round, here, λ x p. ne_empty-set es i _ tombstone inside (λ c. cc) (path x p))

  pub IsTable-bury : IsTable (set es i tombstone) n
  IsTable-bury = record {
    width = length-set es i _ ∙ t.width;
    positive = t.positive;
    unique = IsUnique-bury;
    placed = IsPlaced-bury;
  }

  -- Only the key that stood there is forgotten.
  pub lookup-bury :
      {k : K} {v : V}
      → entry_at es i ≡ occupied k v
      → (q : K)
      → lookup q (contents (set es i tombstone))
        ≡ (if same q k then none else lookup q (contents es))
  lookup-bury {k} {v} held q = elim (Bool-cases (same q k)) [
    | inl hit ↦
        let qk = (same_iff q k).0 hit in
        rw hit (
          lookup-none _ q
            λ j w o. ground (arith, entry_at-set es i j tombstone inside, t.unique i j k v w))
    | inr miss ↦ rw miss (
        lookup_congr es _ q IsUnique-bury
          (λ j w o. (j, ground (arith, entry_at-set es i j tombstone inside, same_refl k)))
          (λ j w o. (j, ground (arith, entry_at-set es i j tombstone inside))))
  ]

  -- A tombstone where no pair stood changes no lookup.
  pub lookup-bury_free :
      ((k : K) (v : V) → entry_at es i ≢ occupied k v)
      → (q : K) → lookup q (contents (set es i tombstone)) ≡ lookup q (contents es)
  lookup-bury_free free q =
      lookup_congr es _ q IsUnique-bury
        (λ j w o. (j, ground (arith, entry_at-set es i j tombstone inside, free q w)))
        (λ j w o. (j, ground (arith, entry_at-set es i j tombstone inside)))
