-- ===== src/HashMap/Client.antt =====
-- What a client of include/core/hash_map.h sees over any sequence of calls.
use clueless_task_manager.Base.{
  ℕ, ◌+◌, ◌-◌, ◌≡◌, ◌≢◌, refl, ◌∙◌, ap, Bool, Option, none, some, List, [], ◌∷◌, arith,
  if◌then◌else◌, ℤ, pos, Outcome, done, ◌>>=◌, Returns,
}
use clueless_task_manager.HashMap.{HashMap, create, hash_map_count}
use clueless_task_manager.HashMap.Keys.{Key, same}
use clueless_task_manager.HashMap.Probe.{IsValid, view}
use clueless_task_manager.HashMap.Find.{get-view}
use clueless_task_manager.HashMap.Put.{granted, present, put-Puts}
use clueless_task_manager.HashMap.Remove.{is_some, remove-Removes}
use clueless_task_manager.HashMap.Resize.{create-IsValid}
use clueless_task_manager.HashMap.Calls.{hash_map_put, hash_map_get, hash_map_remove}

-- a call; that of `hash_map_remove` with whether the allocation of a smaller table succeeds
pub data Call {ℓ} (K V : Type ℓ) : Type ℓ where
  call_put : K → V → Call K V
  call_get : K → Call K V
  call_remove : Bool → K → Call K V
  call_count : Call K V

-- what a call returns
pub data Answer {ℓ} (V : Type ℓ) : Type ℓ where
  code : ℤ → Answer V
  pointer : Option V → Answer V
  size : ℕ → Answer V

-- The abstract map: which value a key has, and how many keys have one.
pub record Dict {ℓ} (K V : Type ℓ) : Type ℓ where
  pub value_of : K → Option V
  pub keys : ℕ

abbrev pub empty_dict {ℓ} : {K V : Type ℓ} → Dict K V
empty_dict = record { value_of = λ q. none; keys = 0 }

module _ {ℓ} {K V : Type ℓ} ⦃key : Key K⦄ where
  unfoldable pub call : Call K V → Option (HashMap K V) → Outcome (Answer V × Option (HashMap K V))
  call (call_put k v) m = hash_map_put granted m (some k) (some v) >>= λ r. done (code r.0, r.1)
  call (call_get k) m = hash_map_get m (some k) >>= λ v. done (pointer v, m)
  call (call_remove calloc_ok k) m =
      hash_map_remove calloc_ok m (some k) >>= λ r. done (code r.0, r.1)
  call call_count m = done (size (hash_map_count m), m)

  unfoldable pub run :
      List (Call K V) → Option (HashMap K V) → Outcome (List (Answer V) × Option (HashMap K V))
  unfolding call
  run [] m = done ([], m)
  run (c ∷ calls) m = call c m >>= λ r. run calls r.1 >>= λ rest. done (r.0 ∷ rest.0, rest.1)

  -- the same call on the abstract map
  unfoldable pub call_dict : Call K V → Dict K V → Answer V × Dict K V
  call_dict (call_put k v) d = (
    code (pos 0),
    record {
      value_of = λ q. if same q k then some v else d.value_of q;
      keys = d.keys + 1 - present (d.value_of k);
    },
  )
  call_dict (call_get k) d = (pointer (d.value_of k), d)
  call_dict (call_remove calloc_ok k) d = (
    code (if is_some (d.value_of k) then pos 1 else pos 0),
    record {
      value_of = λ q. if same q k then none else d.value_of q;
      keys = d.keys - present (d.value_of k);
    },
  )
  call_dict call_count d = (size d.keys, d)

  unfoldable pub run_dict : List (Call K V) → Dict K V → List (Answer V) × Dict K V
  unfolding call_dict
  run_dict [] d = ([], d)
  run_dict (c ∷ calls) d =
      let (answer, d') = call_dict c d in
      let (answers, d'') = run_dict calls d' in (answer ∷ answers, d'')

  -- no put of the key that TOMBSTONE reads as
  abbrev pub RealKey : Call K V → Type ℓ
  RealKey (call_put k v) = k ≢ key.placeholder
  RealKey _ = Unit {ℓ}

  abbrev pub RealKeys : List (Call K V) → Type ℓ
  RealKeys [] = Unit {ℓ}
  RealKeys (c ∷ calls) = RealKey c × RealKeys calls

  -- the table stands for the abstract map
  pub record Represents (m : HashMap K V) (d : Dict K V) : Type ℓ where
    pub valid : IsValid m
    pub counted : m.count ≡ d.keys
    pub reads : (q : K) → view m q ≡ d.value_of q

  -- the result of calls: the answers of the abstract map, and a table that stands for what it became
  abbrev pub Agrees {κ} : {A : Type κ} → A × Option (HashMap K V) → A × Dict K V → Type (ℓ ⊔ κ)
  Agrees r s = (r.0 ≡ s.0) × ((m : HashMap K V) × (r.1 ≡ some m) × Represents m s.1)

  pub call-Agrees :
      (c : Call K V) {m : HashMap K V} {d : Dict K V}
      → RealKey c
      → Represents m d
      → Returns (call c (some m)) (λ r. Agrees r (call_dict c d))
  unfolding call call_dict hash_map_put hash_map_get hash_map_remove hash_map_count
  call-Agrees (call_put k v) {m} {d} real now =
      let (r, ran, puts) = put-Puts {m = m} k v now.valid real in
      (
        (code (pos 0), some r.1),
        rw (ran, puts.flag) refl,
        (
          refl,
          (
            r.1,
            refl,
            record {
              valid = puts.valid;
              counted = omega (arith, puts.counted, ap present (now.reads k), now.counted);
              reads = λ q. puts.reads q ∙ ap (λ o. if same q k then some v else o) (now.reads q);
            },
          ),
        ),
      )
  call-Agrees (call_get k) {m} {d} real now = (
    (pointer (d.value_of k), some m),
    rw (get-view now.valid k, now.reads k) refl,
    (refl, (m, refl, now)),
  )
  call-Agrees (call_remove calloc_ok k) {m} {d} real now =
      let (r, ran, gone) = remove-Removes calloc_ok {m = m} k now.valid in
      (
        (code (if is_some (d.value_of k) then pos 1 else pos 0), some r.1),
        rw (ran, gone.flag, now.reads k) refl,
        (
          refl,
          (
            r.1,
            refl,
            record {
              valid = gone.valid;
              counted = omega (arith, gone.counted, ap present (now.reads k), now.counted);
              reads = λ q. gone.reads q ∙ ap (λ o. if same q k then none else o) (now.reads q);
            },
          ),
        ),
      )
  call-Agrees call_count {m} {d} real now =
      ((size m.count, some m), refl, (ap size now.counted, (m, refl, now)))

  -- From a map that stands for an abstract one, every sequence of calls answers as the abstract one does.
  pub run-Agrees :
      (calls : List (Call K V)) {m : HashMap K V} {d : Dict K V}
      → RealKeys calls
      → Represents m d
      → Returns (run calls (some m)) (λ r. Agrees r (run_dict calls d))
  unfolding run run_dict
  run-Agrees [] {m} {d} real now = (([], some m), refl, (refl, (m, refl, now)))
  run-Agrees (c ∷ calls) {m} {d} (real, more) now =
      let (r, ran, (answer, (m', at, next))) = call-Agrees c {m = m} {d = d} real now in
      let (s, ran', (answers, end)) = run-Agrees calls more next in
      ((r.0 ∷ s.0, s.1), rw (ran, at, ran') refl, (rw (answer, answers) refl, end))

  -- The hash map is a map, for any client that creates it and calls its functions in any order: every call
  -- of `hash_map_put`, `hash_map_get`, `hash_map_remove` and `hash_map_count` ends and returns what it
  -- would on an abstract map, which is a function from keys to values and the number of its keys, through
  -- all growing, shrinking and tombstones; and the table stands for the abstract map in the end. Every
  -- allocation of `hash_map_put` succeeds, that of a smaller table may fail, and no key that is put is the
  -- one that TOMBSTONE reads as.
  pub create-run :
      (hash_given compare_given malloc_ok calloc_ok : Bool) (key_size value_size : ℕ)
      {m : HashMap K V} (calls : List (Call K V))
      → create hash_given compare_given malloc_ok calloc_ok key_size value_size ≡ some m
      → RealKeys calls
      → Returns (run calls (some m)) (λ r. Agrees r (run_dict calls empty_dict))
  create-run h c a b key_size value_size {m} calls made real =
      let (valid, none_yet, unbound) = create-IsValid h c a b key_size value_size {m = m} made in
      run-Agrees calls real (record { valid = valid; counted = none_yet; reads = unbound })
