-- ===== src/HashMap/Calls.antt =====
-- The functions of include/core/hash_map.h with the checks of their arguments; `none` stands for `NULL`.
use clueless_task_manager.Base.{
  ℕ, zero, suc, ◌+◌, ◌≡◌, ◌≢◌, refl, sym, ◌∙◌, ap, Bool, true, false, Option, none, some, List, [],
  ◌∷◌, ◌++◌, arith, if◌then◌else◌, length, drop, ℤ, pos, negsuc, Outcome, done, ◌>>=◌,
}
use clueless_task_manager.HashMap.Keys.{Key, same}
use clueless_task_manager.HashMap.{
  Entry, empty, tombstone, occupied, HashMap, Grants, put, get, remove, iter_next,
}
use clueless_task_manager.HashMap.Contents.{entry_at, contents}
use clueless_task_manager.HashMap.Probe.{IsValid}
use clueless_task_manager.HashMap.Iter.{drop-get_or, drop-all}
use clueless_task_manager.HashMap.Find.{get-view}
use clueless_task_manager.HashMap.Put.{granted, put-Puts}

-- what `hash_map_free` gives back
pub data Block {ℓ} (K V : Type ℓ) : Type ℓ where
  key_block : K → Block K V
  value_block : V → Block K V
  entries_block map_block : Block K V

module _ {ℓ} {K V : Type ℓ} where
  -- the blocks of one entry, as the `if` of the loop finds them
  abbrev entry_blocks : Entry K V → List (Block K V)
  entry_blocks empty = []
  entry_blocks tombstone = []
  entry_blocks (occupied k v) = key_block k ∷ value_block v ∷ []

  -- the loop of `hash_map_free` from the index `i` on, for `n` turns
  unfoldable pub free_loop : List (Entry K V) → ℕ → ℕ → List (Block K V)
  free_loop es zero i = []
  free_loop es (suc n) i = entry_blocks (entry_at es i) ++ free_loop es n (i + 1)

  unfoldable pub hash_map_free : Option (HashMap K V) → List (Block K V)
  unfolding free_loop
  hash_map_free none = []
  hash_map_free (some m) = free_loop m.entries m.capacity 0 ++ entries_block ∷ map_block ∷ []

  -- `hash_map_iter_create`: the map and the index of the iterator
  unfoldable pub hash_map_iter_create : Bool → Option (HashMap K V) → Option (HashMap K V × ℕ)
  hash_map_iter_create malloc_ok none = none
  hash_map_iter_create malloc_ok (some m) = if malloc_ok then some (m, 0) else none

  -- `hash_map_iter_next`; `wanted` says that `key` and `value` are not `NULL`.
  unfoldable pub hash_map_iter_next :
      (wanted : Bool)
      → Option (HashMap K V × ℕ)
      → Outcome (ℤ × Option (K × V) × Option (HashMap K V × ℕ))
  hash_map_iter_next wanted none = done (negsuc 0, none, none)
  hash_map_iter_next false iter = done (negsuc 0, none, iter)
  hash_map_iter_next true (some (m, index)) = iter_next m index >>= λ r. elim r.0 [
    | none ↦ done (negsuc 0, none, some (m, r.1))
    | some kv ↦ done (pos 0, some kv, some (m, r.1))
  ]

module _ {ℓ} {K V : Type ℓ} ⦃key : Key K⦄ where
  unfoldable pub hash_map_put :
      Grants → Option (HashMap K V) → Option K → Option V → Outcome (ℤ × Option (HashMap K V))
  hash_map_put g (some m) (some k) (some v) =
      put g m k v >>= λ r. done (if r.0 then pos 0 else negsuc 0, some r.1)
  hash_map_put g m k v = done (negsuc 0, m)

  unfoldable pub hash_map_get : Option (HashMap K V) → Option K → Outcome (Option V)
  hash_map_get (some m) (some k) = get m k
  hash_map_get m k = done none

  unfoldable pub hash_map_remove :
      Bool → Option (HashMap K V) → Option K → Outcome (ℤ × Option (HashMap K V))
  hash_map_remove calloc_ok (some m) (some k) =
      remove calloc_ok m k >>= λ r. done (if r.0 then pos 1 else pos 0, some r.1)
  hash_map_remove calloc_ok m k = done (negsuc 0, m)

  -- what a call of `hash_map_put` and then one of `hash_map_get` for another key, or the same, give
  abbrev pub put_then_get :
      Grants → Option (HashMap K V) → Option K → Option V → Option K → Outcome (ℤ × Option V)
  put_then_get g m k v q =
      hash_map_put g m k v >>= λ r. (hash_map_get r.1 q >>= λ found. done (r.0, found))

  -- What is put is found again, and the other keys read as before: after `hash_map_put` of a key in a valid
  -- map, which returns 0 if every allocation succeeds, `hash_map_get` of any key finds the new value for
  -- that key, and for every other what it found before. The key is not the one that TOMBSTONE reads as.
  pub hash_map_put-get :
      {m : HashMap K V} (k : K) (v : V) (q : K)
      → IsValid m
      → k ≢ key.placeholder
      → put_then_get granted (some m) (some k) (some v) (some q) ≡ (
          hash_map_get (some m) (some q) >>= λ before.
          done (pos 0, if same q k then some v else before))
  unfolding hash_map_put hash_map_get
  hash_map_put-get {m} k v q valid real =
      let (r, run, puts) = put-Puts {m = m} k v valid real in
      rw (run, puts.flag, get-view puts.valid q, get-view valid q, puts.reads q) refl

module _ {ℓ} {K V : Type ℓ} where
  -- the blocks of a list of pairs
  abbrev pub pair_blocks : List (K × V) → List (Block K V)
  pair_blocks [] = []
  pair_blocks ((k, v) ∷ kvs) = key_block k ∷ value_block v ∷ pair_blocks kvs

  contents-blocks :
      (es : List (Entry K V)) (e : Entry K V)
      → pair_blocks (contents (e ∷ es)) ≡ entry_blocks e ++ pair_blocks (contents es)
  unfolding contents
  contents-blocks es empty = refl
  contents-blocks es tombstone = refl
  contents-blocks es (occupied k v) = refl

  free_loop-contents :
      (es : List (Entry K V)) (n i : ℕ)
      → i + n ≡ length es
      → free_loop es n i ≡ pair_blocks (contents (drop i es))
  unfolding free_loop contents
  free_loop-contents es zero i e =
      ap (λ l. pair_blocks (contents l)) (sym (drop-all es i (omega arith)))
  free_loop-contents es (suc n) i e =
      ap (λ l. entry_blocks (entry_at es i) ++ l) (free_loop-contents es n (i + 1) (omega arith))
      ∙ sym (contents-blocks (drop (i + 1) es) (entry_at es i))
      ∙ ap (λ l. pair_blocks (contents l)) (sym (drop-get_or es i empty (omega arith)))

  -- `hash_map_free` gives back the key and the value of each binding exactly once, and then the table and
  -- the map.
  pub hash_map_free-blocks :
      ⦃key : Key K⦄ (m : HashMap K V)
      → IsValid m
      → hash_map_free (some m) ≡ pair_blocks (contents m.entries) ++ entries_block ∷ map_block ∷ []
  unfolding hash_map_free
  hash_map_free-blocks m valid =
      ap (λ l. l ++ entries_block ∷ map_block ∷ [])
        (free_loop-contents m.entries m.capacity 0 (omega (arith, valid.table.width)))
