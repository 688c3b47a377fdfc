-- ===== src/LinkedList/Links.antt =====
-- Paths through the `next` and `prev` fields of src/core/list.c, and the list that a head stands for.
use clueless_task_manager.Base.{
  update, ◌≡◌, ◌≢◌, refl, Bool, true, false, ◌&&◌, ◌==◌, List, [], ◌∷◌, ◌++◌, arith, length, listed,
  distinct, ℕ_discrete,
}
use clueless_task_manager.LinkedList.{Address, Heap}

-- `a` is followed by the nodes `xs` and then by `b`, and each of them points back.
abbrev pub Links :
    (Address → Address) → (Address → Address) → Address → List Address → Address → Type 0
Links next prev a [] b = (next a ≡ b) × (prev b ≡ a)
Links next prev a (x ∷ xs) b = ((next a ≡ x) × (prev x ≡ a)) × Links next prev x xs b

-- every address of the list satisfies the test
unfoldable pub all : (Address → Bool) → List Address → Bool
all test [] = true
all test (x ∷ xs) = test x && all test xs

-- The list with this head, these nodes in order, and the counter `c`.
pub record IsList (h : Heap) (head c : Address) (xs : List Address) : Type 0 where
  pub links : Links h.next h.prev head xs head
  pub nodes : all h.is_node (head ∷ xs) ≡ true
  pub counters : all (λ p. h.count p == c) (head ∷ xs) ≡ true
  pub allocated : h.is_cell c ≡ true
  pub counted : h.cell c ≡ length xs
  pub apart : distinct (head ∷ xs) ≡ true

-- the first node behind a pointer, or the end
abbrev pub first_of : List Address → Address → Address
first_of [] b = b
first_of (x ∷ xs) b = x

abbrev pub last_of : Address → List Address → Address
last_of a [] = a
last_of a (x ∷ xs) = last_of x xs

pub Links-first :
    (next prev : Address → Address) (a : Address) (xs : List Address) (b : Address)
    → Links next prev a xs b
    → (next a ≡ first_of xs b) × (prev (first_of xs b) ≡ a)
Links-first next prev a [] b l = l
Links-first next prev a (x ∷ xs) b l = l.0

-- A write to `next` of a node that is not on the path, or to `prev` of one that no step leads to.
pub Links-set_next :
    (next prev : Address → Address) (p q a : Address) (xs : List Address) (b : Address)
    → listed p (a ∷ xs) ≡ false
    → Links next prev a xs b
    → Links (update next p q) prev a xs b
unfolding listed
Links-set_next next prev p q a [] b out l = ground arith
Links-set_next next prev p q a (x ∷ xs) b out l =
    (ground arith, Links-set_next next prev p q x xs b (ground arith) l.1)

pub Links-set_prev :
    (next prev : Address → Address) (p q a : Address) (xs : List Address) (b : Address)
    → listed p xs ≡ false
    → p ≢ b
    → Links next prev a xs b
    → Links next (update prev p q) a xs b
unfolding listed
Links-set_prev next prev p q a [] b out ne l = ground arith
Links-set_prev next prev p q a (x ∷ xs) b out ne l =
    (ground arith, Links-set_prev next prev p q x xs b (ground arith) ne l.1)

-- A path splits at a node, and two paths are joined there.
pub Links-split :
    (next prev : Address → Address) (a : Address) (xs : List Address) (x : Address)
    (ys : List Address) (b : Address)
    → Links next prev a (xs ++ x ∷ ys) b
    → Links next prev a xs x × Links next prev x ys b
Links-split next prev a [] x ys b l = l
Links-split next prev a (y ∷ xs) x ys b l =
    let (l', r) = Links-split next prev y xs x ys b l.1 in ((l.0, l'), r)

pub all-append :
    (test : Address → Bool) (xs ys : List Address)
    → all test (xs ++ ys) ≡ (all test xs && all test ys)
unfolding all
all-append test [] ys = refl
all-append test (x ∷ xs) ys = ground (arith, all-append test xs ys)

-- A test whose answer changes only at `p` is the same on a list without `p`.
pub all-update :
    (test test' : Address → Bool) (p : Address) (xs : List Address)
    → ((q : Address) → q ≢ p → test' q ≡ test q)
    → listed p xs ≡ false
    → all test' xs ≡ all test xs
unfolding all listed
all-update test test' p [] same out = refl
all-update test test' p (x ∷ xs) same out =
    let here : x ≢ p = ground arith in
    ground (arith, same x here, all-update test test' p xs same (ground arith))

pub all-listed :
    (test : Address → Bool) (p : Address) (xs : List Address)
    → all test xs ≡ true
    → listed p xs ≡ true
    → test p ≡ true
unfolding all listed
all-listed test p [] h l = ground arith
all-listed test p (x ∷ xs) h l = elim (ℕ_discrete p x) [
  | yes e ↦ ground arith
  | no n ↦ all-listed test p xs (ground arith) (ground arith)
]

pub Links-last :
    (next prev : Address → Address) (a : Address) (xs : List Address) (b : Address)
    → Links next prev a xs b
    → (next (last_of a xs) ≡ b) × (prev b ≡ last_of a xs)
Links-last next prev a [] b l = l
Links-last next prev a (x ∷ xs) b l = Links-last next prev x xs b l.1

pub all-first :
    (test : Address → Bool) (xs : List Address) (b : Address)
    → all test xs ≡ true
    → test b ≡ true
    → test (first_of xs b) ≡ true
unfolding all
all-first test [] b h t = t
all-first test (x ∷ xs) b h t = ground arith

pub all-last :
    (test : Address → Bool) (a : Address) (xs : List Address)
    → test a ≡ true
    → all test xs ≡ true
    → test (last_of a xs) ≡ true
unfolding all
all-last test a [] t h = t
all-last test a (x ∷ xs) t h = all-last test x xs (ground arith) (ground arith)
