-- ===== src/LinkedList/Owned.antt =====
-- Which nodes are allocated beside a list of src/core/list.c, when the list changes.
use clueless_task_manager.Base.{
  ◌≡◌, refl, ap, ◌∙◌, Bool, true, false, ◌&&◌, ◌||◌, not, ◌==◌, ==→eq, List, [], ◌∷◌, listed, arith,
  inl, inr, Bool-cases,
}
use clueless_task_manager.LinkedList.{Address, Heap}
use clueless_task_manager.LinkedList.Links.{all, all-listed}
use clueless_task_manager.LinkedList.Traverse.{passing, failing, Frees}

-- From a list of the nodes `xs` on `h` to one of the nodes `ys` on `h'`: each node that has come was free, each that
-- has gone is freed, and no other is allocated or freed.
pub record Owns (h : Heap) (xs : List Address) (h' : Heap) (ys : List Address) : Type 0 where
  pub owned : (q : Address) → h'.is_node q ≡ (listed q ys || (h.is_node q && not (listed q xs)))
  pub came : (q : Address) → listed q ys ≡ true → h.is_node q ≡ true → listed q xs ≡ true

listed_is_node :
    (h : Heap) (xs : List Address) (q : Address)
    → all h.is_node xs ≡ true
    → h.is_node q ≡ (listed q xs || (h.is_node q && not (listed q xs)))
listed_is_node h xs q nodes = elim (Bool-cases (listed q xs)) [
  | inl inside ↦ ground (arith, inside, all-listed h.is_node q xs nodes inside)
  | inr outside ↦ ground (arith, outside)
]

pub Owns-same :
    (h h' : Heap) (xs : List Address)
    → all h.is_node xs ≡ true
    → ((q : Address) → h'.is_node q ≡ h.is_node q)
    → Owns h xs h' xs
Owns-same h h' xs nodes alike = record {
  owned = λ q. alike q ∙ listed_is_node h xs q nodes;
  came = λ q inside node. inside;
}

owned_trans :
    (l0 l1 l2 n0 n1 n2 : Bool)
    → n1 ≡ (l1 || (n0 && not l0))
    → n2 ≡ (l2 || (n1 && not l1))
    → (l1 ≡ true → n0 ≡ true → l0 ≡ true)
    → n2 ≡ (l2 || (n0 && not l0))
owned_trans true true l2 n0 n1 n2 a b c = ground arith
owned_trans false true l2 true n1 n2 a b c = let absurd_case = c refl refl in ground arith
owned_trans false true l2 false n1 n2 a b c = ground arith
owned_trans true false l2 n0 n1 n2 a b c = ground arith
owned_trans false false l2 n0 n1 n2 a b c = ground arith

came_trans :
    (l0 l1 l2 n0 n1 : Bool)
    → n1 ≡ (l1 || (n0 && not l0))
    → (l1 ≡ true → n0 ≡ true → l0 ≡ true)
    → (l2 ≡ true → n1 ≡ true → l1 ≡ true)
    → l2 ≡ true
    → n0 ≡ true
    → l0 ≡ true
came_trans true l1 l2 n0 n1 a b c d e = refl
came_trans false true l2 n0 n1 a b c d e = b refl e
came_trans false false l2 n0 n1 a b c d e = let absurd_case = c d (ground arith) in ground arith

pub Owns-trans :
    {h h1 h2 : Heap} {xs ys zs : List Address}
    → Owns h xs h1 ys
    → Owns h1 ys h2 zs
    → Owns h xs h2 zs
Owns-trans {h} {h1} {h2} {xs} {ys} {zs} a b = record {
  owned = λ q.
      owned_trans (listed q xs) (listed q ys) (listed q zs) (h.is_node q) (h1.is_node q)
        (h2.is_node q) (a.owned q) (b.owned q) (a.came q);
  came = λ q.
      came_trans (listed q xs) (listed q ys) (listed q zs) (h.is_node q) (h1.is_node q) (a.owned q)
        (a.came q) (b.came q);
}

listed-parts :
    (test : Address → Bool) (q : Address) (xs : List Address)
    → (listed q (passing test xs) ≡ (listed q xs && test q))
      × (listed q (failing test xs) ≡ (listed q xs && not (test q)))
unfolding listed passing failing
listed-parts test q [] = (refl, refl)
listed-parts test q (x ∷ xs) =
    let (pass, fail) = listed-parts test q xs in
    elim (Bool-cases (q == x)) [
      | inl here ↦ let alike = ap test (==→eq q x here) in ground (arith, pass, fail, alike)
      | inr there ↦ ground (arith, pass, fail, there)
    ]

-- Freeing the nodes that pass a test.
pub Owns-failing :
    (h h' : Heap) (test : Address → Bool) (xs : List Address)
    → all h.is_node xs ≡ true
    → Frees (passing test xs) h h'
    → Owns h xs h' (failing test xs)
Owns-failing h h' test xs nodes frees = record {
  owned = λ q.
      let (pass, fail) = listed-parts test q xs in
      ground (arith, frees q, pass, fail, listed_is_node h xs q nodes);
  came = λ q inside node. let (pass, fail) = listed-parts test q xs in ground arith;
}

-- Adding a node that was free.
pub Owns-added :
    (h h' : Heap) (a : Address) (xs : List Address)
    → all h.is_node xs ≡ true
    → h.is_node a ≡ false
    → ((q : Address) → h'.is_node q ≡ ((q == a) || h.is_node q))
    → Owns h xs h' (a ∷ xs)
unfolding listed
Owns-added h h' a xs nodes free more = record {
  owned = λ q. ground (arith, more q, listed_is_node h xs q nodes);
  came = λ q inside node. ground arith;
}
