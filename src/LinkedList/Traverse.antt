-- ===== src/LinkedList/Traverse.antt =====
-- The loops of include/core/list.h: LIST_FOREACH, and LIST_FOREACH_SAFE with a body that deletes.
use mathlib.Core.List.{append_assoc}
use clueless_task_manager.Base.{
  ◌&&◌, not, update, ℕ, zero, suc, ◌+◌, ◌<◌, ◌^◌, ◌≡◌, refl, sym, subst, ◌∙◌, Bool, true, false,
  ◌==◌, if◌then◌else◌, List, [], ◌∷◌, ◌++◌, arith, length, length-append, listed, distinct,
  listed-append, distinct-middle, Bool-cases, done, Returns, inl, inr,
}
use clueless_task_manager.LinkedList.{
  Address, Heap, foreach_from, list_foreach, foreach_safe_from, list_remove_where, list_delete_node,
}
use clueless_task_manager.LinkedList.Links.{
  Links, IsList, all, all-append, first_of, Links-first, Links-split, all-first, all-update,
}
use clueless_task_manager.LinkedList.Delete.{deleted, deleted-IsList, delete-done}

foreach_from-nodes :
    (h : Heap) (head a : Address) (xs : List Address) (f : ℕ)
    → Links h.next h.prev a xs head
    → all h.is_node xs ≡ true
    → listed head xs ≡ false
    → length xs < f
    → foreach_from f head (first_of xs head) h ≡ done (xs, h)
unfolding foreach_from all listed
foreach_from-nodes h head a xs zero l n out le = absurd (omega arith)
foreach_from-nodes h head a [] (suc f) l n out le = ground arith
foreach_from-nodes h head a (x ∷ xs) (suc f) l n out le =
    let (step, back) = Links-first h.next h.prev x xs head l.1 in
    let rest = foreach_from-nodes h head x xs f l.1 (ground arith) (ground arith) (omega arith) in
    ground (arith, rest)

-- `LIST_FOREACH` visits the nodes of the list in order, ends, and changes nothing.
pub list_foreach-nodes :
    (h : Heap) (head c : Address) (xs : List Address)
    → IsList h head c xs
    → list_foreach (length xs + 1) head h ≡ done (xs, h)
unfolding list_foreach all distinct
list_foreach-nodes h head c xs l =
    let (step, back) = Links-first h.next h.prev head xs head l.links in
    let walk =
      foreach_from-nodes h head head xs (length xs + 1) l.links (ground (arith, l.nodes))
        (ground (arith, l.apart)) (omega arith) in
    ground (arith, l.nodes, walk)

-- The nodes that pass a test, and those that do not.
unfoldable pub passing : (Address → Bool) → List Address → List Address
passing test [] = []
passing test (x ∷ xs) = if test x then x ∷ passing test xs else passing test xs

unfoldable pub failing : (Address → Bool) → List Address → List Address
failing test [] = []
failing test (x ∷ xs) = if test x then failing test xs else x ∷ failing test xs

abbrev pub freed : Address → Heap → Heap
freed x h = record h { is_node = update h.is_node x false }

pub freed-IsList :
    (h : Heap) (head c x : Address) (xs : List Address)
    → IsList h head c xs
    → listed x (head ∷ xs) ≡ false
    → IsList (freed x h) head c xs
freed-IsList h head c x xs l out = record {
  links = l.links;
  nodes =
      all-update h.is_node (update h.is_node x false) x (head ∷ xs) (λ q ne. ground arith) out
      ∙ l.nodes;
  counters = l.counters;
  allocated = l.allocated;
  counted = l.counted;
  apart = l.apart;
}

step_removed :
    (f : ℕ) (test : Address → Bool) (head z n : Address) (h h1 h' : Heap) (rest : List Address)
    → (z == head) ≡ false
    → test z ≡ true
    → list_delete_node z h ≡ done (tt, h1)
    → h1.is_node z ≡ true
    → (freed z h1).is_node n ≡ true
    → foreach_safe_from f test head n (h1.next n) (freed z h1) ≡ done (rest, h')
    → foreach_safe_from (suc f) test head z n h ≡ done (z ∷ rest, h')
unfolding foreach_safe_from
step_removed f test head z n h h1 h' rest a b e g k r = rw (a, b, e, g, k, r, foreach_safe_from)

step_kept :
    (f : ℕ) (test : Address → Bool) (head z n : Address) (h h' : Heap) (rest : List Address)
    → (z == head) ≡ false
    → test z ≡ false
    → h.is_node n ≡ true
    → foreach_safe_from f test head n (h.next n) h ≡ done (rest, h')
    → foreach_safe_from (suc f) test head z n h ≡ done (rest, h')
unfolding foreach_safe_from
step_kept f test head z n h h' rest a b k r = rw (a, b, k, r, foreach_safe_from)

-- `n` is what LIST_FOREACH_SAFE holds beside the first of these nodes.
abbrev IsAhead : List Address → Address → Address → Type 0
IsAhead [] head n = Unit {0}
IsAhead (z ∷ zs) head n = n ≡ first_of zs head

IsAhead-next :
    (h : Heap) (head c : Address) (ys zs : List Address)
    → IsList h head c (ys ++ zs)
    → IsAhead zs head (h.next (first_of zs head))
IsAhead-next h head c ys [] l = tt
IsAhead-next h head c ys (z ∷ zs) l =
    let (l1, l2) = Links-split h.next h.prev head ys z zs head l.links in
    (Links-first h.next h.prev z zs head l2).0

first_is_node :
    (h : Heap) (head c : Address) (ys zs : List Address)
    → IsList h head c (ys ++ zs)
    → h.is_node (first_of zs head) ≡ true
unfolding all
first_is_node h head c ys zs l =
    all-first h.is_node zs head (ground (arith, l.nodes, all-append h.is_node ys zs))
      (ground (arith, l.nodes))

-- of the nodes that are allocated, the ones that are left when these are freed
abbrev pub Frees : List Address → Heap → Heap → Type 0
Frees gone h h' = (q : Address) → h'.is_node q ≡ (h.is_node q && not (listed q gone))

foreach_safe_from-IsList :
    (h : Heap) (head c : Address) (test : Address → Bool) (ys zs : List Address) (n : Address)
    (f : ℕ)
    → IsList h head c (ys ++ zs)
    → IsAhead zs head n
    → length (ys ++ zs) < 2 ^ 64
    → length zs < f
    → Returns (foreach_safe_from f test head (first_of zs head) n h) (λ r.
      (r.0 ≡ passing test zs)
      × IsList r.1 head c (ys ++ failing test zs)
      × Frees (passing test zs) h r.1)
unfolding passing failing distinct listed all
foreach_safe_from-IsList h head c test ys zs n zero l ahead fits le = absurd (omega arith)
foreach_safe_from-IsList h head c test ys [] n (suc f) l ahead fits le =
    (([], h), (unfold foreach_safe_from in ground arith), (refl, l, λ q. ground arith))
foreach_safe_from-IsList h head c test ys (z ∷ zs) n (suc f) l ahead fits le =
    let other : (z == head) ≡ false = ground (arith, l.apart, listed-append head ys (z ∷ zs)) in
    elim (Bool-cases (test z)) [
      | inl hit ↦
          let l1 = deleted-IsList head c ys z zs h l fits in
          let out : listed z (head ∷ (ys ++ zs)) ≡ false =
            ground (arith, l.apart, distinct-middle ys z zs) in
          let node : h.is_node z ≡ true =
            ground (arith, l.nodes, all-append h.is_node ys (z ∷ zs)) in
          let l2 = freed-IsList (deleted z h) head c z (ys ++ zs) l1 out in
          let h2 = freed z (deleted z h) in
          let size : length (ys ++ zs) < 2 ^ 64 =
            omega (arith, length-append ys zs, length-append ys (z ∷ zs)) in
          let (r, run, (same, kept, frees)) =
            foreach_safe_from-IsList h2 head c test ys zs (h2.next (first_of zs head)) f l2
              (IsAhead-next h2 head c ys zs l2) size (omega arith) in
          (
            (z ∷ r.0, r.1),
            rw ahead (
                step_removed f test head z (first_of zs head) h (deleted z h) r.1 r.0 other hit
                  (delete-done head c ys z zs h l) node (first_is_node h2 head c ys zs l2) run),
            (ground (arith, same), rw hit kept, λ q. ground (arith, hit, frees q)),
          )
      | inr miss ↦
          let joined = append_assoc ys (z ∷ []) zs in
          let l1 = subst (λ xs. IsList h head c xs) (sym joined) l in
          let (r, run, (same, kept, frees)) =
            foreach_safe_from-IsList h head c test (ys ++ z ∷ []) zs (h.next (first_of zs head)) f
              l1 (IsAhead-next h head c (ys ++ z ∷ []) zs l1) (rw joined fits) (omega arith) in
          (
            r,
            rw ahead (
                step_kept f test head z (first_of zs head) h r.1 r.0 other miss
                  (first_is_node h head c (ys ++ z ∷ []) zs l1) run),
            (
              ground (arith, same),
              rw miss (
                  subst (λ xs. IsList r.1 head c xs) (append_assoc ys (z ∷ []) (failing test zs))
                    kept),
              λ q. ground (arith, miss, frees q),
            ),
          )
    ]

-- On a list of fewer than 2^64 nodes, LIST_FOREACH_SAFE with a body that deletes and frees the nodes
-- that pass a test ends with no fault, so it reads no node that is freed; it removes those nodes in
-- the order of the list, and the others stay in the list in their order. What it removes is freed, and nothing else.
pub list_remove_where-IsList :
    (h : Heap) (head c : Address) (test : Address → Bool) (xs : List Address)
    → IsList h head c xs
    → length xs < 2 ^ 64
    → Returns (list_remove_where (length xs + 1) test head h) (λ r.
      (r.0 ≡ passing test xs) × IsList r.1 head c (failing test xs) × Frees (passing test xs) h r.1)
unfolding list_remove_where all
list_remove_where-IsList h head c test xs l fits =
    let (step, back) = Links-first h.next h.prev head xs head l.links in
    let (r, run, out) =
      foreach_safe_from-IsList h head c test [] xs (h.next (first_of xs head)) (length xs + 1) l
        (IsAhead-next h head c [] xs l) fits (omega arith) in
    (r, ground (arith, l.nodes, run, first_is_node h head c [] xs l), out)
