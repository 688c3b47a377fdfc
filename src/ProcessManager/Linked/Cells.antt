-- ===== src/ProcessManager/Linked/Cells.antt =====
-- The list of the store: what it holds, and the nodes that are allocated and freed beside it.
use mathlib.Core.List.{map}
use clueless_task_manager.Base.{
  ◌==◌, ◌+◌, ◌≡◌, ◌∙◌, ap, true, false, List, ◌∷◌, length, listed, distinct, update, arith, done,
  inl, inr, Bool-cases,
}
use clueless_task_manager.LinkedList.{Address, Heap, null, list_foreach}
use clueless_task_manager.LinkedList.Links.{
  IsList, all, all-update, all-listed, Links-set_next, Links-set_prev,
}
use clueless_task_manager.LinkedList.Traverse.{list_foreach-nodes}
use clueless_task_manager.Process.{Process}
use clueless_task_manager.ProcessManager.Linked.{Store, fuel, calloc_node}

-- What is free is no node of the list.
pub free-unlisted :
    (h : Heap) (a : Address) (xs : List Address)
    → all h.is_node xs ≡ true
    → h.is_node a ≡ false
    → listed a xs ≡ false
free-unlisted h a xs nodes free = elim (Bool-cases (listed a xs)) [
  | inl inside ↦ ground (arith, all-listed h.is_node a xs nodes inside)
  | inr outside ↦ outside
]

-- Neither allocating a node nor freeing one that is not in the list touches the list.
pub calloc_node-IsList :
    (h : Heap) (head c a : Address) (xs : List Address)
    → IsList h head c xs
    → listed a (head ∷ xs) ≡ false
    → IsList (calloc_node a h) head c xs
unfolding listed
calloc_node-IsList h head c a xs l out = record {
  links =
      Links-set_prev (update h.next a null) h.prev a null head xs head (ground arith) (ground arith)
        (Links-set_next h.next h.prev a null head xs head out l.links);
  nodes =
      all-update h.is_node (update h.is_node a true) a (head ∷ xs) (λ q ne. ground arith) out
      ∙ l.nodes;
  counters =
      all-update (λ p. h.count p == c) (λ p. update h.count a null p == c) a (head ∷ xs)
        (λ q ne. ground arith) out
      ∙ l.counters;
  allocated = l.allocated;
  counted = l.counted;
  apart = l.apart;
}

-- the list of the store is the sequence
pub record Holds (head c : Address) (s : Store) (ps : List Process) : Type 0 where
  pub nodes : List Address
  pub list : IsList s.links head c nodes
  pub held : map s.process nodes ≡ ps

pub fuel-size :
    {head c : Address} {s : Store} {ps : List Process} (now : Holds head c s ps)
    → fuel head s.links ≡ length now.nodes + 1
unfolding all
fuel-size {head} {c} {s} now =
    let counter : s.links.count head ≡ c = ground (arith, now.list.counters) in
    ap (λ a. s.links.cell a + 1) counter ∙ ap (λ n. n + 1) now.list.counted

pub Holds-distinct :
    {head c : Address} {s : Store} {ps : List Process} (now : Holds head c s ps)
    → distinct now.nodes ≡ true
unfolding distinct
Holds-distinct now = ground (arith, now.list.apart)

pub foreach-nodes :
    {head c : Address} {s : Store} {ps : List Process} (now : Holds head c s ps)
    → list_foreach (fuel head s.links) head s.links ≡ done (now.nodes, s.links)
foreach-nodes {head} {c} {s} now =
    rw (fuel-size now) (list_foreach-nodes s.links head c now.nodes now.list)
