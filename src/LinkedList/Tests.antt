-- ===== src/LinkedList/Tests.antt =====
-- src/core/list.c on a heap with a list of two nodes.
use clueless_task_manager.Base.{
  ◌≡◌, refl, ◌||◌, ◌==◌, if◌then◌else◌, [], ◌∷◌, arith, listed, distinct, Returns,
}
use clueless_task_manager.LinkedList.{
  Heap, null, list_add_node, list_delete_node, list_remove_where,
}
use clueless_task_manager.LinkedList.Links.{IsList, all}
use clueless_task_manager.LinkedList.Add.{list_add_node-IsList}
use clueless_task_manager.LinkedList.Delete.{list_delete_node-IsList}
use clueless_task_manager.LinkedList.Traverse.{passing, failing, Frees, list_remove_where-IsList}

-- The head is at 1, its counter at 2, and the nodes at 3 and 4; the node at 5 is in no list.
abbrev pub two_nodes : Heap
two_nodes = record {
  next = λ p. if p == 1 then 3 else (if p == 3 then 4 else 1);
  prev = λ p. if p == 1 then 4 else (if p == 3 then 1 else 3);
  count = λ p. 2;
  is_node = λ p. (p == 1) || ((p == 3) || ((p == 4) || (p == 5)));
  cell = λ p. 2;
  is_cell = λ p. p == 2;
}

pub two_nodes-IsList : IsList two_nodes 1 2 (3 ∷ 4 ∷ [])
unfolding all distinct listed
two_nodes-IsList = record {
  links = ((refl, refl), ((refl, refl), (refl, refl)));
  nodes = refl;
  counters = refl;
  allocated = refl;
  counted = refl;
  apart = refl;
}

list_add_node-IsList_example :
    Returns (list_add_node 1 5 two_nodes) (λ r. IsList r.1 1 2 (5 ∷ 3 ∷ 4 ∷ []))
unfolding listed
list_add_node-IsList_example =
    list_add_node-IsList 1 2 5 (3 ∷ 4 ∷ []) two_nodes two_nodes-IsList refl refl (omega arith)

list_delete_node-IsList_example : Returns (list_delete_node 4 two_nodes) (λ r.
    IsList r.1 1 2 (3 ∷ []) × (r.1.next 4 ≡ null) × (r.1.prev 4 ≡ null) × (r.1.count 4 ≡ null))
list_delete_node-IsList_example =
    list_delete_node-IsList 1 2 (3 ∷ []) 4 [] two_nodes two_nodes-IsList (omega arith)

list_remove_where-IsList_example : Returns (list_remove_where 3 (λ p. p == 3) 1 two_nodes) (λ r.
    (r.0 ≡ passing (λ p. p == 3) (3 ∷ 4 ∷ []))
    × IsList r.1 1 2 (failing (λ p. p == 3) (3 ∷ 4 ∷ []))
    × Frees (passing (λ p. p == 3) (3 ∷ 4 ∷ [])) two_nodes r.1)
list_remove_where-IsList_example =
    list_remove_where-IsList two_nodes 1 2 (λ p. p == 3) (3 ∷ 4 ∷ []) two_nodes-IsList (omega arith)
