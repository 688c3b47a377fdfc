-- ===== src/LinkedList/Add.antt =====
-- `list_init` and `list_add_node` of src/core/list.c.
use clueless_task_manager.Base.{
  update, ◌+◌, ◌<◌, ◌^◌, ◌≡◌, ◌≢◌, refl, sym, subst, ◌∙◌, true, false, ◌==◌, some, List, [], ◌∷◌,
  arith, length, listed, distinct, done, Returns, add_size,
}
use clueless_task_manager.LinkedList.{Address, Heap, list_init, list_add_node}
use clueless_task_manager.LinkedList.Links.{
  Links, IsList, all, first_of, Links-first, Links-set_next, Links-set_prev, all-update,
}

-- the heap behind `list_add_node`
abbrev pub added : Address → Address → Heap → Heap
added head node h =
    let first = h.next head in
    let c = h.count head in
    record h {
      next = update (update h.next node first) head node;
      prev = update (update h.prev node head) first node;
      count = update h.count node c;
      cell = update h.cell c (add_size (h.cell c) 1);
    }

Links-added :
    (next prev : Address → Address) (head node : Address) (xs : List Address)
    → Links next prev head xs head
    → distinct (head ∷ xs) ≡ true
    → listed node (head ∷ xs) ≡ false
    → Links
        (update (update next node (first_of xs head)) head node)
        (update (update prev node head) (first_of xs head) node)
        head
        (node ∷ xs)
        head
unfolding distinct listed
Links-added next prev head node [] l d new = ground arith
Links-added next prev head node (x ∷ xs) l d new =
    let ne : node ≢ head = ground arith in
    let ne' : x ≢ head = ground arith in
    let a : listed node (x ∷ xs) ≡ false = ground arith in
    let b : listed head (x ∷ xs) ≡ false = ground arith in
    let one = Links-set_next next prev node x x xs head a l.1 in
    let two = Links-set_next (update next node x) prev head node x xs head b one in
    let three =
      Links-set_prev (update (update next node x) head node) prev node head x xs head (ground arith)
        ne two in
    (
      (ground arith, ground arith),
      (
        (ground arith, ground arith),
        Links-set_prev _ (update prev node head) x node x xs head (ground arith) ne' three,
      ),
    )

list_add_node-run :
    (head node : Address) (h : Heap)
    → h.is_node head ≡ true
    → h.is_node node ≡ true
    → (node == head) ≡ false
    → h.is_node (h.next head) ≡ true
    → h.is_cell (h.count head) ≡ true
    → list_add_node head node h ≡ done (tt, added head node h)
unfolding list_add_node
list_add_node-run head node h a b e f g = ground arith

first-is_node :
    {h : Heap} {head c : Address} {xs : List Address}
    → IsList h head c xs
    → h.is_node (first_of xs head) ≡ true
unfolding all
first-is_node {xs = []} l = ground (arith, l.nodes)
first-is_node {xs = x ∷ xs} l = ground (arith, l.nodes)

counters-added :
    (count : Address → Address) (c c' node : Address) (xs : List Address)
    → c' ≡ c
    → all (λ p. count p == c) xs ≡ true
    → listed node xs ≡ false
    → all (λ p. update count node c' p == c) xs ≡ true
counters-added count c c' node xs e h out =
    all-update (λ p. count p == c) (λ p. update count node c' p == c) node xs (λ q ne. ground arith)
      out
    ∙ h

-- the run, and the list that it leaves
pub list_add_node-added :
    (head c node : Address) (xs : List Address) (h : Heap)
    → IsList h head c xs
    → h.is_node node ≡ true
    → listed node (head ∷ xs) ≡ false
    → length xs + 1 < 2 ^ 64
    → (list_add_node head node h ≡ done (tt, added head node h))
      × IsList (added head node h) head c (node ∷ xs)
unfolding all distinct listed
list_add_node-added head c node xs h l ok new fits =
    let (onward, back) = Links-first h.next h.prev head xs head l.links in
    let first_ok : h.is_node (h.next head) ≡ true = rw onward (first-is_node l) in
    let counter : h.count head ≡ c = ground (arith, l.counters) in
    let cell_ok : h.is_cell (h.count head) ≡ true = rw counter l.allocated in
    (
      list_add_node-run head node h (ground (arith, l.nodes)) ok (ground arith) first_ok cell_ok,
      record {
        links =
            subst
              (λ first.
                Links (update (update h.next node first) head node)
                  (update (update h.prev node head) first node) head (node ∷ xs) head)
              (sym onward) (Links-added h.next h.prev head node xs l.links l.apart new);
        nodes = ground (arith, l.nodes);
        counters = ground (
          arith,
          l.counters,
          counters-added h.count c (h.count head) node xs counter (ground (arith, l.counters))
              (ground arith),
        );
        allocated = l.allocated;
        counted = ground (arith, l.counted);
        apart = ground (arith, l.apart);
      },
    )

-- Adding a new node to a list that has fewer than 2^64 - 1 nodes and not this one ends with no
-- fault, puts it in front of all others, and counts it.
pub list_add_node-IsList :
    (head c node : Address) (xs : List Address) (h : Heap)
    → IsList h head c xs
    → h.is_node node ≡ true
    → listed node (head ∷ xs) ≡ false
    → length xs + 1 < 2 ^ 64
    → Returns (list_add_node head node h) (λ r. IsList r.1 head c (node ∷ xs))
list_add_node-IsList head c node xs h l ok new fits =
    let (ran, list) = list_add_node-added head c node xs h l ok new fits in
    ((tt, added head node h), ran, list)

-- A head that `list_init` has set up, if its `malloc` succeeds, is an empty list.
pub list_init-IsList :
    (head c : Address) (h : Heap)
    → h.is_node head ≡ true
    → Returns (list_init (some c) head h) (λ r. IsList r.1 head c [])
unfolding list_init all distinct listed
list_init-IsList head c h ok =
    let made = record h {
      next = update h.next head head;
      prev = update h.prev head head;
      count = update h.count head c;
      cell = update h.cell c 0;
      is_cell = update h.is_cell c true;
    } in
    (
      (tt, made),
      ground arith,
      record {
        links = ground arith;
        nodes = ground arith;
        counters = ground arith;
        allocated = ground arith;
        counted = ground arith;
        apart = refl;
      },
    )
