-- ===== src/LinkedList/Delete.antt =====
-- `list_delete_node` of src/core/list.c.
use clueless_task_manager.Base.{
  update, ◌<◌, ◌^◌, ◌≡◌, ◌≢◌, true, false, ◌==◌, List, [], ◌∷◌, ◌++◌, arith, length, length-append,
  listed, distinct, listed-append, distinct-middle, done, Returns, sub_size,
}
use clueless_task_manager.LinkedList.{Address, null, Heap, list_delete_node}
use clueless_task_manager.LinkedList.Links.{
  Links, IsList, all, all-append, first_of, last_of, Links-first, Links-split, Links-set_next,
  Links-set_prev, all-update, Links-last, all-first, all-last,
}

-- the heap behind `list_delete_node`
abbrev pub deleted : Address → Heap → Heap
deleted node h =
    let after = h.next node in
    let before = h.prev node in
    let c = h.count node in
    record h {
      next = update (update h.next before after) node null;
      prev = update (update h.prev after before) node null;
      count = update h.count node null;
      cell = update h.cell c (sub_size (h.cell c) 1);
    }

first_of-ne :
    (y : Address) (zs : List Address) (b : Address)
    → b ≢ y
    → listed y zs ≡ false
    → first_of zs b ≢ y
unfolding listed
first_of-ne y [] b ne out = ne
first_of-ne y (z ∷ zs) b ne out = ground arith

last_of-ne : (a y : Address) (ys : List Address) → listed a (y ∷ ys) ≡ false → last_of y ys ≢ a
unfolding listed
last_of-ne a y [] out = ground arith
last_of-ne a y (z ∷ ys) out = last_of-ne a z ys (ground arith)

-- The path that skips a node.
Links-skip :
    (next prev : Address → Address) (before after a : Address) (ys : List Address) (x : Address)
    (zs : List Address) (b : Address)
    → before ≡ last_of a ys
    → after ≡ first_of zs b
    → Links next prev a (ys ++ x ∷ zs) b
    → distinct (ys ++ x ∷ zs) ≡ true
    → listed a (ys ++ x ∷ zs) ≡ false
    → listed b (ys ++ x ∷ zs) ≡ false
    → Links
        (update (update next before after) x null)
        (update (update prev after before) x null)
        a
        (ys ++ zs)
        b
unfolding distinct listed
Links-skip next prev before after a [] x [] b eb ea l d oa ob = ground arith
Links-skip next prev before after a [] x (z ∷ zs) b eb ea l d oa ob =
    let one = Links-set_next next prev before after z zs b (ground arith) l.1.1 in
    let two = Links-set_next (update next before after) prev x null z zs b (ground arith) one in
    let three = Links-set_prev _ prev after before z zs b (ground arith) (ground arith) two in
    (
      ground arith,
      Links-set_prev _ (update prev after before) x null z zs b (ground arith) (ground arith) three,
    )
Links-skip next prev before after a (y ∷ ys) x zs b eb ea l d oa ob =
    let rest =
      Links-skip next prev before after y ys x zs b eb ea l.1 (ground arith) (ground arith)
        (ground arith) in
    let out : listed a (y ∷ ys) ≡ false = ground (arith, listed-append a (y ∷ ys) (x ∷ zs)) in
    let ne = last_of-ne a y ys out in
    let ne' : after ≢ y =
      rw ea (first_of-ne y zs b (ground arith) (ground (arith, listed-append y ys (x ∷ zs)))) in
    (ground (arith, listed-append a ys (x ∷ zs), listed-append y ys (x ∷ zs)), rest)

list_delete_node-run :
    (node : Address) (h : Heap)
    → h.is_node node ≡ true
    → h.is_node (h.next node) ≡ true
    → h.is_node (h.prev node) ≡ true
    → (h.next node == node) ≡ false
    → h.is_cell (h.count node) ≡ true
    → list_delete_node node h ≡ done (tt, deleted node h)
unfolding list_delete_node
list_delete_node-run node h a b e f g = ground arith

-- What the list says about one of its nodes.
record IsInside (h : Heap) (head c : Address) (ys : List Address) (x : Address) (zs : List Address)
    : Type 0 where
  before : h.prev x ≡ last_of head ys
  after : h.next x ≡ first_of zs head
  node : h.is_node x ≡ true
  before_node : h.is_node (h.prev x) ≡ true
  after_node : h.is_node (h.next x) ≡ true
  turn : (h.next x == x) ≡ false
  counter : h.count x ≡ c

inside :
    (h : Heap) (head c : Address) (ys : List Address) (x : Address) (zs : List Address)
    → IsList h head c (ys ++ x ∷ zs)
    → IsInside h head c ys x zs
unfolding all distinct listed
inside h head c ys x zs l =
    let (l1, l2) = Links-split h.next h.prev head ys x zs head l.links in
    let before = (Links-last h.next h.prev head ys x l1).1 in
    let after = (Links-first h.next h.prev x zs head l2).0 in
    let nodes = l.nodes in
    let parts = all-append h.is_node ys (x ∷ zs) in
    let counts = all-append (λ p. h.count p == c) ys (x ∷ zs) in
    let out = distinct-middle ys x zs in
    let other : head ≢ x = ground (arith, l.apart, listed-append head ys (x ∷ zs)) in
    let rest : listed x zs ≡ false = ground (arith, l.apart, listed-append x ys zs) in
    let ne : h.next x ≢ x = rw after (first_of-ne x zs head other rest) in
    record {
      before = before;
      after = after;
      node = ground arith;
      before_node = rw before (all-last h.is_node head ys (ground arith) (ground arith));
      after_node = rw after (all-first h.is_node zs head (ground arith) (ground arith));
      turn = ground arith;
      counter = ground (arith, l.counters);
    }

-- The heap behind the deletion has the list without the node.
pub deleted-IsList :
    (head c : Address) (ys : List Address) (x : Address) (zs : List Address) (h : Heap)
    → IsList h head c (ys ++ x ∷ zs)
    → length (ys ++ x ∷ zs) < 2 ^ 64
    → IsList (deleted x h) head c (ys ++ zs)
unfolding all distinct listed
deleted-IsList head c ys x zs h l fits =
    let i = inside h head c ys x zs l in
    record {
      links =
          Links-skip h.next h.prev (h.prev x) (h.next x) head ys x zs head i.before i.after l.links
            (ground (arith, l.apart)) (ground (arith, l.apart)) (ground (arith, l.apart));
      nodes = ground (arith, l.nodes, all-append h.is_node ys (x ∷ zs), all-append h.is_node ys zs);
      counters = ground (
        arith,
        l.counters,
        all-append (λ p. h.count p == c) ys (x ∷ zs),
        all-append (λ p. h.count p == c) ys zs,
        listed-append head ys (x ∷ zs),
        all-update (λ p. h.count p == c) (λ p. update h.count x null p == c) x (ys ++ zs)
            (λ q ne. ground arith) (ground (arith, l.apart, distinct-middle ys x zs)),
      );
      allocated = l.allocated;
      counted =
          ground (arith, l.counted, i.counter, length-append ys (x ∷ zs), length-append ys zs);
      apart = ground (
        arith,
        l.apart,
        distinct-middle ys x zs,
        listed-append head ys (x ∷ zs),
        listed-append head ys zs,
      );
    }

pub delete-done :
    (head c : Address) (ys : List Address) (x : Address) (zs : List Address) (h : Heap)
    → IsList h head c (ys ++ x ∷ zs)
    → list_delete_node x h ≡ done (tt, deleted x h)
delete-done head c ys x zs h l =
    let i = inside h head c ys x zs l in
    list_delete_node-run x h i.node i.after_node i.before_node i.turn (rw i.counter l.allocated)

-- Deleting a node of a list of fewer than 2^64 nodes ends with no fault; the list then has the other
-- nodes in the same order and one fewer in its counter, and the node's own pointers are NULL.
pub list_delete_node-IsList :
    (head c : Address) (ys : List Address) (x : Address) (zs : List Address) (h : Heap)
    → IsList h head c (ys ++ x ∷ zs)
    → length (ys ++ x ∷ zs) < 2 ^ 64
    → Returns (list_delete_node x h) (λ r.
      IsList r.1 head c (ys ++ zs)
      × (r.1.next x ≡ null)
      × (r.1.prev x ≡ null)
      × (r.1.count x ≡ null))
list_delete_node-IsList head c ys x zs h l fits = (
  (tt, deleted x h),
  delete-done head c ys x zs h l,
  (deleted-IsList head c ys x zs h l fits, ground arith, ground arith, ground arith),
)
