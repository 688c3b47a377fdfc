-- ===== src/LinkedList.antt =====
-- src/core/list.c and include/core/list.h: the circular doubly linked list with its head, on a heap.
pub mod Links
pub mod Add
pub mod Delete
pub mod Traverse
pub mod Owned
pub mod Tests
use clueless_task_manager.Base.{
  ℕ, zero, suc, Bool, true, false, Option, none, some, List, [], ◌∷◌, ◌==◌, if◌then◌else◌, Outcome,
  done, fault, out_of_fuel, add_size, sub_size, update,
}

abbrev pub Address : Type 0
Address = ℕ

abbrev pub null : Address
null = 0

-- `struct list_node` and the counters, a map for each field. `is_node` and `is_cell` say which addresses
-- hold a node, or a counter; a read or write elsewhere, such as through `NULL`, is a fault.
pub record Heap : Type 0 where
  pub next : Address → Address
  pub prev : Address → Address
  pub count : Address → Address
  pub is_node : Address → Bool
  pub cell : Address → ℕ
  pub is_cell : Address → Bool

-- what one statement does to the heap
abbrev pub HeapAction : Type 0 → Type 0
HeapAction A = Heap → Outcome (A × Heap)

abbrev pub pure : {A : Type 0} → A → HeapAction A
pure a = λ h. done (a, h)

-- the statement behind one that has run
abbrev pub proceed : {A B : Type 0} → (A → HeapAction B) → Outcome (A × Heap) → Outcome (B × Heap)
proceed next out_of_fuel = out_of_fuel
proceed next fault = fault
proceed next (done (a, h)) = next a h

infixl 5 ◌>>=◌
abbrev pub ◌>>=◌ : {A B : Type 0} → HeapAction A → (A → HeapAction B) → HeapAction B
first >>= next = λ h. proceed next (first h)

infixl 5 ◌>>◌
abbrev pub ◌>>◌ : {A B : Type 0} → HeapAction A → HeapAction B → HeapAction B
first >> second = first >>= λ _. second

abbrev pub get_next : Address → HeapAction Address
get_next p h = if h.is_node p then done (h.next p, h) else fault

abbrev pub get_prev : Address → HeapAction Address
get_prev p h = if h.is_node p then done (h.prev p, h) else fault

abbrev pub get_count : Address → HeapAction Address
get_count p h = if h.is_node p then done (h.count p, h) else fault

abbrev pub set_next : Address → Address → HeapAction (Unit {0})
set_next p q h = if h.is_node p then done (tt, record h { next = update h.next p q }) else fault

abbrev pub set_prev : Address → Address → HeapAction (Unit {0})
set_prev p q h = if h.is_node p then done (tt, record h { prev = update h.prev p q }) else fault

abbrev pub set_count : Address → Address → HeapAction (Unit {0})
set_count p c h = if h.is_node p then done (tt, record h { count = update h.count p c }) else fault

-- `*c` and `*c = n`
abbrev pub load : Address → HeapAction ℕ
load c h = if h.is_cell c then done (h.cell c, h) else fault

abbrev pub store : Address → ℕ → HeapAction (Unit {0})
store c n h = if h.is_cell c then done (tt, record h { cell = update h.cell c n }) else fault

-- `free` of what holds the node
abbrev pub free : Address → HeapAction (Unit {0})
free p h = if h.is_node p then done (tt, record h { is_node = update h.is_node p false }) else fault

-- `malloc(sizeof(size_t))`: the address of a new counter, `none` for `NULL`.
abbrev pub malloc_cell : Option Address → HeapAction Address
malloc_cell none h = done (null, h)
malloc_cell (some c) h = done (c, record h { is_cell = update h.is_cell c true })

-- `list_init`; the result of `malloc` is not checked.
unfoldable pub list_init : Option Address → Address → HeapAction (Unit {0})
list_init malloc head = do
  set_next head head
  set_prev head head
  new_count ← malloc_cell malloc
  set_count head new_count
  c ← get_count head
  store c 0

unfoldable pub list_count : Address → HeapAction ℕ
list_count node = do c ← get_count node; load c

unfoldable pub list_add_node : Address → Address → HeapAction (Unit {0})
list_add_node head new_node = do
  first ← get_next head
  set_next new_node first
  set_prev new_node head
  c ← get_count head
  set_count new_node c
  first' ← get_next head
  set_prev first' new_node
  set_next head new_node
  c' ← get_count head
  n ← load c'
  store c' (add_size n 1)

unfoldable pub list_delete_node : Address → HeapAction (Unit {0})
list_delete_node node = do
  next ← get_next node
  prev ← get_prev node
  set_prev next prev
  prev' ← get_prev node
  next' ← get_next node
  set_next prev' next'
  c ← get_count node
  n ← load c
  store c (sub_size n 1)
  set_next node null
  set_prev node null
  set_count node null

-- `LIST_FOREACH`, from `pos` on: the values that `pos` takes.
unfoldable pub foreach_from : ℕ → Address → Address → HeapAction (List Address)
foreach_from zero head pos h = out_of_fuel
foreach_from (suc f) head pos h = elim (pos == head) [
  | true ↦ done ([], h)
  | false ↦ (do next ← get_next pos; rest ← foreach_from f head next; pure (pos ∷ rest)) h
]

unfoldable pub list_foreach : ℕ → Address → HeapAction (List Address)
unfolding foreach_from
list_foreach f head = do first ← get_next head; foreach_from f head first

-- `LIST_FOREACH_SAFE` from `pos` and `n` on, with the body of `remove_inactive_processes`: what passes
-- the test is taken out of the list and freed. The result is the nodes that are removed.
unfoldable pub foreach_safe_from :
    ℕ → (Address → Bool) → Address → Address → Address → HeapAction (List Address)
unfolding list_delete_node
foreach_safe_from zero test head pos n h = out_of_fuel
foreach_safe_from (suc f) test head pos n h = elim (pos == head) [
  | true ↦ done ([], h)
  | false ↦ elim (test pos) [
    | true ↦
        (do
          list_delete_node pos
          free pos
          n' ← get_next n
          rest ← foreach_safe_from f test head n n'
          pure (pos ∷ rest))
          h
    | false ↦ (do n' ← get_next n; foreach_safe_from f test head n n') h
  ]
]

unfoldable pub list_remove_where : ℕ → (Address → Bool) → Address → HeapAction (List Address)
unfolding foreach_safe_from
list_remove_where f test head = do
  first ← get_next head
  n ← get_next first
  foreach_safe_from f test head first n
