-- ===== src/ProcessManager/Linked.antt =====
-- src/metrics/process_manager.c on the linked list of src/core/list.c: the nodes lie inside the processes, which are
-- found by address, allocated, freed and written in place.
pub mod Adding
pub mod Cells
pub mod Finding
pub mod Looping
pub mod Visiting
pub mod Whole
use clueless_task_manager.Base.{
  ℕ, ◌+◌, ◌==◌, Bool, true, false, not, Option, none, some, List, [], ◌∷◌, ◌++◌, if◌then◌else◌,
  update, Outcome, done, out_of_fuel, zero, suc, ◌>>=◌,
}
use clueless_task_manager.LinkedList.{
  Address, Heap, get_next, null, list_foreach, list_add_node, list_remove_where,
}
use clueless_task_manager.LinkedList.Traverse.{freed}
use clueless_task_manager.Process.{
  Process, ProcessResult, process_read, blank, is_success, success_read, err_open, err_internal,
  err_invalid_arg,
}
use clueless_task_manager.ProcessManager.{
  Event, added, updated, Callbacks, notify, Dirent, skipped, out_of_range, named, parse_pid, reread,
}
use clueless_task_manager.ProcessManager.OnHeap.{told}

-- the links, and what stands around each node
pub record Store : Type 0 where
  pub links : Heap
  pub process : Address → Process

-- The loops run on fuel of the list's counter and one more.
abbrev pub fuel : Address → Heap → ℕ
fuel head h = h.cell (h.count head) + 1

-- the body of the loop of `mark_processes_inactive`, at each of these nodes
unfoldable pub mark_nodes : List Address → (Address → Process) → Address → Process
mark_nodes [] process = process
mark_nodes (x ∷ xs) process =
    mark_nodes xs (update process x (record (process x) { is_active = false }))

unfoldable pub mark_linked : Address → Store → Outcome Store
unfolding mark_nodes
mark_linked head s = list_foreach (fuel head s.links) head s.links >>= λ r.
    done (record { links = r.1; process = mark_nodes r.0 s.process })

-- the loop of `find_process_by_pid` from `pos` on
unfoldable pub find_at : ℕ → Store → Address → Address → ℕ → Outcome (Option Address)
find_at zero s head pos pid = out_of_fuel
find_at (suc f) s head pos pid = elim (pos == head) [
  | true ↦ done none
  | false ↦ elim ((s.process pos).pid == pid) [
    | true ↦ done (some pos)
    | false ↦ get_next pos s.links >>= λ next. find_at f s head next.0 pid
  ]
]

-- `find_process_by_pid`; `none` is each result but success.
unfoldable pub find_linked : Address → ℕ → Store → Outcome (Option Address)
unfolding find_at
find_linked head pid s =
    if pid == 0
    then done none
    else (get_next head s.links >>= λ first. find_at (fuel head s.links) s head first.0 pid)

-- A new node from `calloc`, all zero.
abbrev pub calloc_node : Address → Heap → Heap
calloc_node a h = record h {
  next = update h.next a null;
  prev = update h.prev a null;
  count = update h.count a null;
  is_node = update h.is_node a true;
}

-- a process that is already in the list
unfoldable pub update_linked : Callbacks → Dirent → Address → Store → List Event × Store
update_linked to entry x s =
    let p = reread entry.snapshot (s.process x) in
    (
      if p.is_active then notify to.on_updated (updated p) else [],
      record s { process = update s.process x p },
    )

-- A process that is not yet in the list; `a` is what `calloc` returns, if it succeeds. `none` leaves the loop with
-- `err_internal`.
unfoldable pub add_linked :
    Callbacks → Address → Dirent → Address → ℕ → Store → Outcome (Option (List Event) × Store)
add_linked to head entry a pid s =
    let (result, p) = process_read entry.snapshot blank in
    let p' = record p { pid = pid; is_active = true } in
    let released = record s { links = freed a (calloc_node a s.links) } in
    if entry.calloc_ok
    then (if is_success result
        then (list_add_node head a (calloc_node a s.links) >>= λ r. done (
          some (notify to.on_added (added p')),
          record { links = r.1; process = update s.process a p' },
        ))
        else done (if entry.missing then some [] else none, released))
    else done (none, s)

-- The body of the `readdir` loop.
unfoldable pub visit_linked :
    Callbacks → Address → Dirent → Address → Store → Outcome (Option (List Event) × Store)
unfolding find_linked update_linked add_linked
visit_linked to head entry a s = elim (parse_pid entry.d_name) [
  | skipped ↦ done (some [], s)
  | out_of_range ↦ done (none, s)
  | named pid ↦ find_linked head pid s >>= λ found. elim found [
    | some x ↦ let (events, s') = update_linked to entry x s in done (some events, s')
    | none ↦ add_linked to head entry a pid s
  ]
]

-- Each entry comes with what `calloc` returns if it is called for it.
unfoldable pub readdir_linked :
    Callbacks
    → Address
    → List (Dirent × Address)
    → Store
    → Outcome (ProcessResult × List Event × Store)
unfolding visit_linked
readdir_linked to head [] s = done (success_read, [], s)
readdir_linked to head ((entry, a) ∷ entries) s = visit_linked to head entry a s >>= λ r. elim r.0 [
  | none ↦ done (err_internal, [], r.1)
  | some events ↦ readdir_linked to head entries r.1 >>= λ t. done (t.0, events ++ t.1, t.2)
]

-- `remove_inactive_processes`
unfoldable pub remove_linked : Callbacks → Address → Store → Outcome (List Event × Store)
remove_linked to head s =
    list_remove_where (fuel head s.links) (λ p. not (s.process p).is_active) head s.links >>= λ r.
    done (told to s.process r.0, record s { links = r.1 })

-- `process_list_refresh` of a list that is not `NULL`
unfoldable pub refresh_linked :
    Callbacks
    → Address
    → Option (List (Dirent × Address))
    → Store
    → Outcome (ProcessResult × List Event × Store)
unfolding mark_linked readdir_linked remove_linked
refresh_linked to head none s = done (err_open, [], s)
refresh_linked to head (some dir) s = mark_linked head s >>= λ marked.
    readdir_linked to head dir marked >>= λ run. elim (is_success run.0) [
      | false ↦ done run
      | true ↦ remove_linked to head run.2 >>= λ r. done (run.0, run.1 ++ r.0, r.1)
    ]

-- `process_list_refresh`
unfoldable pub process_list_refresh_linked :
    Callbacks
    → Address
    → Option (List (Dirent × Address))
    → Store
    → Outcome (ProcessResult × List Event × Store)
unfolding refresh_linked
process_list_refresh_linked to list dir s =
    if list == null then done (err_invalid_arg, [], s) else refresh_linked to list dir s
