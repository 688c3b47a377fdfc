-- ===== src/ProcessManager/OnHeap.antt =====
-- The list of src/metrics/process_manager.c on the heap of src/core/list.c.
use mathlib.Core.List.{map}
use clueless_task_manager.Base.{
  ◌+◌, ◌<◌, ◌^◌, ◌≡◌, refl, Bool, not, if◌then◌else◌, List, [], ◌∷◌, arith, length, Returns,
}
use clueless_task_manager.LinkedList.{Address, Heap, list_remove_where}
use clueless_task_manager.LinkedList.Links.{IsList, all}
use clueless_task_manager.LinkedList.Owned.{Owns, Owns-failing}
use clueless_task_manager.LinkedList.Traverse.{failing, passing, list_remove_where-IsList}
use clueless_task_manager.Process.{Process}
use clueless_task_manager.ProcessManager.{
  Callbacks, Event, removed, notify, remove_inactive_processes,
}

-- `LIST_ENTRY`: the process around a node
abbrev inactive : (Address → Process) → Address → Bool
inactive entry p = not (entry p).is_active

map-failing :
    (to : Callbacks) (entry : Address → Process) (xs : List Address)
    → map entry (failing (inactive entry) xs) ≡ (remove_inactive_processes to (map entry xs)).1
unfolding failing remove_inactive_processes
map-failing to entry [] = refl
map-failing to entry (x ∷ xs) = ground (arith, map-failing to entry xs)

-- the calls of `on_process_removed` for these nodes
abbrev pub told : Callbacks → (Address → Process) → List Address → List Event
told to entry [] = []
told to entry (x ∷ xs) =
    if to.on_removed then removed (entry x) ∷ told to entry xs else told to entry xs

told-passing :
    (to : Callbacks) (entry : Address → Process) (xs : List Address)
    → told to entry (passing (inactive entry) xs) ≡ (remove_inactive_processes to (map entry xs)).0
unfolding passing remove_inactive_processes notify
told-passing to entry [] = refl
told-passing to entry (x ∷ xs) = ground (arith, told-passing to entry xs)

-- The loop of `remove_inactive_processes` on a heap with a list of fewer than 2^64 nodes, which
-- deletes and frees the nodes of inactive processes as it goes, ends with no fault; the nodes that
-- stay hold the processes that the function on sequences keeps, in the same order, and those that go
-- are the ones it tells the observer of, and are freed.
pub remove_inactive-on_heap :
    (to : Callbacks) (entry : Address → Process) (h : Heap) (head c : Address) (xs : List Address)
    → IsList h head c xs
    → length xs < 2 ^ 64
    → let (events, kept) = remove_inactive_processes to (map entry xs) in
      Returns (list_remove_where (length xs + 1) (λ p. not (entry p).is_active) head h) (λ r.
        (told to entry r.0 ≡ events)
        × ((ys : List Address) × IsList r.1 head c ys × (map entry ys ≡ kept) × Owns h xs r.1 ys))
unfolding all
remove_inactive-on_heap to entry h head c xs l fits =
    let (r, run, (gone, kept, frees)) =
      list_remove_where-IsList h head c (inactive entry) xs l fits in
    (
      r,
      run,
      (
        rw gone (told-passing to entry xs),
        (
          failing (inactive entry) xs,
          kept,
          map-failing to entry xs,
          Owns-failing h r.1 (inactive entry) xs (ground (arith, l.nodes)) frees,
        ),
      ),
    )
