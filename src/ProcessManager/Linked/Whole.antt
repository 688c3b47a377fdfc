-- ===== src/ProcessManager/Linked/Whole.antt =====
-- The whole of `process_list_refresh` in place and in sequence.
use mathlib.Core.List.{map}
use clueless_task_manager.Base.{
  ◌==◌, ◌+◌, ◌<◌, ◌^◌, ◌≡◌, ◌≢◌, refl, ◌∙◌, ap, subst, true, false, Option, none, some, List, [],
  ◌++◌, length, arith, done, ◌>>=◌, Returns, inl, inr, Bool-cases,
}
use clueless_task_manager.LinkedList.{Address, null}
use clueless_task_manager.LinkedList.Links.{all}
use clueless_task_manager.LinkedList.Owned.{Owns, Owns-same, Owns-trans}
use clueless_task_manager.Process.{Process, ProcessResult, is_success, err_open}
use clueless_task_manager.ProcessManager.{
  Event, Callbacks, Dirent, readdir_loop, mark_processes_inactive, remove_inactive_processes,
  process_list_refresh,
}
use clueless_task_manager.ProcessManager.OnHeap.{remove_inactive-on_heap}
use clueless_task_manager.ProcessManager.Linked.{
  Store, mark_nodes, mark_linked, readdir_linked, remove_linked, refresh_linked,
  process_list_refresh_linked,
}
use clueless_task_manager.ProcessManager.Linked.Finding.{map-mark_nodes}
use clueless_task_manager.ProcessManager.Linked.Cells.{
  Holds, Holds-distinct, fuel-size, foreach-nodes,
}
use clueless_task_manager.ProcessManager.Linked.Looping.{
  entries_in, After, IsSupplied, Ran, readdir_linked-Ran,
}

mark_linked-run :
    {head c : Address} {s : Store} {ps : List Process} (now : Holds head c s ps)
    → mark_linked head s
      ≡ done (record { links = s.links; process = mark_nodes now.nodes s.process })
unfolding mark_linked
mark_linked-run {s = s} now = rw (mark_linked, foreach-nodes {s = s} now) refl

remove_linked-removes :
    (to : Callbacks) {head c : Address} {s : Store} {ps : List Process} (now : Holds head c s ps)
    → length now.nodes < 2 ^ 64
    → Returns (remove_linked to head s) (λ r.
      (r.0 ≡ (remove_inactive_processes to ps).0)
      × ((next : Holds head c r.1 (remove_inactive_processes to ps).1) × Owns s.links now.nodes
            r.1.links next.nodes))
unfolding remove_linked
remove_linked-removes to {head} {c} {s} {ps} now fits =
    let size = fuel-size now in
    let (r, ran, (gone, (kept, list, held, owns))) =
      remove_inactive-on_heap to s.process s.links head c now.nodes now.list fits in
    (
      _,
      rw (remove_linked, size, ran) refl,
      (
        gone ∙ ap (λ qs. (remove_inactive_processes to qs).0) now.held,
        (
          record {
            nodes = kept;
            list = list;
            held = held ∙ ap (λ qs. (remove_inactive_processes to qs).1) now.held;
          },
          owns,
        ),
      ),
    )

abbrev pub proc_entries : Option (List (Dirent × Address)) → Option (List Dirent)
proc_entries none = none
proc_entries (some dir) = some (entries_in dir)

abbrev pub dir_of : Option (List (Dirent × Address)) → List (Dirent × Address)
dir_of none = []
dir_of (some dir) = dir

module _ (to : Callbacks) (head : Address) (dir : List (Dirent × Address)) (s marked : Store)
    (t : ProcessResult × List Event × Store) (mark : mark_linked head s ≡ done marked)
    (ran : readdir_linked to head dir marked ≡ done t) where
  refresh_linked-ends : is_success t.0 ≡ false → refresh_linked to head (some dir) s ≡ done t
  unfolding refresh_linked
  refresh_linked-ends failed = rw (refresh_linked, mark, ran, ◌>>=◌, failed) refl

  refresh_linked-removes :
      {u : List Event × Store}
      → is_success t.0 ≡ true
      → remove_linked to head t.2 ≡ done u
      → refresh_linked to head (some dir) s ≡ done (t.0, t.1 ++ u.0, u.1)
  unfolding refresh_linked
  refresh_linked-removes ok gone = rw (refresh_linked, mark, ran, ◌>>=◌, ok, gone) refl

nodes-allocated :
    {head c : Address} {s : Store} {ps : List Process} (now : Holds head c s ps)
    → all s.links.is_node now.nodes ≡ true
unfolding all
nodes-allocated now = ground (arith, now.list.nodes)

refresh_linked-refines :
    (to : Callbacks) {head c : Address} (dir : Option (List (Dirent × Address))) {s : Store}
    {ps : List Process} (now : Holds head c s ps)
    → After (mark_linked head s) (IsSupplied to head (dir_of dir))
    → length now.nodes + length (dir_of dir) < 2 ^ 64
    → let (result, events, ps') = process_list_refresh to (proc_entries dir) ps in
      Returns (refresh_linked to head dir s) (λ r.
        (r.0 ≡ result)
        × (r.1 ≡ events)
        × ((next : Holds head c r.2 ps') × Owns s.links now.nodes r.2.links next.nodes))
unfolding refresh_linked process_list_refresh
refresh_linked-refines to none {s} {ps} now free fits = (
  (err_open, [], s),
  refl,
  (refl, refl, (now, Owns-same s.links s.links now.nodes (nodes-allocated now) (λ q. refl))),
)
refresh_linked-refines to {head} {c} (some dir) {s} {ps} now free fits =
    let marked : Store = record { links = s.links; process = mark_nodes now.nodes s.process } in
    let (t, ran, run) =
      readdir_linked-Ran to dir marked now.nodes now.list (rw (mark_linked-run now) at free) fits in
    let marks : map marked.process now.nodes ≡ mark_processes_inactive ps =
      map-mark_nodes s.process now.nodes (Holds-distinct now)
      ∙ ap mark_processes_inactive now.held in
    let q = readdir_loop to (entries_in dir) (mark_processes_inactive ps) in
    let run' =
      subst
        (λ qs.
          Ran head c s.links now.nodes (length now.nodes + length dir) t
            (readdir_loop to (entries_in dir) qs))
        marks run in
    elim (Bool-cases (is_success q.0)) [
      | inl ok ↦
          let ok' = ap is_success run'.result ∙ ok in
          let (u, gone, (events, (kept, owns))) =
            remove_linked-removes to run'.now (omega (arith, run'.size)) in
          (
            _,
            refresh_linked-removes to head dir s marked t (mark_linked-run now) ran ok' gone,
            rw ok (run'.result, rw (run'.events, events) refl, (kept, Owns-trans run'.owns owns)),
          )
      | inr failed ↦
          let failed' = ap is_success run'.result ∙ failed in
          (
            _,
            refresh_linked-ends to head dir s marked t (mark_linked-run now) ran failed',
            rw failed (run'.result, run'.events, (run'.now, run'.owns)),
          )
    ]

-- `process_list_refresh` on the linked list is the one on the sequence of its processes: on a list of
-- processes in memory, whose head is not `NULL`, every loop ends, no pointer that is not a node is followed, and the result, the
-- callbacks with the processes they get, in order, and the processes that the list then leads to are
-- those of the sequence, also when the run ends early with an error. No process is lost: one that the
-- run allocates is in the list afterwards or freed, one that leaves the list is freed, and no other node
-- is allocated or freed. What `calloc` gives in the run holds no node at that time, and there are fewer than 2^64
-- processes and entries.
pub process_list_refresh_linked-refines :
    (to : Callbacks) {head c : Address} (dir : Option (List (Dirent × Address))) {s : Store}
    {ps : List Process} (now : Holds head c s ps)
    → head ≢ null
    → After (mark_linked head s) (IsSupplied to head (dir_of dir))
    → length now.nodes + length (dir_of dir) < 2 ^ 64
    → let (result, events, ps') = process_list_refresh to (proc_entries dir) ps in
      Returns (process_list_refresh_linked to head dir s) (λ r.
        (r.0 ≡ result)
        × (r.1 ≡ events)
        × ((next : Holds head c r.2 ps') × Owns s.links now.nodes r.2.links next.nodes))
unfolding process_list_refresh_linked
process_list_refresh_linked-refines to {head} dir now given free fits =
    let test : (head == null) ≡ false = ground arith in
    rw (process_list_refresh_linked, test) (refresh_linked-refines to dir now free fits)
