-- ===== src/ProcessManager/Tests.antt =====
-- src/metrics/process_manager.c on a list of two processes, of which one has ended.
use clueless_task_manager.Base.{
  listed, distinct, ◌==◌, if◌then◌else◌, arith, Returns, ℕ, ◌≡◌, refl, true, false, some, List, [],
  ◌∷◌,
}
use clueless_task_manager.Clib.{
  codes, starts_digit, is_digit, read_digits, strchr, strrchr, sscanf, until_nul, skip_space,
  read_number, read_sign, strtoul, is_space,
}
use clueless_task_manager.Process.{
  success_read, Process, Snapshot, blank, is_success, process_read, get_process_name, assign_fields,
}
use clueless_task_manager.ProcessManager.{
  Callbacks, added, Dirent, process_list_refresh, parse_pid, readdir_loop, visit,
  mark_processes_inactive, remove_inactive_processes, add_process, update_process, modify, reread,
  find_process_by_pid, find_from, updates, process_at, notify,
}
use clueless_task_manager.LinkedList.{Address, list_foreach, foreach_from, list_add_node}
use clueless_task_manager.LinkedList.Tests.{two_nodes, two_nodes-IsList}
use clueless_task_manager.ProcessManager.Linked.{
  Store, process_list_refresh_linked, mark_linked, mark_nodes, visit_linked, find_linked, find_at,
  update_linked, add_linked,
}
use clueless_task_manager.LinkedList.Owned.{Owns}
use clueless_task_manager.ProcessManager.Linked.Cells.{Holds}
use clueless_task_manager.ProcessManager.Linked.Looping.{After, IsSupplied}
use clueless_task_manager.ProcessManager.Linked.Whole.{
  proc_entries, process_list_refresh_linked-refines,
}
use clueless_task_manager.ProcessManager.Pids.{pids}
use clueless_task_manager.ProcessManager.Visited.{follow, names}
use clueless_task_manager.ProcessManager.Loop.{alive_since, nonzero_names}
use clueless_task_manager.ProcessManager.Refresh.{
  process_list_refresh-followed, process_list_refresh-lists,
}

abbrev pub observer : Callbacks
observer = record { on_added = true; on_updated = true; on_removed = true }

abbrev running : ℕ → Process
running pid = record blank { pid = pid; is_active = true }

abbrev stat : List ℕ → Snapshot
stat line = record {
  stat_uid = some 0;
  file = some line;
  username = some (codes "root");
  overflow = (success_read, blank);
}

abbrev entry : List ℕ → List ℕ → Dirent
entry name line = record { d_name = name; snapshot = stat line; calloc_ok = true; missing = false }

-- 7 is still there, 9 is new, and 8 has no directory any more
abbrev pub proc : List Dirent
proc =
    entry (codes "7") (codes "7 (init) S 1 1 1 1 1 1 1 1 1 1 11 12 1 1 1 1 1 1 13 1 14")
    ∷ entry (codes "self") []
    ∷ entry (codes "9") (codes "9 (sh) R 1 1 1 1 1 1 1 1 1 1 21 22 1 1 1 1 1 1 23 1 24")
    ∷ []

abbrev before : List Process
before = running 7 ∷ running 8 ∷ []

before-distinct : distinct (pids before) ≡ true
unfolding distinct pids listed
before-distinct = refl

pub proc-nonzero : nonzero_names proc ≡ true
unfolding nonzero_names names parse_pid starts_digit is_digit read_digits
proc-nonzero = refl

proc-read : is_success (process_list_refresh observer (some proc) before).0 ≡ true
unfolding process_list_refresh readdir_loop visit mark_processes_inactive remove_inactive_processes
    add_process update_process modify reread find_process_by_pid find_from updates process_at notify
    is_success parse_pid starts_digit is_digit read_digits process_read get_process_name
    assign_fields strchr strrchr sscanf until_nul skip_space read_number read_sign strtoul is_space
proc-read = refl

process_list_refresh-followed_example :
    follow (pids before) (process_list_refresh observer (some proc) before).1
    ≡ pids (process_list_refresh observer (some proc) before).2
process_list_refresh-followed_example =
    process_list_refresh-followed observer (some proc) before refl refl proc-nonzero before-distinct

process_list_refresh-lists_example :
    listed 8 (pids (process_list_refresh observer (some proc) before).2) ≡ alive_since false proc 8
process_list_refresh-lists_example =
    process_list_refresh-lists observer proc before 8 proc-nonzero before-distinct proc-read

-- node 3 holds the process 7, and node 4 the process 8, which has ended
abbrev entry_of : Address → Process
entry_of p = if p == 3 then running 7 else record blank { pid = 8 }

abbrev linked : Store
linked = record { links = two_nodes; process = entry_of }

abbrev linked_proc : List (Dirent × Address)
linked_proc =
    (entry (codes "7") (codes "7 (init) S 1 1 1 1 1 1 1 1 1 1 11 12 1 1 1 1 1 1 13 1 14"), 6)
    ∷ (entry (codes "self") [], 7)
    ∷ (entry (codes "9") (codes "9 (sh) R 1 1 1 1 1 1 1 1 1 1 21 22 1 1 1 1 1 1 23 1 24"), 8)
    ∷ []

linked-Holds : Holds 1 2 linked (entry_of 3 ∷ entry_of 4 ∷ [])
linked-Holds = record { nodes = 3 ∷ 4 ∷ []; list = two_nodes-IsList; held = refl }

linked_proc-IsSupplied : After (mark_linked 1 linked) (IsSupplied observer 1 linked_proc)
unfolding IsSupplied mark_linked mark_nodes list_foreach foreach_from visit_linked find_linked
    find_at update_linked add_linked list_add_node parse_pid starts_digit is_digit read_digits
    reread process_read get_process_name assign_fields strchr strrchr sscanf until_nul skip_space
    read_number read_sign strtoul is_space is_success notify
linked_proc-IsSupplied = (refl, (refl, (refl, tt)))

process_list_refresh_linked-refines_example :
    let (result, events, ps) =
      process_list_refresh observer
        (proc_entries (some linked_proc))
        (entry_of 3 ∷ entry_of 4 ∷ []) in
    Returns (process_list_refresh_linked observer 1 (some linked_proc) linked) (λ r.
      (r.0 ≡ result)
      × (r.1 ≡ events)
      × ((next : Holds 1 2 r.2 ps) × Owns two_nodes (3 ∷ 4 ∷ []) r.2.links next.nodes))
unfolding linked-Holds
process_list_refresh_linked-refines_example =
    process_list_refresh_linked-refines observer (some linked_proc) linked-Holds (ground arith)
      linked_proc-IsSupplied (omega arith)

abbrev pub seven : Process
seven = record (running 7) {
  name = codes "init";
  uid = 0;
  user = codes "root";
  state = b'S';
  utime = 11;
  stime = 12;
  start_time = 13;
  rss = 14;
}

abbrev pub nine : Process
nine = record (running 9) {
  name = codes "sh";
  uid = 0;
  user = codes "root";
  state = b'R';
  utime = 21;
  stime = 22;
  start_time = 23;
  rss = 24;
}

pub first_events : (process_list_refresh observer (some proc) []).1 ≡ added seven ∷ added nine ∷ []
unfolding process_list_refresh readdir_loop visit mark_processes_inactive remove_inactive_processes
    add_process update_process modify reread find_process_by_pid find_from updates process_at notify
    is_success parse_pid starts_digit is_digit read_digits process_read get_process_name
    assign_fields strchr strrchr sscanf until_nul skip_space read_number read_sign strtoul is_space
first_events = refl

pub first_refresh-is_success : is_success (process_list_refresh observer (some proc) []).0 ≡ true
unfolding process_list_refresh readdir_loop visit mark_processes_inactive remove_inactive_processes
    add_process update_process modify reread find_process_by_pid find_from updates process_at notify
    is_success parse_pid starts_digit is_digit read_digits process_read get_process_name
    assign_fields strchr strrchr sscanf until_nul skip_space read_number read_sign strtoul is_space
first_refresh-is_success = refl

pub refresh_nothing-is_success :
    (ps : List Process) → is_success (process_list_refresh observer (some []) ps).0 ≡ true
unfolding process_list_refresh readdir_loop is_success
refresh_nothing-is_success ps = ground arith
