-- ===== src/ProcessManager.antt =====
-- src/metrics/process_manager.c: the list of processes, brought up to date from /proc. The list is
-- the sequence of its nodes behind the head; a pointer to a process is its position.
pub mod Pids
pub mod Visited
pub mod Visit
pub mod Loop
pub mod Refresh
pub mod Subjects
pub mod OnHeap
pub mod Linked
pub mod Tests
use clueless_task_manager.Base.{
  ℕ, zero, suc, ◌+◌, ◌-◌, ◌%◌, ◌^◌, Bool, true, false, ◌&&◌, ◌||◌, Option, none, some, List, [],
  ◌∷◌, ◌++◌, ◌==◌, leb, if◌then◌else◌, not,
}
use clueless_task_manager.Clib.{is_digit, starts_digit, read_digits}
use clueless_task_manager.Process.{
  Process, ProcessResult, Snapshot, process_read, is_success, blank, success_read, err_invalid_arg,
  err_not_found, err_open, err_internal,
}

pub mark_processes_inactive : List Process → List Process
mark_processes_inactive [] = []
mark_processes_inactive (p ∷ ps) = record p { is_active = false } ∷ mark_processes_inactive ps

-- The calls of the three callbacks. One that is `NULL` is not called and not in the list.
pub data Event : Type 0 where
  added : Process → Event
  updated : Process → Event
  removed : Process → Event

-- Which of the callbacks are given.
pub record Callbacks : Type 0 where
  pub on_added : Bool
  pub on_updated : Bool
  pub on_removed : Bool

unfoldable pub notify : Bool → Event → List Event
notify callback event = if callback then event ∷ [] else []

pub remove_inactive_processes : Callbacks → List Process → List Event × List Process
unfolding notify
remove_inactive_processes to [] = ([], [])
remove_inactive_processes to (p ∷ ps) =
    let (events, rest) = remove_inactive_processes to ps in
    if p.is_active then (events, p ∷ rest) else (notify to.on_removed (removed p) ++ events, rest)

-- the position of the first process with this pid, `k` at the front
pub find_from : List Process → ℕ → ℕ → Option ℕ
find_from [] pid k = none
find_from (p ∷ ps) pid k =
    let rest = find_from ps pid (suc k) in if p.pid == pid then some k else rest

pub find_process_by_pid : List Process → ℕ → ProcessResult × Option ℕ
unfolding find_from
find_process_by_pid ps pid =
    if pid == 0 then (err_invalid_arg, none) else elim (find_from ps pid 0) [
      | none ↦ (err_not_found, none)
      | some k ↦ (success_read, some k)
    ]

-- `process_read(upid, existing_process)` and the assignment of `is_active`
pub reread : Snapshot → Process → Process
unfolding is_success
reread snap p =
    let (result, p') = process_read snap p in record p' { is_active = is_success result }

-- Applies a function to the process at a position.
pub modify : ℕ → (Process → Process) → List Process → List Process
modify k f [] = []
modify zero f (p ∷ ps) = f p ∷ ps
modify (suc k) f (p ∷ ps) = p ∷ modify k f ps

pub process_at : ℕ → List Process → List Process
process_at k [] = []
process_at zero (p ∷ ps) = p ∷ []
process_at (suc k) (p ∷ ps) = process_at k ps

-- One entry of the directory, and what the system answers when the code asks for the process.
-- `missing` says that `errno` is `ENOENT` after a failed read.
pub record Dirent : Type 0 where
  pub d_name : List ℕ
  pub snapshot : Snapshot
  pub calloc_ok : Bool
  pub missing : Bool

pub data PidName : Type 0 where
  skipped out_of_range : PidName
  named : ℕ → PidName

-- The tests on `d_name` and the cast to `unsigned int`. The name starts with a digit, so `strtol`
-- reads at least that, and answers LONG_MAX for a value that is larger.
unfoldable pub parse_pid : List ℕ → PidName
parse_pid name =
    if starts_digit name
    then (let (n, rest) = read_digits 0 name in
        elim rest [
          | c ∷ rest' ↦ skipped
          | [] ↦
              if leb (2 ^ 63 - 1) n
              then out_of_range
              else (if n == 0 then skipped else named (n % 2 ^ 32))
        ])
    else skipped

pub updates : Callbacks → List Process → List Event
unfolding notify
updates to [] = []
updates to (p ∷ ps) = if p.is_active then notify to.on_updated (updated p) else []

-- a process that is already in the list, at position `k`
pub update_process : Callbacks → Snapshot → ℕ → List Process → List Event × List Process
unfolding modify reread process_at updates
update_process to snap k ps =
    let ps' = modify k (reread snap) ps in (updates to (process_at k ps'), ps')

-- a process that is not yet in the list; `none` leaves the loop with `err_internal`
pub add_process : Callbacks → Dirent → ℕ → List Process → Option (List Event × List Process)
unfolding notify is_success
add_process to entry pid ps =
    let (result, p) = process_read entry.snapshot blank in
    let p' = record p { pid = pid; is_active = true } in
    if entry.calloc_ok
    then (if is_success result
        then some (notify to.on_added (added p'), p' ∷ ps)
        else (if entry.missing then some ([], ps) else none))
    else none

-- The body of the `readdir` loop.
pub visit : Callbacks → Dirent → List Process → Option (List Event × List Process)
unfolding parse_pid find_process_by_pid update_process add_process
visit to entry ps = elim (parse_pid entry.d_name) [
  | skipped ↦ some ([], ps)
  | out_of_range ↦ none
  | named pid ↦
      let (result, found) = find_process_by_pid ps pid in
      elim found [
        | some k ↦ some (update_process to entry.snapshot k ps)
        | none ↦ add_process to entry pid ps
      ]
]

pub readdir_loop :
    Callbacks → List Dirent → List Process → ProcessResult × List Event × List Process
unfolding visit
readdir_loop to [] ps = (success_read, [], ps)
readdir_loop to (entry ∷ entries) ps = elim (visit to entry ps) [
  | none ↦ (err_internal, [], ps)
  | some (events, ps') ↦
      let (result, events', ps'') = readdir_loop to entries ps' in (result, events ++ events', ps'')
]

-- `process_list_refresh`: `dir` is `none` if `opendir` fails, else the entries that `readdir` gives.
pub process_list_refresh :
    Callbacks → Option (List Dirent) → List Process → ProcessResult × List Event × List Process
unfolding mark_processes_inactive readdir_loop is_success remove_inactive_processes
process_list_refresh to none ps = (err_open, [], ps)
process_list_refresh to (some dir) ps =
    let (result, events, ps') = readdir_loop to dir (mark_processes_inactive ps) in
    let (events', kept) = remove_inactive_processes to ps' in
    if is_success result then (result, events ++ events', kept) else (result, events, ps')
