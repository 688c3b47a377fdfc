-- ===== src/ProcessManager/Refresh.antt =====
-- `process_list_refresh` of src/metrics/process_manager.c as a whole.
use clueless_task_manager.Base.{
  ◌==◌, ◌||◌, listed, distinct, ℕ, ◌≡◌, refl, sym, ◌∙◌, ap, true, false, Bool, ◌&&◌, not, Option,
  none, some, List, [], ◌∷◌, arith,
}
use clueless_task_manager.Process.{Process, is_success}
use clueless_task_manager.ProcessManager.{
  Callbacks, notify, Dirent, readdir_loop, remove_inactive_processes, mark_processes_inactive,
  process_list_refresh,
}
use clueless_task_manager.ProcessManager.Pids.{active-absent, pids, active, pids-mark, active-mark}
use clueless_task_manager.ProcessManager.Visited.{delete, follow, members, Follows}
use clueless_task_manager.ProcessManager.Loop.{
  nonzero_names, alive_since, entries_of, refresh-Looped, follow-append, members-append,
}

-- every process that is removed is told to the observer, and no other
remove-keeps :
    (to : Callbacks) (pid : ℕ) (view : List ℕ) (ps : List Process)
    → listed pid (pids ps) ≡ false
    → let events = (remove_inactive_processes to ps).0 in
      follow (pid ∷ view) events ≡ pid ∷ follow view events
unfolding remove_inactive_processes notify follow delete listed pids
remove-keeps to pid view [] h = refl
remove-keeps to pid view (p ∷ ps) h =
    ground (arith, remove-keeps to pid view ps, remove-keeps to pid (delete p.pid view) ps)

remove-followed :
    (to : Callbacks) (ps : List Process)
    → to.on_removed ≡ true
    → distinct (pids ps) ≡ true
    → let (events, kept) = remove_inactive_processes to ps in follow (pids ps) events ≡ pids kept
unfolding remove_inactive_processes notify follow delete distinct pids
remove-followed to [] on d = refl
remove-followed to (p ∷ ps) on d =
    ground (arith, remove-keeps to p.pid (pids ps) ps, remove-followed to ps on)

remove-listed :
    (to : Callbacks) (ps : List Process) (pid : ℕ)
    → listed pid (pids (remove_inactive_processes to ps).1) ≡ active pid ps
unfolding remove_inactive_processes listed pids active
remove-listed to [] pid = refl
remove-listed to (p ∷ ps) pid = ground (arith, remove-listed to ps pid)

remove-distinct :
    (to : Callbacks) (ps : List Process)
    → distinct (pids ps) ≡ true
    → distinct (pids (remove_inactive_processes to ps).1) ≡ true
unfolding remove_inactive_processes distinct listed pids
remove-distinct to [] d = refl
remove-distinct to (p ∷ ps) d =
    ground (arith, remove-distinct to ps, remove-listed to ps p.pid, active-absent p.pid ps)

-- The pids of the list differ afterwards too.
pub process_list_refresh-distinct :
    (to : Callbacks) (dir : Option (List Dirent)) (ps : List Process)
    → nonzero_names (entries_of dir) ≡ true
    → distinct (pids ps) ≡ true
    → distinct (pids (process_list_refresh to dir ps).2) ≡ true
unfolding process_list_refresh
process_list_refresh-distinct to none ps nonzero d = d
process_list_refresh-distinct to (some dir) ps nonzero d =
    let looped = refresh-Looped to dir ps nonzero d in
    let run = readdir_loop to dir (mark_processes_inactive ps) in
    ground (arith, looped.apart, remove-distinct to run.2)

-- An observer that is told of added and removed processes, and that starts with the pids of the
-- list, has exactly the pids of the list afterwards, in the same order, also when the run ends
-- early with an error. The pids of the list differ, and no entry of /proc names the pid 0.
pub process_list_refresh-followed :
    (to : Callbacks) (dir : Option (List Dirent)) (ps : List Process)
    → to.on_added ≡ true
    → to.on_removed ≡ true
    → nonzero_names (entries_of dir) ≡ true
    → distinct (pids ps) ≡ true
    → let (result, events, ps') = process_list_refresh to dir ps in
      follow (pids ps) events ≡ pids ps'
unfolding process_list_refresh follow
process_list_refresh-followed to none ps on off nonzero d = refl
process_list_refresh-followed to (some dir) ps on off nonzero d =
    let looped = refresh-Looped to dir ps nonzero d in
    let run = readdir_loop to dir (mark_processes_inactive ps) in
    let loop_pids : follow (pids ps) run.1 ≡ pids run.2 =
      ap (λ view. follow view run.1) (sym (pids-mark ps)) ∙ looped.followed on in
    ground (
      arith,
      loop_pids,
      remove-followed to run.2 off looped.apart,
      follow-append (pids ps) run.1 (remove_inactive_processes to run.2).0,
    )

-- After a run that succeeds, the list holds exactly the pids that were read in this run: a pid is in
-- the list if and only if /proc has an entry for it and the last such entry could be read. The
-- pids of the list differed before, and no entry names the pid 0.
pub process_list_refresh-lists :
    (to : Callbacks) (dir : List Dirent) (ps : List Process) (pid : ℕ)
    → nonzero_names dir ≡ true
    → distinct (pids ps) ≡ true
    → is_success (process_list_refresh to (some dir) ps).0 ≡ true
    → listed pid (pids (process_list_refresh to (some dir) ps).2) ≡ alive_since false dir pid
unfolding process_list_refresh
process_list_refresh-lists to dir ps pid nonzero d ok =
    let looped = refresh-Looped to dir ps nonzero d in
    let run = readdir_loop to dir (mark_processes_inactive ps) in
    ground (arith, remove-listed to run.2 pid, looped.marked (ground arith) pid, active-mark pid ps)

-- a process of the list has this pid and is not marked active
unfoldable dead : ℕ → List Process → Bool
dead pid [] = false
dead pid (p ∷ ps) = ((p.pid == pid) && not p.is_active) || dead pid ps

remove-members :
    (to : Callbacks) (set : ℕ → Bool) (ps : List Process) (pid : ℕ)
    → to.on_removed ≡ true
    → members set (remove_inactive_processes to ps).0 pid ≡ (set pid && not (dead pid ps))
unfolding remove_inactive_processes notify members dead
remove-members to set [] pid on = ground arith
remove-members to set (p ∷ ps) pid on = ground (
  arith,
  remove-members to set ps pid on,
  remove-members to (λ q. not (p.pid == q) && set q) ps pid on,
)

dead-absent : (pid : ℕ) (ps : List Process) → listed pid (pids ps) ≡ false → dead pid ps ≡ false
unfolding dead listed pids
dead-absent pid [] h = refl
dead-absent pid (p ∷ ps) h = ground (arith, dead-absent pid ps)

-- Where the pids differ, a listed process is either active or dead.
listed-split :
    (ps : List Process) (pid : ℕ)
    → distinct (pids ps) ≡ true
    → (listed pid (pids ps) && not (dead pid ps)) ≡ active pid ps
unfolding distinct listed pids active dead
listed-split [] pid d = refl
listed-split (p ∷ ps) pid d =
    ground (arith, listed-split ps pid, dead-absent p.pid ps, active-absent p.pid ps)

-- An observer that keeps a set of pids by the callbacks for added and removed processes, and that
-- starts with the pids of the list, has the pids of the list afterwards, also when the run ends
-- early with an error. The pids of the list differ, and no entry of /proc names the pid 0.
pub process_list_refresh-Follows :
    (to : Callbacks) (dir : Option (List Dirent)) (ps : List Process)
    → to.on_added ≡ true
    → to.on_removed ≡ true
    → nonzero_names (entries_of dir) ≡ true
    → distinct (pids ps) ≡ true
    → let (result, events, ps') = process_list_refresh to dir ps in Follows ps events ps'
unfolding process_list_refresh members
process_list_refresh-Follows to none ps on off nonzero d = λ set same. same
process_list_refresh-Follows to (some dir) ps on off nonzero d = λ set same pid.
    let looped = refresh-Looped to dir ps nonzero d in
    let run = readdir_loop to dir (mark_processes_inactive ps) in
    let loop = looped.domain on set (λ q. same q ∙ ap (listed q) (sym (pids-mark ps))) pid in
    ground (
      arith,
      loop,
      members-append set run.1 (remove_inactive_processes to run.2).0 pid,
      remove-members to (members set run.1) run.2 pid off,
      remove-listed to run.2 pid,
      listed-split run.2 pid looped.apart,
    )
