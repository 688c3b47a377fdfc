-- ===== src/GtkProcessTab/Listing.antt =====
-- A process list as src/ui/gtk/process_tab.c relies on it: the one of src/metrics/process_manager.c, whose refresh has
-- other arguments, in the place of the one that is not in the repository.
use clueless_task_manager.Base.{
  ℕ, ◌^◌, ◌≡◌, ◌≢◌, refl, Bool, true, not, ◌&&◌, ltb, Option, List, [], ◌∷◌, distinct, length, ℤ,
  arith,
}
use clueless_task_manager.HashMap.Keys.{Key, same, same_iff}
use clueless_task_manager.Process.{Process}
use clueless_task_manager.ProcessManager.{Event, Callbacks, Dirent, process_list_refresh}
use clueless_task_manager.ProcessManager.Pids.{pids}
use clueless_task_manager.ProcessManager.Loop.{nonzero_names, entries_of}
use clueless_task_manager.ProcessManager.Refresh.{
  process_list_refresh-distinct, process_list_refresh-Follows,
}
use clueless_task_manager.ProcessManager.Subjects.{
  subject, all_of, all_subjects, all_named, process_list_refresh-about,
}
use clueless_task_manager.GtkProcessTab.{as_int, ProcessLists}
use clueless_task_manager.GtkProcessTab.Domain.{IsUsable}
use clueless_task_manager.GtkProcessTab.Update.{IsProcessLists, TellsUsable}

-- every function of the observer is given
abbrev observer : Callbacks
observer = record { on_added = true; on_updated = true; on_removed = true }

module _ ⦃key : Key ℤ⦄ where
  -- the pid is that of an `unsigned int`, and not the key that TOMBSTONE reads as
  unfoldable pub usable : ℕ → Bool
  usable pid = ltb pid (2 ^ 32) && not (same (as_int pid) key.placeholder)

  usable-real : (pid : ℕ) → usable pid ≡ true → as_int pid ≢ key.placeholder
  unfolding usable
  usable-real pid h e = let is_same = (same_iff (as_int pid) key.placeholder).1 e in ground arith

  all_subjects-IsUsable :
      (events : List Event) → all_subjects usable events ≡ true → IsUsable events
  unfolding all_subjects IsUsable usable
  all_subjects-IsUsable [] h = refl
  all_subjects-IsUsable (e ∷ events) h = (
    ground arith,
    usable-real (subject e).pid (ground arith),
    all_subjects-IsUsable events (ground arith),
  )

  -- lists of processes with different pids that are usable
  abbrev pub Listed : Type 0
  Listed = (ps : List Process) × (distinct (pids ps) ≡ true) × (all_of usable (pids ps) ≡ true)

  -- what /proc holds, where no entry names the pid 0, and each pid that one names is usable
  abbrev pub Readings : Type 0
  Readings =
      (dir : Option (List Dirent)) × (nonzero_names (entries_of dir) ≡ true)
      × (all_named usable (entries_of dir) ≡ true)

  pub refreshed : Readings → Listed → List Event × Listed
  unfolding all_subjects
  refreshed (dir, nonzero, named) (ps, apart, fine) =
      let run = process_list_refresh observer dir ps in
      let about = process_list_refresh-about usable observer dir ps named fine in
      (run.1, (run.2, process_list_refresh-distinct observer dir ps nonzero apart, ground arith))

  abbrev pub process_manager : ProcessLists
  process_manager = record {
    ProcessList = Listed;
    Answers = Readings;
    process_list_refresh = refreshed;
    process_list_get_count = λ list. length (pids list.0);
  }

  -- The refresh of src/metrics/process_manager.c is one that the tab can rely on.
  unfoldable pub process_manager-IsProcessLists : IsProcessLists process_manager
  unfolding refreshed
  process_manager-IsProcessLists = record {
    pids_of = λ list. pids list.0;
    apart = λ list. list.1;
    count = λ list. refl;
    told = λ answers list set same pid.
        process_list_refresh-Follows observer answers.0 list.0 refl refl answers.1 list.1 set same
          pid;
  }

  pub process_manager-TellsUsable : TellsUsable process_manager
  unfolding refreshed
  process_manager-TellsUsable (dir, nonzero, named) (ps, apart, fine) =
      let about = process_list_refresh-about usable observer dir ps named fine in
      all_subjects-IsUsable (process_list_refresh observer dir ps).1 (ground arith)
