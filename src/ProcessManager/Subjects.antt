-- ===== src/ProcessManager/Subjects.antt =====
-- Which pids the callbacks of `process_list_refresh` of src/metrics/process_manager.c are about.
use clueless_task_manager.Base.{
  ◌&&◌, ℕ, zero, suc, ◌≡◌, refl, sym, ◌∙◌, ap, true, Bool, Option, none, some, List, [], ◌∷◌, ◌++◌,
  arith, Option-cases, Bool-cases, ℕ_discrete, subst, inl, inr,
}
use clueless_task_manager.Process.{Process}
use clueless_task_manager.Process.Read.{readable}
use clueless_task_manager.ProcessManager.{
  Event, added, updated, removed, Callbacks, find_from, modify, process_at, reread, notify, updates,
  Dirent, skipped, out_of_range, named, parse_pid, visit, update_process, add_process, readdir_loop,
  mark_processes_inactive, remove_inactive_processes, process_list_refresh,
}
use clueless_task_manager.ProcessManager.Pids.{pids, reread-pid, pids-modify, pids-mark}
use clueless_task_manager.ProcessManager.Visit.{
  PidName-cases, visit-skipped, visit-out_of_range, visit-found, visit-new, visit-zero,
  add_process-read, add_process-unread, add_process-room,
}
use clueless_task_manager.ProcessManager.Loop.{entries_of, readdir_loop-stops, readdir_loop-turns}

-- the process of an event
abbrev pub subject : Event → Process
subject (added p) = p
subject (updated p) = p
subject (removed p) = p

module _ (test : ℕ → Bool) where
  unfoldable pub all_of : List ℕ → Bool
  all_of [] = true
  all_of (pid ∷ rest) = test pid && all_of rest

  unfoldable pub all_subjects : List Event → Bool
  all_subjects [] = true
  all_subjects (e ∷ events) = test (subject e).pid && all_subjects events

  -- the pid that an entry names passes, if it names one
  unfoldable pub named_passes : Dirent → Bool
  named_passes entry = elim (parse_pid entry.d_name) [
    | skipped ↦ true
    | out_of_range ↦ true
    | named pid ↦ test pid
  ]

  unfoldable pub all_named : List Dirent → Bool
  unfolding named_passes
  all_named [] = true
  all_named (entry ∷ entries) = named_passes entry && all_named entries

  -- the events and the list of a part of the refresh are about passing pids
  abbrev about : List Event × List Process → Bool
  about r = all_subjects r.0 && all_of (pids r.1)

  all_subjects-append :
      (events events' : List Event)
      → all_subjects (events ++ events') ≡ (all_subjects events && all_subjects events')
  unfolding all_subjects
  all_subjects-append [] events' = refl
  all_subjects-append (e ∷ events) events' = ground (arith, all_subjects-append events events')

  updates-about :
      (to : Callbacks) (k : ℕ) (ps : List Process)
      → all_of (pids ps) ≡ true
      → all_subjects (updates to (process_at k ps)) ≡ true
  unfolding all_of all_subjects pids updates notify process_at
  updates-about to k [] h = refl
  updates-about to zero (p ∷ ps) h = ground arith
  updates-about to (suc k) (p ∷ ps) h = updates-about to k ps (ground arith)

  update_process-about :
      (to : Callbacks) (entry : Dirent) (k : ℕ) (ps : List Process)
      → all_of (pids ps) ≡ true
      → about (update_process to entry.snapshot k ps) ≡ true
  unfolding update_process
  update_process-about to entry k ps h =
      let same = ap all_of (pids-modify k (reread entry.snapshot) ps (reread-pid entry.snapshot)) in
      ground (arith, same, updates-about to k (modify k (reread entry.snapshot) ps) (same ∙ h))

  outcome-about :
      {r r' : List Event × List Process}
      → ◌≡◌ {A = Option (List Event × List Process)} (some r) (some r')
      → about r ≡ true
      → about r' ≡ true
  outcome-about {r} e h =
      subst (λ q. about q ≡ true) (ap (λ o. elim o [ none ↦ r | some q ↦ q ]) e) h

  add_process-about :
      (to : Callbacks) (entry : Dirent) (ps : List Process) (pid : ℕ)
      {r : List Event × List Process}
      → test pid ≡ true
      → all_of (pids ps) ≡ true
      → add_process to entry pid ps ≡ some r
      → about r ≡ true
  unfolding all_of all_subjects pids notify
  add_process-about to entry ps pid passes h ran = elim (Bool-cases (readable entry.snapshot)) [
    | inl read ↦
        outcome-about
          (sym (add_process-read to entry ps pid (add_process-room to entry ps pid ran) read) ∙ ran)
          (ground arith)
    | inr unread ↦ outcome-about (add_process-unread to entry ps pid unread ran) h
  ]

  visit-about :
      (to : Callbacks) (entry : Dirent) (ps : List Process) {r : List Event × List Process}
      → named_passes entry ≡ true
      → all_of (pids ps) ≡ true
      → visit to entry ps ≡ some r
      → about r ≡ true
  unfolding named_passes all_subjects
  visit-about to entry ps passes h ran = elim (PidName-cases (parse_pid entry.d_name)) [
    | inl (inl parsed) ↦ outcome-about (sym (visit-skipped to entry ps parsed) ∙ ran) h
    | inl (inr parsed) ↦ ground (arith, visit-out_of_range to entry ps parsed)
    | inr (pid, parsed) ↦ elim (Option-cases (find_from ps pid 0)) [
      | inl found ↦
          add_process-about to entry ps pid (ground arith) h
            (sym (visit-new to entry ps pid parsed found) ∙ ran)
      | inr (k, found) ↦ elim (ℕ_discrete pid 0) [
        | yes zero_pid ↦
            add_process-about to entry ps pid (ground arith) h
              (sym (visit-zero to entry ps pid parsed zero_pid) ∙ ran)
        | no nonzero ↦
            outcome-about (sym (visit-found to entry ps pid k parsed nonzero found) ∙ ran)
              (update_process-about to entry k ps h)
      ]
    ]
  ]

  readdir_loop-about :
      (to : Callbacks) (entries : List Dirent) (ps : List Process)
      → all_named entries ≡ true
      → all_of (pids ps) ≡ true
      → let run = readdir_loop to entries ps in about (run.1, run.2) ≡ true
  unfolding readdir_loop all_named all_subjects
  readdir_loop-about to [] ps pass h = h
  readdir_loop-about to (entry ∷ entries) ps pass h = elim (Option-cases (visit to entry ps)) [
    | inl stops ↦ rw (readdir_loop-stops to entry entries ps stops) h
    | inr ((events, ps'), ran) ↦
        let turn = visit-about to entry ps {r = (events, ps')} (ground arith) h ran in
        let rest = readdir_loop-about to entries ps' (ground arith) (ground arith) in
        rw (readdir_loop-turns to entry entries ps events ps' ran)
          (ground (arith, all_subjects-append events (readdir_loop to entries ps').1))
  ]

  remove_inactive_processes-about :
      (to : Callbacks) (ps : List Process)
      → all_of (pids ps) ≡ true
      → about (remove_inactive_processes to ps) ≡ true
  unfolding remove_inactive_processes all_of all_subjects pids notify
  remove_inactive_processes-about to [] h = refl
  remove_inactive_processes-about to (p ∷ ps) h =
      ground (arith, remove_inactive_processes-about to ps)

  -- If every pid of the list and every pid that /proc names passes a test, so does the pid of every
  -- process that a callback gets, and every pid of the list afterwards.
  pub process_list_refresh-about :
      (to : Callbacks) (dir : Option (List Dirent)) (ps : List Process)
      → all_named (entries_of dir) ≡ true
      → all_of (pids ps) ≡ true
      → let run = process_list_refresh to dir ps in about (run.1, run.2) ≡ true
  unfolding process_list_refresh all_subjects
  process_list_refresh-about to none ps pass h = h
  process_list_refresh-about to (some dir) ps pass h =
      let marked = ap all_of (pids-mark ps) ∙ h in
      let run = readdir_loop to dir (mark_processes_inactive ps) in
      let looped = readdir_loop-about to dir (mark_processes_inactive ps) pass marked in
      ground (
        arith,
        looped,
        remove_inactive_processes-about to run.2,
        all_subjects-append run.1 (remove_inactive_processes to run.2).0,
      )
