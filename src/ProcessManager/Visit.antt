-- ===== src/ProcessManager/Visit.antt =====
-- One turn of the `readdir` loop of src/metrics/process_manager.c, by cases on the entry.
use clueless_task_manager.Base.{
  listed, distinct, ℕ, ◌≡◌, ◌≢◌, refl, sym, ◌∙◌, ap, true, false, Option, none, some, List, [], ◌∷◌,
  arith, Option-cases, Bool-cases, subst, ◌⊎◌, inl, inr,
}
use clueless_task_manager.Process.{Process, process_read, blank}
use clueless_task_manager.Process.Read.{readable, process_read-readable}
use clueless_task_manager.ProcessManager.{
  Event, added, Callbacks, find_from, find_process_by_pid, notify, Dirent, PidName, skipped,
  out_of_range, named, parse_pid, visit, update_process, add_process,
}
use clueless_task_manager.ProcessManager.Pids.{pids, find_from-none}
use clueless_task_manager.ProcessManager.Visited.{
  names, Visited, unchanged-Visited, missing-Visited, added-Visited, updated-Visited,
}

pub PidName-cases :
    (r : PidName) → ((r ≡ skipped) ⊎ (r ≡ out_of_range)) ⊎ ((pid : ℕ) × (r ≡ named pid))
PidName-cases skipped = inl (inl refl)
PidName-cases out_of_range = inl (inr refl)
PidName-cases (named pid) = inr (pid, refl)

pub visit-skipped :
    (to : Callbacks) (entry : Dirent) (ps : List Process)
    → parse_pid entry.d_name ≡ skipped
    → visit to entry ps ≡ some ([], ps)
unfolding visit
visit-skipped to entry ps parsed = ground (arith)

pub visit-out_of_range :
    (to : Callbacks) (entry : Dirent) (ps : List Process)
    → parse_pid entry.d_name ≡ out_of_range
    → visit to entry ps ≡ none
unfolding visit
visit-out_of_range to entry ps parsed = ground (arith)

pub visit-found :
    (to : Callbacks) (entry : Dirent) (ps : List Process) (pid k : ℕ)
    → parse_pid entry.d_name ≡ named pid
    → pid ≢ 0
    → find_from ps pid 0 ≡ some k
    → visit to entry ps ≡ some (update_process to entry.snapshot k ps)
unfolding visit find_process_by_pid
visit-found to entry ps pid k parsed nonzero found = ground (arith, parsed, found)

pub visit-new :
    (to : Callbacks) (entry : Dirent) (ps : List Process) (pid : ℕ)
    → parse_pid entry.d_name ≡ named pid
    → find_from ps pid 0 ≡ none
    → visit to entry ps ≡ add_process to entry pid ps
unfolding visit find_process_by_pid
visit-new to entry ps pid parsed found = ground (arith, parsed, found)

pub visit-zero :
    (to : Callbacks) (entry : Dirent) (ps : List Process) (pid : ℕ)
    → parse_pid entry.d_name ≡ named pid
    → pid ≡ 0
    → visit to entry ps ≡ add_process to entry pid ps
unfolding visit find_process_by_pid
visit-zero to entry ps pid parsed zero_pid = ground (arith, parsed, zero_pid)

outcome-Visited :
    {to : Callbacks} {entry : Dirent} {ps qs ps' : List Process} {events events' : List Event}
    → Visited to entry ps events' qs
    → ◌≡◌ {A = Option (List Event × List Process)} (some (events', qs)) (some (events, ps'))
    → Visited to entry ps events ps'
outcome-Visited {to} {entry} {ps} {qs} {events' = events'} v e =
    subst {A = List Event × List Process} (λ r. Visited to entry ps r.0 r.1)
      (ap (λ o. elim o [ none ↦ (events', qs) | some r ↦ r ]) e) v

pub add_process-read :
    (to : Callbacks) (entry : Dirent) (ps : List Process) (pid : ℕ)
    → entry.calloc_ok ≡ true
    → readable entry.snapshot ≡ true
    → let p : Process = record (process_read entry.snapshot blank).1 {
      pid = pid;
      is_active = true;
    } in
      add_process to entry pid ps ≡ some (notify to.on_added (added p), p ∷ ps)
unfolding add_process notify
add_process-read to entry ps pid room read =
    ground (arith, process_read-readable entry.snapshot blank)

pub add_process-unread :
    (to : Callbacks) (entry : Dirent) (ps : List Process) (pid : ℕ)
    → {r : List Event × List Process} → readable entry.snapshot ≡ false
    → add_process to entry pid ps ≡ some r
    → some ([], ps) ≡ some r
unfolding add_process notify
add_process-unread to entry ps pid read ran =
    ground (arith, process_read-readable entry.snapshot blank)

pub add_process-room :
    (to : Callbacks) (entry : Dirent) (ps : List Process) (pid : ℕ)
    → {r : List Event × List Process} → add_process to entry pid ps ≡ some r
    → entry.calloc_ok ≡ true
unfolding add_process
add_process-room to entry ps pid ran = ground arith

add_process-Visited :
    (to : Callbacks) (entry : Dirent) (ps : List Process) (pid : ℕ) {events : List Event}
    {ps' : List Process}
    → parse_pid entry.d_name ≡ named pid
    → distinct (pids ps) ≡ true
    → listed pid (pids ps) ≡ false
    → add_process to entry pid ps ≡ some (events, ps')
    → Visited to entry ps events ps'
add_process-Visited to entry ps pid {events} {ps'} parsed d absent ran =
    elim (Bool-cases (readable entry.snapshot)) [
      | inl read ↦
          outcome-Visited
            (added-Visited to entry ps
              (record (process_read entry.snapshot blank).1 { pid = pid; is_active = true }) parsed
              d absent read refl)
            (sym (add_process-read to entry ps pid (add_process-room to entry ps pid ran) read)
              ∙ ran)
      | inr unread ↦
          outcome-Visited (missing-Visited to entry ps pid parsed d absent unread)
            (add_process-unread to entry ps pid unread ran)
    ]

pub visit-Visited :
    (to : Callbacks) (entry : Dirent) (ps : List Process) {events : List Event} {ps' : List Process}
    → names entry 0 ≡ false
    → distinct (pids ps) ≡ true
    → visit to entry ps ≡ some (events, ps')
    → Visited to entry ps events ps'
unfolding names
visit-Visited to entry ps {events} {ps'} nonzero d ran =
    elim (PidName-cases (parse_pid entry.d_name)) [
      | inl (inl parsed) ↦
          outcome-Visited (unchanged-Visited to entry ps parsed d)
            (sym (visit-skipped to entry ps parsed) ∙ ran)
      | inl (inr parsed) ↦ ground (arith, visit-out_of_range to entry ps parsed)
      | inr (pid, parsed) ↦ elim (Option-cases (find_from ps pid 0)) [
        | inl found ↦
            add_process-Visited to entry ps pid parsed d (find_from-none ps pid 0 found)
              (sym (visit-new to entry ps pid parsed found) ∙ ran)
        | inr (k, found) ↦
            outcome-Visited (updated-Visited to entry ps pid k parsed d found)
              (sym (visit-found to entry ps pid k parsed (ground arith) found) ∙ ran)
      ]
    ]
