-- ===== src/ProcessManager/Loop.antt =====
-- The `readdir` loop of src/metrics/process_manager.c, by induction on the entries.
use clueless_task_manager.Base.{
  ◌==◌, ◌||◌, distinct, ℕ, ◌≡◌, refl, sym, ◌∙◌, ap, true, Bool, ◌&&◌, not, if◌then◌else◌, Option,
  none, some, List, [], ◌∷◌, ◌++◌, arith, Option-cases, subst, inl, inr,
}
use clueless_task_manager.Process.{Process, ProcessResult, is_success, err_internal}
use clueless_task_manager.Process.Read.{readable}
use clueless_task_manager.ProcessManager.{
  Event, added, updated, removed, Callbacks, Dirent, visit, readdir_loop, mark_processes_inactive,
}
use clueless_task_manager.ProcessManager.Pids.{pids, active, pids-mark}
use clueless_task_manager.ProcessManager.Visited.{delete, follow, members, Follows, names, Visited}
use clueless_task_manager.ProcessManager.Visit.{visit-Visited}

pub follow-append :
    (view : List ℕ) (events events' : List Event)
    → follow view (events ++ events') ≡ follow (follow view events) events'
unfolding follow
follow-append view [] events' = refl
follow-append view (added p ∷ events) events' = follow-append (p.pid ∷ view) events events'
follow-append view (updated p ∷ events) events' = follow-append view events events'
follow-append view (removed p ∷ events) events' = follow-append (delete p.pid view) events events'

pub members-append :
    (set : ℕ → Bool) (events events' : List Event) (pid : ℕ)
    → members set (events ++ events') pid ≡ members (members set events) events' pid
unfolding members
members-append set [] events' pid = refl
members-append set (added p ∷ events) events' pid =
    members-append (λ q. (p.pid == q) || set q) events events' pid
members-append set (updated p ∷ events) events' pid = members-append set events events' pid
members-append set (removed p ∷ events) events' pid =
    members-append (λ q. not (p.pid == q) && set q) events events' pid

-- no entry is the directory of the process 0
unfoldable pub nonzero_names : List Dirent → Bool
nonzero_names [] = true
nonzero_names (entry ∷ entries) = not (names entry 0) && nonzero_names entries

-- what `readdir` gives; nothing if the directory cannot be opened
abbrev pub entries_of : Option (List Dirent) → List Dirent
entries_of none = []
entries_of (some entries) = entries

-- Whether the last entry for this pid can be read, and `before` if there is none.
unfoldable pub alive_since : Bool → List Dirent → ℕ → Bool
alive_since before [] pid = before
alive_since before (entry ∷ entries) pid =
    alive_since (if names entry pid then readable entry.snapshot else before) entries pid

pub record Looped (to : Callbacks) (entries : List Dirent) (ps : List Process)
    (run : ProcessResult × List Event × List Process) : Type 0 where
  pub followed : to.on_added ≡ true → follow (pids ps) run.1 ≡ pids run.2
  pub domain : to.on_added ≡ true → Follows ps run.1 run.2
  pub apart : distinct (pids run.2) ≡ true
  pub marked :
      is_success run.0 ≡ true
      → (pid : ℕ) → active pid run.2 ≡ alive_since (active pid ps) entries pid

pub readdir_loop-stops :
    (to : Callbacks) (entry : Dirent) (entries : List Dirent) (ps : List Process)
    → visit to entry ps ≡ none
    → readdir_loop to (entry ∷ entries) ps ≡ (err_internal, [], ps)
unfolding readdir_loop
readdir_loop-stops to entry entries ps stops = rw (stops, readdir_loop)

pub readdir_loop-turns :
    (to : Callbacks) (entry : Dirent) (entries : List Dirent) (ps : List Process)
    (events : List Event) (ps' : List Process)
    → visit to entry ps ≡ some (events, ps')
    → let run = readdir_loop to entries ps' in
      readdir_loop to (entry ∷ entries) ps ≡ (run.0, events ++ run.1, run.2)
unfolding readdir_loop
readdir_loop-turns to entry entries ps events ps' ran = rw (ran, readdir_loop)

stop-Looped :
    (to : Callbacks) (entries : List Dirent) (ps : List Process)
    → distinct (pids ps) ≡ true
    → Looped to entries ps (err_internal, [], ps)
unfolding is_success follow members
stop-Looped to entries ps d = record {
  followed = λ on. refl;
  domain = λ on set same. same;
  apart = d;
  marked = λ s pid. ground arith;
}

turn-Looped :
    (to : Callbacks) (entry : Dirent) (entries : List Dirent) (ps : List Process)
    (events : List Event) (ps' : List Process)
    → (run : ProcessResult × List Event × List Process) → Visited to entry ps events ps'
    → Looped to entries ps' run
    → Looped to (entry ∷ entries) ps (run.0, events ++ run.1, run.2)
unfolding alive_since
turn-Looped to entry entries ps events ps' run turn rest = record {
  domain = λ on set same pid.
      members-append set events run.1 pid
      ∙ rest.domain on (members set events) (turn.domain on set same) pid;
  followed = λ on.
      follow-append (pids ps) events run.1
      ∙ ap (λ view. follow view run.1) (turn.followed on)
      ∙ rest.followed on;
  apart = rest.apart;
  marked = λ s pid. rest.marked s pid ∙ ap (λ b. alive_since b entries pid) (turn.marked pid);
}

readdir_loop-Looped :
    (to : Callbacks) (entries : List Dirent) (ps : List Process)
    → nonzero_names entries ≡ true
    → distinct (pids ps) ≡ true
    → Looped to entries ps (readdir_loop to entries ps)
unfolding readdir_loop nonzero_names follow members alive_since
readdir_loop-Looped to [] ps nonzero d = record {
  followed = λ on. refl;
  domain = λ on set same. same;
  apart = d;
  marked = λ s pid. refl;
}
readdir_loop-Looped to (entry ∷ entries) ps nonzero d = elim (Option-cases (visit to entry ps)) [
  | inl stops ↦
      subst (λ r. Looped to (entry ∷ entries) ps r)
        (sym (readdir_loop-stops to entry entries ps stops)) (stop-Looped to (entry ∷ entries) ps d)
  | inr ((events, ps'), ran) ↦
      let turn = visit-Visited to entry ps {events = events} {ps' = ps'} (ground arith) d ran in
      let rest = readdir_loop-Looped to entries ps' (ground arith) turn.apart in
      subst (λ r. Looped to (entry ∷ entries) ps r)
        (sym (readdir_loop-turns to entry entries ps events ps' ran))
        (turn-Looped to entry entries ps events ps' (readdir_loop to entries ps') turn rest)
]

-- The whole run, in terms of the loop.
pub refresh-Looped :
    (to : Callbacks) (dir : List Dirent) (ps : List Process)
    → nonzero_names dir ≡ true
    → distinct (pids ps) ≡ true
    → Looped to dir (mark_processes_inactive ps) (readdir_loop to dir (mark_processes_inactive ps))
refresh-Looped to dir ps nonzero d =
    readdir_loop-Looped to dir (mark_processes_inactive ps) nonzero (ap distinct (pids-mark ps) ∙ d)
