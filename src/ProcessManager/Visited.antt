-- ===== src/ProcessManager/Visited.antt =====
-- What one turn of the `readdir` loop of src/metrics/process_manager.c may make of the list, of
-- its active processes and of an observer of the callbacks.
use clueless_task_manager.Base.{
  ◌||◌, ◌&&◌, not, ap, listed, distinct, ℕ, ◌+◌, ◌≡◌, refl, sym, ◌∙◌, true, false, Bool, ◌==◌,
  if◌then◌else◌, some, List, [], ◌∷◌, arith, ℕ_discrete,
}
use clueless_task_manager.Process.{Process}
use clueless_task_manager.Process.Read.{readable}
use clueless_task_manager.ProcessManager.{
  Event, added, updated, removed, Callbacks, find_from, modify, process_at, reread, notify, updates,
  Dirent, skipped, out_of_range, named, parse_pid, update_process,
}
use clueless_task_manager.ProcessManager.Pids.{
  pids, active, reread-pid, reread-is_active, pids-modify, active-absent, active-modify,
  active-modify-other,
}

-- the first occurrence is taken out
unfoldable pub delete : ℕ → List ℕ → List ℕ
delete pid [] = []
delete pid (q ∷ qs) = if q == pid then qs else q ∷ delete pid qs

-- an observer that keeps a list of pids by the callbacks it gets
unfoldable pub follow : List ℕ → List Event → List ℕ
unfolding delete
follow view [] = view
follow view (added p ∷ events) = follow (p.pid ∷ view) events
follow view (updated p ∷ events) = follow view events
follow view (removed p ∷ events) = follow (delete p.pid view) events

-- which pids an observer that keeps a set of them has
unfoldable pub members : (ℕ → Bool) → List Event → ℕ → Bool
members set [] pid = set pid
members set (added p ∷ events) pid = members (λ q. (p.pid == q) || set q) events pid
members set (updated p ∷ events) pid = members set events pid
members set (removed p ∷ events) pid = members (λ q. not (p.pid == q) && set q) events pid

-- the observer's set follows the pids of a list through these events
abbrev pub Follows : List Process → List Event → List Process → Type 0
Follows ps events ps' =
    (set : ℕ → Bool)
    → ((pid : ℕ) → set pid ≡ listed pid (pids ps))
    → (pid : ℕ) → members set events pid ≡ listed pid (pids ps')

-- the entry is the directory of the process `pid`
unfoldable pub names : Dirent → ℕ → Bool
names entry pid = elim (parse_pid entry.d_name) [
  | skipped ↦ false
  | out_of_range ↦ false
  | named q ↦ q == pid
]

pub record Visited (to : Callbacks) (entry : Dirent) (ps : List Process) (events : List Event)
    (ps' : List Process) : Type 0 where
  pub followed : to.on_added ≡ true → follow (pids ps) events ≡ pids ps'
  pub domain : to.on_added ≡ true → Follows ps events ps'
  pub apart : distinct (pids ps') ≡ true
  pub marked :
      (pid : ℕ)
      → active pid ps' ≡ (if names entry pid then readable entry.snapshot else active pid ps)

pub unchanged-Visited :
    (to : Callbacks) (entry : Dirent) (ps : List Process)
    → parse_pid entry.d_name ≡ skipped
    → distinct (pids ps) ≡ true
    → Visited to entry ps [] ps
unfolding follow names members
unchanged-Visited to entry ps parsed d = record {
  followed = λ on. refl;
  domain = λ on set same. same;
  apart = d;
  marked = λ pid. ground (arith);
}

pub missing-Visited :
    (to : Callbacks) (entry : Dirent) (ps : List Process) (pid : ℕ)
    → parse_pid entry.d_name ≡ named pid
    → distinct (pids ps) ≡ true
    → listed pid (pids ps) ≡ false
    → readable entry.snapshot ≡ false
    → Visited to entry ps [] ps
unfolding follow names members
missing-Visited to entry ps pid parsed d absent failed = record {
  followed = λ on. refl;
  domain = λ on set same. same;
  apart = d;
  marked = λ q. ground (arith, active-absent pid ps absent);
}

pub added-Visited :
    (to : Callbacks) (entry : Dirent) (ps : List Process) (p : Process)
    → parse_pid entry.d_name ≡ named p.pid
    → distinct (pids ps) ≡ true
    → listed p.pid (pids ps) ≡ false
    → readable entry.snapshot ≡ true
    → p.is_active ≡ true
    → Visited to entry ps (notify to.on_added (added p)) (p ∷ ps)
unfolding follow names members pids listed distinct active notify
added-Visited to entry ps p parsed d absent read on = record {
  followed = λ on. ground arith;
  domain = λ on set same q. ground (arith, same q);
  apart = ground arith;
  marked = λ q. ground (arith, active-absent p.pid ps absent);
}

follow-updates :
    (to : Callbacks) (view : List ℕ) (ps : List Process) → follow view (updates to ps) ≡ view
unfolding follow updates notify
follow-updates to view [] = refl
follow-updates to view (p ∷ ps) = ground arith

members-updates :
    (to : Callbacks) (set : ℕ → Bool) (ps : List Process) (pid : ℕ)
    → members set (updates to ps) pid ≡ set pid
unfolding members updates notify
members-updates to set [] pid = refl
members-updates to set (p ∷ ps) pid = ground arith

pub updated-Visited :
    (to : Callbacks) (entry : Dirent) (ps : List Process) (pid k : ℕ)
    → parse_pid entry.d_name ≡ named pid
    → distinct (pids ps) ≡ true
    → find_from ps pid 0 ≡ some k
    → Visited to entry ps
        (update_process to entry.snapshot k ps).0
        (update_process to entry.snapshot k ps).1
unfolding update_process names
updated-Visited to entry ps pid k parsed d found =
    let same_pids = pids-modify k (reread entry.snapshot) ps (reread-pid entry.snapshot) in
    let at : find_from ps pid 0 ≡ some (k + 0) = ground arith in
    let self =
      active-modify ps pid 0 k (reread entry.snapshot) (readable entry.snapshot) at d
        (reread-pid entry.snapshot) (reread-is_active entry.snapshot) in
    record {
      followed = λ on.
          follow-updates to (pids ps) (process_at k (modify k (reread entry.snapshot) ps))
          ∙ sym same_pids;
      domain = λ on set same q.
          members-updates to set (process_at k (modify k (reread entry.snapshot) ps)) q
          ∙ same q
          ∙ ap (listed q) (sym same_pids);
      apart = ground (arith, same_pids);
      marked = λ q. elim (ℕ_discrete pid q) [
        | yes e ↦ ground (arith, self)
        | no n ↦ ground (
          arith,
          active-modify-other ps pid q 0 k (reread entry.snapshot) at n (reread-pid entry.snapshot),
        )
      ];
    }
