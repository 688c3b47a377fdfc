-- ===== src/ProcessManager/Pids.antt =====
-- The pids in the list of src/metrics/process_manager.c, and what its operations do to them.
use clueless_task_manager.Base.{
  listed, distinct, ℕ, zero, suc, ◌+◌, ◌≤◌, ◌≡◌, ◌≢◌, refl, ap, true, false, Bool, ◌&&◌, ◌||◌, ◌==◌,
  none, some, List, [], ◌∷◌, arith,
}
use clueless_task_manager.Process.{Process, Snapshot}
use clueless_task_manager.Process.Read.{readable, process_read-pid, process_read-readable}
use clueless_task_manager.ProcessManager.{mark_processes_inactive, find_from, modify, reread}

unfoldable pub pids : List Process → List ℕ
pids [] = []
pids (p ∷ ps) = p.pid ∷ pids ps

-- a process of the list has this pid and is marked active
unfoldable pub active : ℕ → List Process → Bool
active pid [] = false
active pid (p ∷ ps) = ((p.pid == pid) && p.is_active) || active pid ps

pub pids-mark : (ps : List Process) → pids (mark_processes_inactive ps) ≡ pids ps
unfolding mark_processes_inactive pids
pids-mark [] = refl
pids-mark (p ∷ ps) = ap (λ qs. p.pid ∷ qs) (pids-mark ps)

pub active-mark : (pid : ℕ) (ps : List Process) → active pid (mark_processes_inactive ps) ≡ false
unfolding mark_processes_inactive active
active-mark pid [] = refl
active-mark pid (p ∷ ps) = ground (arith, active-mark pid ps)

pub reread-pid : (snap : Snapshot) (p : Process) → (reread snap p).pid ≡ p.pid
unfolding reread
reread-pid snap p = process_read-pid snap p

pub reread-is_active : (snap : Snapshot) (p : Process) → (reread snap p).is_active ≡ readable snap
unfolding reread
reread-is_active snap p = process_read-readable snap p

pub pids-modify :
    (k : ℕ) (f : Process → Process) (ps : List Process)
    → ((p : Process) → (f p).pid ≡ p.pid)
    → pids (modify k f ps) ≡ pids ps
unfolding modify pids
pids-modify k f [] keeps = refl
pids-modify zero f (p ∷ ps) keeps = ap (λ q. q ∷ pids ps) (keeps p)
pids-modify (suc k) f (p ∷ ps) keeps = ap (λ qs. p.pid ∷ qs) (pids-modify k f ps keeps)

pub active-absent :
    (pid : ℕ) (ps : List Process) → listed pid (pids ps) ≡ false → active pid ps ≡ false
unfolding active listed pids
active-absent pid [] h = refl
active-absent pid (p ∷ ps) h = ground (arith, active-absent pid ps)

pub find_from-none :
    (ps : List Process) (pid k : ℕ) → find_from ps pid k ≡ none → listed pid (pids ps) ≡ false
unfolding find_from listed pids
find_from-none [] pid k h = refl
find_from-none (p ∷ ps) pid k h = ground (arith, find_from-none ps pid (suc k))

find_from-lower : (ps : List Process) (pid k j : ℕ) → find_from ps pid k ≡ some j → k ≤ j
unfolding find_from
find_from-lower [] pid k j h = ground arith
find_from-lower (p ∷ ps) pid k j h = ground (arith, find_from-lower ps pid (suc k) j)

-- what the process found at position `j` of a list that starts at `k` becomes
pub active-modify :
    (ps : List Process) (pid k i : ℕ) (f : Process → Process) (b : Bool)
    → find_from ps pid k ≡ some (i + k)
    → distinct (pids ps) ≡ true
    → ((p : Process) → (f p).pid ≡ p.pid)
    → ((p : Process) → (f p).is_active ≡ b)
    → active pid (modify i f ps) ≡ b
unfolding find_from modify active distinct pids
active-modify [] pid k i f b found d keeps sets = ground arith
active-modify (p ∷ ps) pid k zero f b found d keeps sets = ground (
  arith,
  keeps p,
  sets p,
  find_from-lower ps pid (suc k) k,
  active-absent pid ps,
  active-absent p.pid ps,
)
active-modify (p ∷ ps) pid k (suc i) f b found d keeps sets =
    let found' : find_from ps pid (suc k) ≡ some (i + suc k) = ground arith in
    let d' : distinct (pids ps) ≡ true = ground arith in
    ground (arith, active-modify ps pid (suc k) i f b found' d' keeps sets)

pub active-modify-other :
    (ps : List Process) (pid q k i : ℕ) (f : Process → Process)
    → find_from ps pid k ≡ some (i + k)
    → pid ≢ q
    → ((p : Process) → (f p).pid ≡ p.pid)
    → active q (modify i f ps) ≡ active q ps
unfolding find_from modify active
active-modify-other [] pid q k i f found other keeps = refl
active-modify-other (p ∷ ps) pid q k zero f found other keeps =
    ground (arith, keeps p, find_from-lower ps pid (suc k) k)
active-modify-other (p ∷ ps) pid q k (suc i) f found other keeps =
    let found' : find_from ps pid (suc k) ≡ some (i + suc k) = ground arith in
    ground (arith, active-modify-other ps pid q (suc k) i f found' other keeps)
