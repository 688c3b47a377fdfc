-- ===== src/Sampler/System.antt =====
-- The threads of src/metrics/sampler.c and the controllers that call `sampler_start` and
-- `sampler_stop`, interleaved in any order. What stands between taking and releasing the lock is one step.
pub mod Captures
pub mod Alone
pub mod Overlap
use clueless_task_manager.Base.{
  ℕ, ◌+◌, ◌<◌, ◌≡◌, Bool, true, false, ◌==◌, if◌then◌else◌, none, some, List, [], ◌∷◌, ◌++◌, update,
}
use clueless_task_manager.Sampler.{Sampler, sampler_turn}
use clueless_task_manager.Sampler.Samples.{fixed}

-- where the thread with a number stands
pub data Phase : Type 0 where
  unborn looping ended joined : Phase

-- Where a controller stands: outside, behind the unlock of `sampler_stop` with `was_running` set, or in
-- `pthread_join` with the thread that it has read from the field.
pub data Pc : Type 0 where
  free stopping : Pc
  joining : ℕ → Pc

-- `thread` is the field of the sampler, `made` the number of threads so far.
pub record System : Type 0 where
  pub sampler : Sampler
  pub thread : ℕ
  pub made : ℕ
  pub phase : ℕ → Phase
  pub pc : ℕ → Pc

-- a sampler that was created, and has no thread yet
abbrev pub initial : Sampler → System
initial sampler = record {
  sampler = sampler;
  thread = 0;
  made = 0;
  phase = λ t. unborn;
  pc = λ i. free;
}

-- `sampler_start` under the lock; `created` is the result of `pthread_create`.
unfoldable pub started : ℕ → System → System
started created s =
    if s.sampler.is_running
    then s
    else (if created == 0
        then record s {
          sampler = record s.sampler { is_running = true };
          thread = s.made;
          made = s.made + 1;
          phase = update s.phase s.made looping;
        }
        else record s { sampler = record s.sampler { is_running = false } })

-- `sampler_stop` up to its unlock
unfoldable pub stopped : ℕ → System → System
stopped i s = record s {
  sampler = record s.sampler { is_running = false };
  pc = update s.pc i (if s.sampler.is_running then stopping else free);
}

-- One step with `n` controllers, and the captures that it makes. A join of a thread that was joined before
-- is undefined, and has no step.
pub data Step (n : ℕ) (s : System) : List (Bool × List ℕ) → System → Type 0 where
  start : (i created : ℕ) → i < n → s.pc i ≡ free → Step n s [] (started created s)
  stop : (i : ℕ) → i < n → s.pc i ≡ free → Step n s [] (stopped i s)
  read_thread :
      (i : ℕ)
      → i < n
      → s.pc i ≡ stopping
      → Step n s [] (record s { pc = update s.pc i (joining s.thread) })
  join :
      (i t : ℕ)
      → i < n
      → s.pc i ≡ joining t
      → s.phase t ≡ ended
      → Step n s [] (record s { phase = update s.phase t joined; pc = update s.pc i free })
  capture :
      (t : ℕ) (result : Bool × List ℕ) {sampler : Sampler} {notify : Bool}
      → s.phase t ≡ looping
      → sampler_turn (fixed result) s.sampler ≡ some (sampler, notify)
      → Step n s (result ∷ []) (record s { sampler = sampler })
  leave :
      (t : ℕ) (result : Bool × List ℕ)
      → s.phase t ≡ looping
      → sampler_turn (fixed result) s.sampler ≡ none
      → Step n s [] (record s { phase = update s.phase t ended })

-- what is reached, with the captures that were made, newest first
pub data Reach (n : ℕ) (s : System) : List (Bool × List ℕ) → System → Type 0 where
  here : Reach n s [] s
  later :
      {results new : List (Bool × List ℕ)} {t u : System}
      → Reach n s results t
      → Step n t new u
      → Reach n s (new ++ results) u
