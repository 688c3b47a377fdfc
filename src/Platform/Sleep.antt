-- ===== src/Platform/Sleep.antt =====
-- How long `ctm_sleep_ms` of src/core/linux/platform.c sleeps.
use clueless_task_manager.Base.{
  ℕ, ◌+◌, ◌-◌, ◌*◌, ◌/◌, ◌%◌, ◌^◌, ◌<◌, ◌≤◌, ◌≡◌, refl, List, [], ◌∷◌, arith, Returns, Returns-bind,
}
use clueless_task_manager.Platform.{
  Timespec, Answer, slept, failed, interrupted, sleep_loop, ctm_sleep_ms,
}

abbrev pub nanoseconds : Timespec → ℕ
nanoseconds ts = ts.tv_sec * 1000000000 + ts.tv_nsec

-- no more time is left after an interruption than was asked for, and the last call is not interrupted
abbrev pub Sleeps : List Answer → Timespec → Type 0
Sleeps [] ts = ⊥
Sleeps (slept ∷ answers) ts = Unit {0}
Sleeps (failed ∷ answers) ts = ⊥
Sleeps (interrupted rest ∷ answers) ts = (nanoseconds rest ≤ nanoseconds ts) × Sleeps answers rest

-- the time that one call was asleep
abbrev pub asleep : Timespec × Answer → ℕ
asleep (ts, slept) = nanoseconds ts
asleep (ts, failed) = 0
asleep (ts, interrupted rest) = nanoseconds ts - nanoseconds rest

unfoldable pub total_asleep : List (Timespec × Answer) → ℕ
total_asleep [] = 0
total_asleep (call ∷ calls) = asleep call + total_asleep calls

sleep_loop-total :
    (answers : List Answer) (ts : Timespec)
    → Sleeps answers ts
    → Returns (sleep_loop answers ts) (λ calls. total_asleep calls ≡ nanoseconds ts)
unfolding sleep_loop total_asleep
sleep_loop-total [] ts never = elim never [ ]
sleep_loop-total (slept ∷ answers) ts fair = ((ts, slept) ∷ [], refl, omega arith)
sleep_loop-total (failed ∷ answers) ts never = elim never [ ]
sleep_loop-total (interrupted rest ∷ answers) ts (less, fair) =
    Returns-bind _ _ (sleep_loop-total answers rest fair)
      (λ calls total. ((ts, interrupted rest) ∷ calls, refl, omega (arith, total)))

-- However often a signal interrupts it, `ctm_sleep_ms` ends, and its calls of `nanosleep` sleep for exactly the
-- milliseconds that were asked for, where an interruption leaves no more time than was asked for, some
-- call is not interrupted, and none fails otherwise. The milliseconds are an `unsigned int`.
pub ctm_sleep_ms-total :
    (answers : List Answer) (milliseconds : ℕ)
    → milliseconds < 2 ^ 32
    → Sleeps answers
        (record { tv_sec = milliseconds / 1000; tv_nsec = milliseconds % 1000 * 1000000 })
    → Returns
        (ctm_sleep_ms answers milliseconds)
        (λ calls. total_asleep calls ≡ milliseconds * 1000000)
unfolding ctm_sleep_ms
ctm_sleep_ms-total answers milliseconds small fair =
    let word : milliseconds % 1000 * 1000000 % 2 ^ 32 ≡ milliseconds % 1000 * 1000000 =
      omega arith in
    let (calls, run, total) = sleep_loop-total answers _ fair in
    (calls, rw word run, omega (arith, total))
