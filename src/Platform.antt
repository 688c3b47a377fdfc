-- ===== src/Platform.antt =====
-- src/core/linux/platform.c and src/core/log.c. What the system answers is an argument.
pub mod Sleep
pub mod Time
mod Tests
use Prim.Native.String.{String}
use clueless_task_manager.Base.{
  ℕ, ◌+◌, ◌*◌, ◌/◌, ◌%◌, ◌^◌, Bool, true, false, Option, none, some, List, [], ◌∷◌, ◌++◌, ◌==◌,
  if◌then◌else◌, ℤ, pos, negsuc, Outcome, done, fault, out_of_fuel, ◌>>=◌,
}
use clueless_task_manager.Clib.{codes}
use clueless_task_manager.Clib.Decimal.{digits}

-- `struct timespec`
pub record Timespec : Type 0 where
  pub tv_sec : ℕ
  pub tv_nsec : ℕ

-- What `nanosleep` answers: 0, or -1 with EINTR and the time that is left, or -1 with another error.
pub data Answer : Type 0 where
  slept failed : Answer
  interrupted : Timespec → Answer

-- The loop of `ctm_sleep_ms`: the calls of `nanosleep` that it makes, each with its answer.
unfoldable pub sleep_loop : List Answer → Timespec → Outcome (List (Timespec × Answer))
sleep_loop [] ts = out_of_fuel
sleep_loop (slept ∷ answers) ts = done ((ts, slept) ∷ [])
sleep_loop (failed ∷ answers) ts = done ((ts, failed) ∷ [])
sleep_loop (interrupted rest ∷ answers) ts =
    sleep_loop answers rest >>= λ calls. done ((ts, interrupted rest) ∷ calls)

unfoldable pub ctm_sleep_ms : List Answer → ℕ → Outcome (List (Timespec × Answer))
unfolding sleep_loop
ctm_sleep_ms answers milliseconds =
    sleep_loop answers
      (record { tv_sec = milliseconds / 1000; tv_nsec = milliseconds % 1000 * 1000000 % 2 ^ 32 })

-- `ctm_getusername_by_uid`: `sysconf` is `none` for -1; `getpwuid_r` gives its result and the name of the entry it
-- finds; `copied` says that `strdup` succeeds.
pub ctm_getusername_by_uid :
    (sysconf : Option ℕ)
    → (malloc_ok : Bool) → (getpwuid_r : ℕ → ℕ → ℕ × Option (List ℕ)) → (copied : Bool) → ℕ
    → Option (List ℕ)
ctm_getusername_by_uid sysconf false getpwuid_r copied uid = none
ctm_getusername_by_uid sysconf true getpwuid_r copied uid =
    let bufsize : ℕ = elim sysconf [ none ↦ 16384 | some n ↦ n ] in
    let (s, found) = getpwuid_r uid bufsize in
    elim found [
      | none ↦ none
      | some pw_name ↦ if s == 0 then (if copied then some pw_name else none) else none
    ]

-- `CtmLogLevel`
pub data CtmLogLevel : Type 0 where
  log_level_debug log_level_info log_level_warn log_level_error log_level_none : CtmLogLevel

unfoldable pub ctm_get_level_str : CtmLogLevel → Option (List ℕ)
ctm_get_level_str log_level_debug = some (codes "DEBUG")
ctm_get_level_str log_level_info = some (codes "INFO")
ctm_get_level_str log_level_warn = some (codes "WARNING")
ctm_get_level_str log_level_error = some (codes "ERROR")
ctm_get_level_str log_level_none = none

-- `ctm_log`: what is written to `stderr` at the given time, with the message that the format makes. Printing `NULL`
-- as a string is undefined.
unfoldable pub ctm_log :
    (time : List ℕ)
    → CtmLogLevel
    → (file : List ℕ) → (line : ℕ) → (func message : List ℕ) → Outcome (List ℕ)
unfolding ctm_get_level_str
ctm_log time level file line func message = elim (ctm_get_level_str level) [
  | none ↦ fault
  | some name ↦ done (
      time
      ++ (codes " ["
          ++ (name
              ++ (codes "] "
                  ++ (file
                      ++ (codes ":"
                          ++ (digits line
                              ++ (codes " - "
                                  ++ (func ++ (codes ": " ++ (message ++ b'\n' ∷ [])))))))))))
]

-- `RETURN_INT_IF_ARG_IS_NULL` and the two like it, before the rest of a function: the value that is returned
-- early, and whether `errno` is set to EINVAL.
unfoldable pub return_if_arg_is_null {ℓ κ} :
    {A : Type ℓ} {R : Type κ} → R → Option A → (A → R × Bool) → R × Bool
return_if_arg_is_null early none rest = (early, true)
return_if_arg_is_null early (some arg) rest = rest arg
