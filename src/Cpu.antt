-- ===== src/Cpu.antt =====
-- src/metrics/cpu.c: the counters of /proc/stat, and the usage between two readings.
pub mod Usage
pub mod RoundTrip
mod Tests
use clueless_task_manager.Base.{
  ℕ, ◌*◌, ◌/◌, Bool, true, false, ◌&&◌, Option, none, some, List, [], ◌∷◌, ◌++◌, ◌==◌,
  if◌then◌else◌, not, length, take, drop, add_size, sub_size, mul_size,
}
use clueless_task_manager.Clib.{strtoul, has_prefix}

-- `struct cpu`
pub record Cpu : Type 0 where
  pub user : ℕ
  pub nice : ℕ
  pub system : ℕ
  pub idle : ℕ
  pub iowait : ℕ
  pub irq : ℕ
  pub softirq : ℕ
  pub steal : ℕ
  pub guest : ℕ
  pub guest_nice : ℕ

-- `cpu_result_t`; `success` is 0.
pub data CpuResult : Type 0 where
  success err_invalid_arg err_open err_read err_parse err_internal : CpuResult

-- `get_total_time`: a sum of `unsigned long`, which wraps.
pub get_total_time : Cpu → ℕ
get_total_time cpu =
    add_size
      (add_size
        (add_size (add_size (add_size (add_size cpu.user cpu.nice) cpu.system) cpu.idle) cpu.iowait)
        cpu.irq)
      cpu.softirq

-- the ten calls of `strtoul`, each of which moves `line_buffer`
pub parse_counters : List ℕ → Cpu
parse_counters s0 =
    let (user, s1) = strtoul s0 in
    let (nice, s2) = strtoul s1 in
    let (system, s3) = strtoul s2 in
    let (idle, s4) = strtoul s3 in
    let (iowait, s5) = strtoul s4 in
    let (irq, s6) = strtoul s5 in
    let (softirq, s7) = strtoul s6 in
    let (steal, s8) = strtoul s7 in
    let (guest, s9) = strtoul s8 in
    let (guest_nice, s10) = strtoul s9 in
    record {
      user = user;
      nice = nice;
      system = system;
      idle = idle;
      iowait = iowait;
      irq = irq;
      softirq = softirq;
      steal = steal;
      guest = guest;
      guest_nice = guest_nice;
    }

-- `cpu_read`: `file` is what /proc/stat holds, `none` if it cannot be opened; `stack` is what the
-- uninitialised buffer of 1024 bytes holds. `none` for `out` is `NULL`.
pub cpu_read : (file : Option (List ℕ)) (stack : List ℕ) → Option Cpu → CpuResult × Option Cpu
cpu_read file stack none = (err_invalid_arg, none)
cpu_read none stack (some out) = (err_open, some out)
cpu_read (some bytes) stack (some out) =
    let read = take 1024 bytes in
    let buffer = read ++ drop (length read) stack in
    if length read == 0
    then (err_read, some out)
    else (if not (has_prefix buffer (b'c' ∷ b'p' ∷ b'u' ∷ []))
        then (err_parse, some out)
        else (success, some (parse_counters (drop 5 buffer))))

-- `cpu_total_usage`: the result and what `*out` holds afterwards.
pub cpu_total_usage : Option Cpu → Option Cpu → Option ℕ → CpuResult × Option ℕ
cpu_total_usage (some curr) (some prev) (some out) =
    let previous_total_time = get_total_time prev in
    let current_total_time = get_total_time curr in
    let idle_delta = sub_size curr.idle prev.idle in
    let total_delta = sub_size current_total_time previous_total_time in
    let average_idle_time = mul_size idle_delta 100000 / total_delta in
    if previous_total_time == 0 && current_total_time == 0
    then (err_internal, some out)
    else (if total_delta == 0
        then (success, some out)
        else (success, some (sub_size 100000 average_idle_time)))
cpu_total_usage curr prev out = (err_invalid_arg, out)
