-- ===== src/Cpu/Usage.antt =====
-- The usage that `cpu_total_usage` of src/metrics/cpu.c computes, in thousandths of a percent.
use clueless_task_manager.Base.{
  ℕ, ◌+◌, ◌-◌, ◌*◌, ◌<◌, ◌≤◌, ◌^◌, ◌≡◌, if◌then◌else◌, some, none, refl, arith, sub_size, mul_size,
  ◌/◌, ◌==◌, ◌&&◌, false,
}
use clueless_task_manager.Cpu.{
  Cpu, success, err_invalid_arg, err_internal, get_total_time, cpu_total_usage,
}

-- the sum of the counters with no wrap
abbrev pub busy_time : Cpu → ℕ
busy_time c = c.user + c.nice + c.system + c.iowait + c.irq + c.softirq

abbrev pub total_time : Cpu → ℕ
total_time c = busy_time c + c.idle

get_total_time-total : (c : Cpu) → total_time c < 2 ^ 64 → get_total_time c ≡ total_time c
unfolding get_total_time
get_total_time-total c h = omega arith

-- the quotient that the code subtracts from 100000
share_bounds :
    (part whole : ℕ)
    → 0 < whole
    → part ≤ whole
    → (part * 100000 / whole ≤ 100000)
      × (part * 100000 / whole * whole ≤ part * 100000)
      × (part * 100000 < (part * 100000 / whole + 1) * whole)
share_bounds part whole pos le = grind arith

share_words :
    (part whole : ℕ)
    → 0 < whole
    → part ≤ whole
    → part * 100000 < 2 ^ 64
    → sub_size 100000 (mul_size part 100000 / whole) ≡ 100000 - part * 100000 / whole
share_words part whole pos le small =
    let (a, b, c) = share_bounds part whole pos le in
    let e : mul_size part 100000 ≡ part * 100000 = omega arith in rw e (omega arith)

sub_size-sub : (a b : ℕ) → b ≤ a → a < 2 ^ 64 → sub_size a b ≡ a - b
sub_size-sub a b le fits = omega arith

-- Between two readings of growing counters, whose sum fits and whose idle time times 100000 fits a
-- machine word, the result is a success, and `usage` is the share of busy time in thousandths of
-- a percent, rounded up: at most 100000, and `100000 - usage` is the idle share rounded down.
pub cpu_total_usage-bounds :
    (curr prev : Cpu) (out : ℕ)
    → total_time curr < 2 ^ 64
    → busy_time prev ≤ busy_time curr
    → prev.idle ≤ curr.idle
    → total_time prev < total_time curr
    → (curr.idle - prev.idle) * 100000 < 2 ^ 64
    → (usage : ℕ) × (cpu_total_usage (some curr) (some prev) (some out) ≡ (success, some usage))
      × (usage ≤ 100000)
      × ((100000 - usage) * (total_time curr - total_time prev) ≤ (curr.idle - prev.idle) * 100000)
      × ((curr.idle - prev.idle) * 100000
          < (100000 - usage + 1) * (total_time curr - total_time prev))
unfolding cpu_total_usage
cpu_total_usage-bounds curr prev out fits busy idle grows small =
    let whole = total_time curr - total_time prev in
    let part = curr.idle - prev.idle in
    let (a, b, c) = share_bounds part whole (omega arith) (omega arith) in
    let t = get_total_time-total curr fits in
    let t' = get_total_time-total prev (omega arith) in
    let d = sub_size-sub curr.idle prev.idle idle (omega arith) in
    let d' = sub_size-sub (total_time curr) (total_time prev) (omega arith) fits in
    let e : (total_time prev == 0 && total_time curr == 0) ≡ false = ground arith in
    let e' : (whole == 0) ≡ false = ground arith in
    let back : 100000 - (100000 - part * 100000 / whole) ≡ part * 100000 / whole = omega arith in
    (
      100000 - part * 100000 / whole,
      rw (t, t', e, d, d', e', share_words part whole (omega arith) (omega arith) small),
      omega arith,
      rw back b,
      rw back c,
    )

sub_size_self : (a : ℕ) → sub_size a a ≡ 0
sub_size_self a = omega arith

-- How the calls with other readings and arguments end: `NULL` is refused; the result is an error
-- exactly if both sums of counters are 0; and where the sums are equal, `*out` is left alone, also
-- if the result is a success.
pub cpu_total_usage-errors :
    (curr prev : Cpu) (out : ℕ)
    → (cpu_total_usage none (some prev) (some out) ≡ (err_invalid_arg, some out))
      × (cpu_total_usage (some curr) none (some out) ≡ (err_invalid_arg, some out))
      × (cpu_total_usage (some curr) (some prev) none ≡ (err_invalid_arg, none))
      × ((cpu_total_usage (some curr) (some prev) (some out)).0 ≡ (
          if get_total_time prev == 0 && get_total_time curr == 0 then err_internal else success))
      × ((if get_total_time prev == get_total_time curr
            then (cpu_total_usage (some curr) (some prev) (some out)).1
            else some out)
          ≡ some out)
unfolding cpu_total_usage
cpu_total_usage-errors curr prev out =
    (refl, refl, refl, ground arith, ground (arith, sub_size_self (get_total_time curr)))
