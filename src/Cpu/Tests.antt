-- ===== src/Cpu/Tests.antt =====
-- src/metrics/cpu.c on two readings.
use clueless_task_manager.Base.{
  ℕ, ◌+◌, ◌-◌, ◌*◌, ◌<◌, ◌≤◌, ◌≡◌, some, none, [], ◌∷◌, ◌++◌, length, arith,
}
use clueless_task_manager.Clib.{codes}
use clueless_task_manager.Clib.Decimal.{digits, digits_from, print_all}
use clueless_task_manager.Cpu.RoundTrip.{Fits, stat_line, cpu_read-stat_line}
use clueless_task_manager.Cpu.{
  Cpu, cpu_read, success, err_invalid_arg, cpu_total_usage, get_total_time,
}
use clueless_task_manager.Cpu.Usage.{cpu_total_usage-bounds, cpu_total_usage-errors}

abbrev reading : ℕ → ℕ → Cpu
reading busy idle = record {
  user = busy;
  nice = 0;
  system = 10;
  idle = idle;
  iowait = 0;
  irq = 0;
  softirq = 0;
  steal = 0;
  guest = 0;
  guest_nice = 0;
}

cpu_total_usage-bounds_example :
    (usage : ℕ) × (cpu_total_usage (some (reading 150 100)) (some (reading 100 50)) (some 7)
      ≡ (success, some usage))
    × (usage ≤ 100000)
    × ((100000 - usage) * 100 ≤ 50 * 100000)
    × (50 * 100000 < (100000 - usage + 1) * 100)
cpu_total_usage-bounds_example =
    cpu_total_usage-bounds (reading 150 100) (reading 100 50) 7 (omega arith) (omega arith)
      (omega arith) (omega arith) (omega arith)

cpu_total_usage-errors_example :
    (cpu_total_usage none (some (reading 100 50)) (some 7) ≡ (err_invalid_arg, some 7))
    × (cpu_total_usage (some (reading 100 50)) none (some 7) ≡ (err_invalid_arg, some 7))
    × (cpu_total_usage (some (reading 100 50)) (some (reading 100 50)) none
        ≡ (err_invalid_arg, none))
    × ((cpu_total_usage (some (reading 100 50)) (some (reading 100 50)) (some 7)).0 ≡ success)
    × ((cpu_total_usage (some (reading 100 50)) (some (reading 100 50)) (some 7)).1 ≡ some 7)
unfolding get_total_time
cpu_total_usage-errors_example = cpu_total_usage-errors (reading 100 50) (reading 100 50) 7

reading-Fits : Fits (reading 150 100)
reading-Fits = record {
  user = omega arith;
  nice = omega arith;
  system = omega arith;
  idle = omega arith;
  iowait = omega arith;
  irq = omega arith;
  softirq = omega arith;
  steal = omega arith;
  guest = omega arith;
  guest_nice = omega arith;
}

reading-short : length (stat_line (reading 150 100)) < 1024
unfolding stat_line digits digits_from print_all
reading-short = omega arith

cpu_read-stat_line_example :
    cpu_read (some (stat_line (reading 150 100) ++ b'\n' ∷ codes "cpu0 1")) [] (some (reading 0 0))
    ≡ (success, some (reading 150 100))
cpu_read-stat_line_example =
    cpu_read-stat_line (reading 150 100) (reading 0 0) (codes "cpu0 1") [] reading-Fits
      reading-short
