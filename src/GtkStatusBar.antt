-- ===== src/GtkStatusBar.antt =====
-- src/ui/gtk/status_bar.c: the texts of the labels. How `snprintf` prints a number with two decimals, which is
-- not in the repository, is a parameter.
pub mod Labels
mod Tests
use Prim.Native.String.{String}
use clueless_task_manager.Base.{
  ℕ, ◌-◌, Bool, true, false, Option, none, some, List, [], ◌∷◌, ◌++◌, take, if◌then◌else◌, ℤ,
}
use clueless_task_manager.Clib.{codes}
use clueless_task_manager.Clib.Decimal.{digits}

-- `struct StatusBar`: the texts of its labels
pub record StatusBar : Type 0 where
  pub process_label : List ℕ
  pub cpu_label : List ℕ
  pub memory_label : List ℕ

pub status_bar_create : Bool → Option StatusBar
status_bar_create malloc_ok =
    if malloc_ok
    then some (record {
      process_label = codes "Processes: 0";
      cpu_label = codes "CPU: 0%";
      memory_label = codes "Memory: 0%";
    })
    else none

-- `snprintf` into the 16 bytes of each of the buffers
abbrev pub label_text : List ℕ → List ℕ
label_text text = take (16 - 1) text

unfoldable pub status_bar_set_process_count : StatusBar → ℕ → StatusBar
status_bar_set_process_count status_bar process_count = record status_bar {
  process_label = label_text (codes "Processes: " ++ digits process_count);
}

module _ (two_decimals : ℤ → List ℕ) where
  -- `two_decimals` is "%.2f" of the value divided by 1000.0.
  unfoldable pub status_bar_set_cpu_usage : StatusBar → ℤ → StatusBar
  status_bar_set_cpu_usage status_bar cpu_usage = record status_bar {
    cpu_label = label_text (codes "CPU: " ++ (two_decimals cpu_usage ++ codes "%"));
  }

  unfoldable pub status_bar_update : StatusBar → ℕ → ℤ → ℤ → StatusBar
  unfolding status_bar_set_process_count status_bar_set_cpu_usage
  status_bar_update status_bar process_count cpu_usage memory_usage =
      let memory_label_buf =
        label_text (codes "Memory: " ++ (two_decimals memory_usage ++ codes "%")) in
      let counted = status_bar_set_process_count status_bar process_count in
      let used = status_bar_set_cpu_usage counted cpu_usage in
      record used { memory_label = memory_label_buf }
