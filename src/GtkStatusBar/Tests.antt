-- ===== src/GtkStatusBar/Tests.antt =====
-- src/ui/gtk/status_bar.c at a count of five digits.
use clueless_task_manager.Base.{◌≡◌}
use clueless_task_manager.Clib.{codes}
use clueless_task_manager.GtkStatusBar.{StatusBar, status_bar_set_process_count}
use clueless_task_manager.GtkStatusBar.Labels.{status_bar_set_process_count-label}

abbrev bar : StatusBar
bar = record {
  process_label = codes "Processes: 0";
  cpu_label = codes "CPU: 0%";
  memory_label = codes "Memory: 0%";
}

status_bar_set_process_count-label_example :
    (status_bar_set_process_count bar 12345).process_label
    ≡ (status_bar_set_process_count bar 1234).process_label
status_bar_set_process_count-label_example = status_bar_set_process_count-label bar 12345
