-- ===== src/Tui/Tests.antt =====
-- src/ui/tui/ui.c on a terminal of 24 lines.
use clueless_task_manager.Base.{
  ℕ, ◌++◌, refl, true, false, listed, ◌+◌, ◌≡◌, Option, some, none, List, [], ◌∷◌, arith, length,
}
use clueless_task_manager.ProcessManager.{Dirent, process_list_refresh}
use clueless_task_manager.Process.{blank, is_success}
use clueless_task_manager.ProcessManager.Pids.{pids}
use clueless_task_manager.ProcessManager.Loop.{alive_since, nonzero_names}
use clueless_task_manager.ProcessManager.Tests.{proc, proc-nonzero, refresh_nothing-is_success}
use clueless_task_manager.Tui.Live.{Continues, ui_start-lists}
use clueless_task_manager.Tui.{
  Tui, Key, key_up, key_down, key_q, ui_loop, ui_initial, ui_start, render_process_list,
  all_callbacks,
}
use clueless_task_manager.Tui.Scroll.{InPad, last_lines, ui_loop-InPad}
use clueless_task_manager.Tui.Rows.{render_process_list-rows}

abbrev screen : Tui
screen = record { g_scroll_offset = 76; g_data_row_num = 2; g_process_list = blank ∷ [] }

-- one step on to the end of the pad, one that is refused, and one back
abbrev turns : List (Option (List Dirent) × ℕ × Key)
turns = (none, 24, key_down) ∷ (none, 24, key_down) ∷ (none, 24, key_up) ∷ (none, 20, key_q) ∷ []

ui_loop-InPad_example : InPad (last_lines 24 turns) (ui_loop [] turns screen).1
ui_loop-InPad_example =
    ui_loop-InPad 24 [] turns screen (omega arith, (omega arith, (omega arith, (omega arith, tt))))
      (omega arith)

render_process_list-rows_example :
    (render_process_list [] (some []) screen).1.g_data_row_num
    ≡ 2
      + length (process_list_refresh all_callbacks (some []) (blank ∷ [])).1
      + length (process_list_refresh all_callbacks (some []) (blank ∷ [])).2
render_process_list-rows_example = render_process_list-rows [] (some []) screen

-- One turn with no /proc, one that finds 7 and 9, and the q behind a last refresh.
abbrev session : List (Option (List Dirent) × ℕ × Key)
session = (none, 24, key_down) ∷ (some proc, 24, key_up) ∷ []

session-Continues : Continues session
unfolding nonzero_names
session-Continues = (λ e. ground (arith, e), refl, (λ e. ground (arith, e), proc-nonzero, tt))

session-read :
    is_success
      (process_list_refresh all_callbacks
        (some [])
        (ui_loop [] session ui_initial).1.g_process_list).0
    ≡ true
session-read = refresh_nothing-is_success _

ui_start-lists_example :
    let (code, draws, t) = ui_start [] (session ++ (some [], 30, key_q) ∷ []) in
    listed 7 (pids t.g_process_list) ≡ alive_since false [] 7
unfolding nonzero_names
ui_start-lists_example = ui_start-lists 30 [] session [] 7 session-Continues refl session-read
