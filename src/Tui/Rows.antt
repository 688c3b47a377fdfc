-- ===== src/Tui/Rows.antt =====
-- How many rows of the pad src/ui/tui/ui.c draws for its processes.
use clueless_task_manager.Base.{ℕ, suc, ◌+◌, ◌≡◌, Option, List, [], ◌∷◌, arith, length}
use clueless_task_manager.Process.{Process}
use clueless_task_manager.ProcessManager.{Event, Dirent, process_list_refresh}
use clueless_task_manager.Tui.{Tui, all_callbacks, render_events, render_each, render_process_list}

render_events-rows :
    (stack : List ℕ) (row : ℕ) (events : List Event)
    → (render_events stack row events).1 ≡ row + length events
unfolding render_events
render_events-rows stack row [] = ground arith
render_events-rows stack row (event ∷ events) =
    ground (arith, render_events-rows stack (suc row) events)

render_each-rows :
    (stack : List ℕ) (row : ℕ) (ps : List Process) → (render_each stack row ps).1 ≡ row + length ps
unfolding render_each
render_each-rows stack row [] = ground arith
render_each-rows stack row (p ∷ ps) = ground (arith, render_each-rows stack (suc row) ps)

-- After one call of `render_process_list`, the next row is behind two rows of header, one row for
-- each callback of the refresh, and one more row for each process that is listed afterwards.
pub render_process_list-rows :
    (stack : List ℕ) (dir : Option (List Dirent)) (t : Tui)
    → let (result, events, ps) = process_list_refresh all_callbacks dir t.g_process_list in
      (render_process_list stack dir t).1.g_data_row_num ≡ 2 + length events + length ps
unfolding render_process_list
render_process_list-rows stack dir t =
    let run = process_list_refresh all_callbacks dir t.g_process_list in
    let row = (render_events stack 2 run.1).1 in
    ground (arith, render_events-rows stack 2 run.1, render_each-rows stack row run.2)
