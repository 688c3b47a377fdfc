-- ===== src/Tui/Scroll.antt =====
-- The scroll offset of src/ui/tui/ui.c stays where the pad has rows.
use clueless_task_manager.Base.{ℕ, ◌+◌, ◌≤◌, ◌≡◌, Option, List, [], ◌∷◌, arith}
use clueless_task_manager.ProcessManager.{Dirent}
use clueless_task_manager.Tui.{
  Tui, Key, key_up, key_down, key_q, key_other, handle_key, ui_loop, render_process_list,
}

-- `prefresh` shows the LINES - 1 rows from the offset on; the last of them lies on the pad.
abbrev pub InPad : ℕ → Tui → Type 0
InPad lines t = t.g_scroll_offset + lines ≤ 101

handle_key-InPad :
    (lines : ℕ) (key : Key) (t : Tui) → InPad lines t → InPad lines (handle_key lines key t)
unfolding handle_key
handle_key-InPad lines key_up t h = ground arith
handle_key-InPad lines key_down t h = ground arith
handle_key-InPad lines key_q t h = h
handle_key-InPad lines key_other t h = h

render-scroll :
    (stack : List ℕ) (dir : Option (List Dirent)) (t : Tui)
    → (render_process_list stack dir t).1.g_scroll_offset ≡ t.g_scroll_offset
unfolding render_process_list
render-scroll stack dir t = ground arith

turn-InPad :
    (lines : ℕ) (stack : List ℕ) (dir : Option (List Dirent)) (key : Key) (t : Tui)
    → InPad lines t
    → InPad lines (handle_key lines key (render_process_list stack dir t).1)
turn-InPad lines stack dir key t h =
    handle_key-InPad lines key (render_process_list stack dir t).1
      (ground (arith, render-scroll stack dir t))

-- LINES at the end of these turns, the first of which begins with `lines`
abbrev pub last_lines : ℕ → List (Option (List Dirent) × ℕ × Key) → ℕ
last_lines lines [] = lines
last_lines lines ((dir, lines', key_q) ∷ turns) = lines'
last_lines lines ((dir, lines', key) ∷ turns) = last_lines lines' turns

-- no turn makes the terminal larger
abbrev pub Shrinks : ℕ → List (Option (List Dirent) × ℕ × Key) → Type 0
Shrinks lines [] = Unit {0}
Shrinks lines ((dir, lines', key) ∷ turns) = (lines' ≤ lines) × Shrinks lines' turns

-- If the scroll offset and LINES are at most 101 together, and the terminal is never made larger, they are so after
-- any keys, any other changes of LINES and any answers of /proc: the LINES - 1 rows that are shown from the offset
-- on lie on the pad of 100 rows.
pub ui_loop-InPad :
    (lines : ℕ) (stack : List ℕ) (turns : List (Option (List Dirent) × ℕ × Key)) (t : Tui)
    → Shrinks lines turns
    → InPad lines t
    → InPad (last_lines lines turns) (ui_loop stack turns t).1
unfolding ui_loop
ui_loop-InPad lines stack [] t s h = h
ui_loop-InPad lines stack ((dir, lines', key_q) ∷ turns) t s h =
    let small = s.0 in ground (arith, render-scroll stack dir t)
ui_loop-InPad lines stack ((dir, lines', key_up) ∷ turns) t s h =
    ui_loop-InPad lines' stack turns _ s.1
      (turn-InPad lines' stack dir key_up t (omega (arith, s.0)))
ui_loop-InPad lines stack ((dir, lines', key_down) ∷ turns) t s h =
    ui_loop-InPad lines' stack turns _ s.1
      (turn-InPad lines' stack dir key_down t (omega (arith, s.0)))
ui_loop-InPad lines stack ((dir, lines', key_other) ∷ turns) t s h =
    ui_loop-InPad lines' stack turns _ s.1
      (turn-InPad lines' stack dir key_other t (omega (arith, s.0)))
