-- ===== src/Tui.antt =====
-- src/ui/tui/ui.c and src/ui/tui/process_tab.c: the process list on a terminal. What is drawn is a list of
-- the calls to ncurses; its pad has 100 rows.
pub mod Scroll
pub mod Rows
pub mod Live
mod Tests
use Prim.Native.String.{String}
use clueless_task_manager.Base.{
  ℕ, zero, suc, ◌+◌, ◌-◌, Bool, true, false, Option, none, some, List, [], ◌∷◌, ◌++◌, ◌==◌, ltb,
  if◌then◌else◌, length, ℤ, pos, negsuc, take,
}
use clueless_task_manager.Clib.{codes}
use clueless_task_manager.Process.{Process, process_pid, process_name, process_state}
use clueless_task_manager.ProcessManager.{
  Event, added, updated, removed, Callbacks, Dirent, process_list_refresh,
}

-- `mvwprintw` of a text, or of a number, padded to a width, and `mvwhline`
pub data Draw : Type 0 where
  text : (row column width : ℕ) → List ℕ → Draw
  number : (row column width : ℕ) → Option ℕ → Draw
  line : (row column width : ℕ) → Draw

-- `struct cell_t`; `align` is not read
pub record Cell : Type 0 where
  pub title : List ℕ
  pub width : ℕ

abbrev pub column_spacer : ℕ
column_spacer = 1

abbrev pub initial_data_row_num : ℕ
initial_data_row_num = 2

abbrev pub pad_rows : ℕ
pad_rows = 100

abbrev pub g_header_cells : List Cell
g_header_cells =
    record { title = codes "PID"; width = 6 }
    ∷ record { title = codes "Name"; width = 50 }
    ∷ record { title = codes "State"; width = 10 }
    ∷ []

-- the loop of `render_header`
pub render_cells : List Cell → ℕ → List Draw
render_cells [] offset = []
render_cells (cell ∷ cells) offset =
    text 0 offset cell.width cell.title
    ∷ line 1 offset cell.width
    ∷ render_cells cells (offset + cell.width + column_spacer)

pub render_header : List Draw
unfolding render_cells
render_header = render_cells g_header_cells column_spacer

-- the bytes of a buffer that an accessor may have filled
abbrev pub filled : Option (List ℕ) → List ℕ
filled none = []
filled (some bytes) = bytes

-- `render_process` in a row: `stack` is what the local buffers hold before they are filled.
pub render_process : List ℕ → ℕ → Process → List Draw
render_process stack row p =
    number row 1 6 (process_pid (some p) (some 0)).1
    ∷ text row 8 50 (filled (process_name (some p) (some stack) 256).1)
    ∷ text row 59 10 (filled (process_state (some p) (some stack) 32).1)
    ∷ []

-- the process a callback gets
pub subject : Event → Process
subject (added p) = p
subject (updated p) = p
subject (removed p) = p

-- `g_data_row_num` counts up with each process drawn.
pub render_events : List ℕ → ℕ → List Event → List Draw × ℕ
unfolding render_process subject
render_events stack row [] = ([], row)
render_events stack row (event ∷ events) =
    let (draws, row') = render_events stack (suc row) events in
    (render_process stack row (subject event) ++ draws, row')

pub render_each : List ℕ → ℕ → List Process → List Draw × ℕ
unfolding render_process
render_each stack row [] = ([], row)
render_each stack row (p ∷ ps) =
    let (draws, row') = render_each stack (suc row) ps in
    (render_process stack row p ++ draws, row')

pub record Tui : Type 0 where
  pub g_scroll_offset : ℕ
  pub g_data_row_num : ℕ
  pub g_process_list : List Process

abbrev pub all_callbacks : Callbacks
all_callbacks = record { on_added = true; on_updated = true; on_removed = true }

-- `render_process_list`, up to `prefresh`
pub render_process_list : List ℕ → Option (List Dirent) → Tui → List Draw × Tui
unfolding render_header render_events render_each
render_process_list stack dir t =
    let (result, events, ps) = process_list_refresh all_callbacks dir t.g_process_list in
    let (called, row) = render_events stack initial_data_row_num events in
    let (looped, row') = render_each stack row ps in
    (render_header ++ called ++ looped, record t { g_data_row_num = row'; g_process_list = ps })

pub data Key : Type 0 where
  key_up key_down key_q key_other : Key

-- The `switch` of `ui_start`, with `LINES`. The limit 100 - (LINES - 1) is an `int`, and may be negative.
pub handle_key : ℕ → Key → Tui → Tui
handle_key lines key_up t =
    if ltb 0 t.g_scroll_offset then record t { g_scroll_offset = t.g_scroll_offset - 1 } else t
handle_key lines key_down t =
    if ltb (t.g_scroll_offset + lines) (pad_rows + 1)
    then record t { g_scroll_offset = t.g_scroll_offset + 1 }
    else t
handle_key lines key_q t = t
handle_key lines key_other t = t

-- The loop of `ui_start`: for each turn up to the `q`, what /proc answers, and behind `getch`, which may take a new size
-- of the terminal in, LINES and the key.
pub ui_loop : List ℕ → List (Option (List Dirent) × ℕ × Key) → Tui → List Draw × Tui
unfolding render_process_list handle_key
ui_loop stack [] t = ([], t)
ui_loop stack ((dir, lines, key_q) ∷ turns) t = render_process_list stack dir t
ui_loop stack ((dir, lines, key) ∷ turns) t =
    let (draws, t') = render_process_list stack dir t in
    let (rest, t'') = ui_loop stack turns (handle_key lines key t') in (draws ++ rest, t'')

-- `process_tab_update`: the checks against `NULL`, the draws, and `*out` counted up for each process.
pub process_tab_update : Bool → Bool → Option (List Process) → ℕ → ℤ × List Draw × ℕ
process_tab_update true true (some ps) out = (
  pos 0,
  text 0 0 0 (codes "PID   PROCESS") ∷ text 1 0 0 (codes "------------------------------") ∷ [],
  out + length ps,
)
process_tab_update has_tab has_window ps out = (negsuc 0, [], out)

-- the variables at the start, with the list that `list_init` leaves
abbrev pub ui_initial : Tui
ui_initial = record {
  g_scroll_offset = 0;
  g_data_row_num = initial_data_row_num;
  g_process_list = [];
}

-- `ui_start`: what it returns, what it draws up to the `q`, and the variables at the end
unfoldable pub ui_start : List ℕ → List (Option (List Dirent) × ℕ × Key) → ℤ × List Draw × Tui
unfolding render_header ui_loop
ui_start stack turns =
    let (draws, t) = ui_loop stack turns ui_initial in (pos 0, render_header ++ draws, t)

-- `struct ProcessTab`: `window` and `panel` are what ncurses returns, `none` for `NULL`.
pub record ProcessTab : Type 0 where
  pub label : List ℕ
  pub window : Option ℕ
  pub panel : Option ℕ

-- `process_tab_create` into `*out_value`, with what `newwin` and `new_panel` return
pub process_tab_create :
    Option ProcessTab → Option ℕ → (Option ℕ → Option ℕ) → ℤ × Option ProcessTab
process_tab_create none window new_panel = (negsuc 0, none)
process_tab_create (some out_value) window new_panel =
    (pos 0, some (record { label = codes "Processes"; window = window; panel = new_panel window }))

-- `process_tab_destroy`: the panel and the window that it gives back, and then the tab
pub process_tab_destroy : Option ProcessTab → ℤ × List (Option ℕ)
process_tab_destroy none = (negsuc 0, [])
process_tab_destroy (some tab) = (pos 0, tab.panel ∷ tab.window ∷ [])

pub process_tab_register : Option ProcessTab → ℤ
process_tab_register tab = pos 0

-- `main` of src/main.c: the exit status
pub main : List ℕ → List (Option (List Dirent) × ℕ × Key) → ℤ
unfolding ui_start
main stack turns = (ui_start stack turns).0
