-- ===== src/Tui/Live.antt =====
-- The process list of a whole run of src/ui/tui/ui.c.
use clueless_task_manager.Base.{
  ℕ, ◌≡◌, ◌≢◌, refl, sym, ◌∙◌, ap, true, false, Option, some, List, [], ◌∷◌, ◌++◌, listed, distinct,
  arith,
}
use clueless_task_manager.Process.{is_success}
use clueless_task_manager.ProcessManager.{Dirent, process_list_refresh}
use clueless_task_manager.ProcessManager.Pids.{pids}
use clueless_task_manager.ProcessManager.Loop.{nonzero_names, entries_of, alive_since}
use clueless_task_manager.ProcessManager.Refresh.{
  process_list_refresh-lists, process_list_refresh-distinct,
}
use clueless_task_manager.Tui.{
  Tui, Key, key_up, key_down, key_q, key_other, handle_key, ui_loop, ui_start, ui_initial,
  render_process_list, all_callbacks,
}

-- turns before the end: none presses q, and no entry of /proc names the pid 0
abbrev pub Continues : List (Option (List Dirent) × ℕ × Key) → Type 0
Continues [] = Unit {0}
Continues ((dir, lines, key) ∷ turns) =
    (key ≢ key_q) × (nonzero_names (entries_of dir) ≡ true) × Continues turns

-- what a turn makes of the screen, drawn and then scrolled
abbrev turned : ℕ → List ℕ → Option (List Dirent) → Key → Tui → Tui
turned lines stack dir key t = handle_key lines key (render_process_list stack dir t).1

turned-list :
    (lines : ℕ) (stack : List ℕ) (dir : Option (List Dirent)) (key : Key) (t : Tui)
    → (turned lines stack dir key t).g_process_list
      ≡ (process_list_refresh all_callbacks dir t.g_process_list).2
unfolding handle_key render_process_list
turned-list lines stack dir key_up t = ground arith
turned-list lines stack dir key_down t = ground arith
turned-list lines stack dir key_q t = ground arith
turned-list lines stack dir key_other t = ground arith

ui_loop-turn :
    (lines : ℕ) (stack : List ℕ) (dir : Option (List Dirent)) (key : Key)
    (turns : List (Option (List Dirent) × ℕ × Key)) (t : Tui)
    → key ≢ key_q
    → (ui_loop stack ((dir, lines, key) ∷ turns) t).1
      ≡ (ui_loop stack turns (turned lines stack dir key t)).1
unfolding ui_loop
ui_loop-turn lines stack dir key_up turns t ne = refl
ui_loop-turn lines stack dir key_down turns t ne = refl
ui_loop-turn lines stack dir key_q turns t ne = absurd (ne refl)
ui_loop-turn lines stack dir key_other turns t ne = refl

-- The turns before the last are done, and the last refreshes what they leave.
ui_loop-last :
    (last : ℕ) (stack : List ℕ) (turns : List (Option (List Dirent) × ℕ × Key))
    (dir : Option (List Dirent)) (t : Tui)
    → Continues turns
    → (ui_loop stack (turns ++ (dir, last, key_q) ∷ []) t).1.g_process_list
      ≡ (process_list_refresh all_callbacks dir (ui_loop stack turns t).1.g_process_list).2
unfolding ui_loop render_process_list
ui_loop-last last stack [] dir t h = refl
ui_loop-last last stack ((d, lines, key) ∷ turns) dir t (ne, nonzero, h) =
    ap (λ t. t.g_process_list)
      (ui_loop-turn lines stack d key (turns ++ (dir, last, key_q) ∷ []) t ne)
    ∙ ui_loop-last last stack turns dir (turned lines stack d key t) h
    ∙ ap (λ (t : Tui). (process_list_refresh all_callbacks dir t.g_process_list).2)
        (sym (ui_loop-turn lines stack d key turns t ne))

ui_loop-distinct :
    (stack : List ℕ) (turns : List (Option (List Dirent) × ℕ × Key)) (t : Tui)
    → Continues turns
    → distinct (pids t.g_process_list) ≡ true
    → distinct (pids (ui_loop stack turns t).1.g_process_list) ≡ true
unfolding ui_loop
ui_loop-distinct stack [] t h d = d
ui_loop-distinct stack ((dir, lines, key) ∷ turns) t (ne, nonzero, h) d =
    let next = process_list_refresh-distinct all_callbacks dir t.g_process_list nonzero d in
    ap (λ (t : Tui). distinct (pids t.g_process_list)) (ui_loop-turn lines stack dir key turns t ne)
    ∙ ui_loop-distinct stack turns (turned lines stack dir key t) h
        (ap (λ ps. distinct (pids ps)) (turned-list lines stack dir key t) ∙ next)

-- In every run of the program on a terminal that ends with q: whatever keys were pressed, whatever /proc held
-- and whatever the size of the terminal was before, if the last refresh succeeds, the list holds exactly the pids that were read in it. No
-- entry of /proc names the pid 0.
pub ui_start-lists :
    (last : ℕ) (stack : List ℕ) (turns : List (Option (List Dirent) × ℕ × Key)) (dir : List Dirent)
    (pid : ℕ)
    → Continues turns
    → nonzero_names dir ≡ true
    → is_success
        (process_list_refresh all_callbacks
          (some dir)
          (ui_loop stack turns ui_initial).1.g_process_list).0
      ≡ true
    → let (code, draws, t) = ui_start stack (turns ++ (some dir, last, key_q) ∷ []) in
      listed pid (pids t.g_process_list) ≡ alive_since false dir pid
unfolding ui_start distinct pids
ui_start-lists last stack turns dir pid h nonzero ok =
    let before = (ui_loop stack turns ui_initial).1.g_process_list in
    let apart = ui_loop-distinct stack turns ui_initial h refl in
    ap (λ ps. listed pid (pids ps)) (ui_loop-last last stack turns (some dir) ui_initial h)
    ∙ process_list_refresh-lists all_callbacks dir before pid nonzero apart ok
