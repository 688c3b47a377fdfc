-- ===== src/GtkApp/Widgets.antt =====
-- The widgets of src/ui/gtk/ui.c, process_tab.c and status_bar.c: the calls that make and pack them, in order. What
-- GTK does with them is not modelled, but for the tree that the packing makes.
use Prim.Native.String.{String}
use clueless_task_manager.Base.{
  ℕ, zero, suc, ◌==◌, ◌≡◌, refl, Bool, true, false, ◌&&◌, List, [], ◌∷◌, ◌++◌, if◌then◌else◌, ℤ,
}
use clueless_task_manager.GtkApp.{Callback, update_process_tab, cpu_sampled}
use clueless_task_manager.GtkProcessTab.Columns.{
  ColumnType, ProcessColumn, columns, ViewColumn, append_columns, visual_order,
}
use mathlib.Core.List.{map}

pub data Widget : Type 0 where
  window vbox notebook well_frame scrolled_window view : Widget
  status_box process_label cpu_label memory_label : Widget

pub data GtkCall : Type 0 where
  horizontal_box_new vertical_box_new : Widget → ℕ → GtkCall
  window_new notebook_new scrolled_window_new frame_new tree_view_new : Widget → GtkCall
  list_store_new : List ColumnType → GtkCall
  label_new : Widget → String → GtkCall
  set_title : Widget → String → GtkCall
  set_default_size set_size_request : Widget → ℕ → ℕ → GtkCall
  set_border_width : Widget → ℕ → GtkCall
  set_margin_top set_margin_bottom set_margin_start set_margin_end : Widget → ℕ → GtkCall
  set_policy_automatic set_shadow_etched_in : Widget → GtkCall
  container_add pack_start pack_end : Widget → Widget → GtkCall
  append_page : Widget → Widget → String → GtkCall
  append_column : Widget → ViewColumn → GtkCall
  connect_destroy show_all : Widget → GtkCall
  timeout_add : ℕ → Callback → GtkCall
  application_quit application_new connect_activate application_unref : GtkCall

-- `status_bar_create`, if its `malloc` succeeds
abbrev pub status_bar_calls : List GtkCall
status_bar_calls =
    horizontal_box_new status_box 10
    ∷ label_new process_label "Processes: 0"
    ∷ label_new cpu_label "CPU: 0%"
    ∷ label_new memory_label "Memory: 0%"
    ∷ pack_start status_box process_label
    ∷ pack_start status_box cpu_label
    ∷ pack_start status_box memory_label
    ∷ []

-- `process_tab_create`, if its `malloc` succeeds
unfoldable pub process_tab_calls : List GtkCall
process_tab_calls =
    scrolled_window_new scrolled_window
    ∷ set_policy_automatic scrolled_window
    ∷ set_size_request scrolled_window 800 600
    ∷ frame_new well_frame
    ∷ set_shadow_etched_in well_frame
    ∷ set_margin_top well_frame 20
    ∷ set_margin_bottom well_frame 20
    ∷ set_margin_start well_frame 20
    ∷ set_margin_end well_frame 20
    ∷ list_store_new (map (λ (c : ProcessColumn). c.type) columns)
    ∷ tree_view_new view
    ∷ container_add scrolled_window view
    ∷ container_add well_frame scrolled_window
    ∷ map (append_column view) (append_columns visual_order)

-- `process_tab_register`; the arguments are whether the tab and the container are given.
abbrev pub process_tab_register_calls : Bool → Bool → Widget → List GtkCall
process_tab_register_calls has_tab has_container tab_container =
    if has_tab && has_container then append_page tab_container well_frame "Processes" ∷ [] else []

-- `status_bar_register`
abbrev pub status_bar_register_calls : Bool → Bool → Widget → List GtkCall
status_bar_register_calls has_bar has_container status_bar_container =
    if has_bar && has_container then pack_end status_bar_container status_box ∷ [] else []

-- What `activate` does before the process tab is looked at.
abbrev layout_calls : List GtkCall
layout_calls =
    window_new window
    ∷ set_title window "Clueless Task Manager"
    ∷ set_default_size window 800 600
    ∷ set_border_width window 0
    ∷ vertical_box_new vbox 0
    ∷ set_border_width vbox 0
    ∷ notebook_new notebook
    ∷ set_border_width notebook 10
    ∷ []

-- `activate`: whether the application is given, and whether `app_context_create` makes a context or fails in its
-- own `malloc`; where it fails in a part it does not return.
unfoldable pub activate_calls : (has_app context_made : Bool) → List GtkCall
unfolding process_tab_calls
activate_calls false context_made = []
activate_calls true false = layout_calls ++ application_quit ∷ []
activate_calls true true =
    process_tab_calls
    ++ status_bar_calls
    ++ layout_calls
    ++ process_tab_register_calls true true notebook
    ++ (container_add window vbox ∷ pack_start vbox notebook ∷ [])
    ++ status_bar_register_calls true true vbox
    ++ connect_destroy window
      ∷ timeout_add 1000 update_process_tab
      ∷ timeout_add 1000 cpu_sampled
      ∷ show_all window
      ∷ []

-- `ui_start`: `during` is what is called while `g_application_run` runs, and `status` what it returns.
unfoldable pub ui_start_calls : List GtkCall → ℤ → List GtkCall × ℤ
ui_start_calls during status =
    (application_new ∷ connect_activate ∷ during ++ application_unref ∷ [], status)

abbrev number : Widget → ℕ
number window = 0
number vbox = 1
number notebook = 2
number well_frame = 3
number scrolled_window = 4
number view = 5
number status_box = 6
number process_label = 7
number cpu_label = 8
number memory_label = 9

-- the widgets that are packed into one, in the order of the calls
unfoldable pub packed_into : Widget → List GtkCall → List Widget
packed_into w [] = []
packed_into w (container_add parent child ∷ calls) =
    let rest = packed_into w calls in if number parent == number w then child ∷ rest else rest
packed_into w (pack_start parent child ∷ calls) =
    let rest = packed_into w calls in if number parent == number w then child ∷ rest else rest
packed_into w (pack_end parent child ∷ calls) =
    let rest = packed_into w calls in if number parent == number w then child ∷ rest else rest
packed_into w (append_page parent child title ∷ calls) =
    let rest = packed_into w calls in if number parent == number w then child ∷ rest else rest
packed_into w (call ∷ calls) = packed_into w calls

-- these widgets and all that is packed below them, on fuel
unfoldable pub below : ℕ → List GtkCall → List Widget → List Widget
unfolding packed_into
below zero calls ws = []
below (suc f) calls [] = []
below (suc f) calls (w ∷ ws) = w ∷ below f calls (packed_into w calls ++ ws)

-- the widgets that are on the screen when `gtk_widget_show_all` has been called
unfoldable pub shown : List GtkCall → List GtkCall → List Widget
unfolding below
shown before [] = []
shown before (show_all w ∷ calls) = below 20 before (w ∷ []) ++ shown before calls
shown before (call ∷ calls) = shown before calls

-- Where `activate` gets a context, all widgets are packed below the window when it is shown, each in one place;
-- otherwise nothing is shown. The fuel of 20 is more than the ten widgets need.
pub activate-shown :
    (has_app context_made : Bool)
    → let calls = activate_calls has_app context_made in
      shown calls calls ≡ (
        if has_app && context_made
        then window ∷ vbox ∷ notebook ∷ well_frame ∷ scrolled_window ∷ view ∷ status_box
          ∷ process_label ∷ cpu_label ∷ memory_label ∷ []
        else [])
unfolding activate_calls process_tab_calls shown below packed_into append_columns
activate-shown false context_made = refl
activate-shown true false = refl
activate-shown true true = refl
