-- ===== src/GtkApp/Refresh.antt =====
-- The timer of src/ui/gtk/ui.c that refreshes the process tab of src/ui/gtk/process_tab.c and the count in the
-- status bar.
use clueless_task_manager.Base.{
  length, ℕ, ◌≡◌, Option, none, some, List, [], ◌∷◌, ℤ, Outcome, done, fault, ◌>>=◌,
}
use clueless_task_manager.HashMap.{Grants}
use clueless_task_manager.HashMap.Keys.{Key}
use clueless_task_manager.HashMap.Put.{granted}
use clueless_task_manager.GtkStatusBar.{StatusBar, status_bar_set_process_count}
use clueless_task_manager.GtkProcessTab.{Toolkit, ProcessLists, ProcessTab, process_tab_update}
use clueless_task_manager.GtkProcessTab.Update.{IsProcessLists, Agrees}
use clueless_task_manager.GtkApp.{Field, unwritten, null, holding, AppContext, Ui}
use clueless_task_manager.GtkApp.Callbacks.{on_update_process_tab}

-- the pointer in a field; there is none to use in one that is not written
as_pointer {ℓ} : {A : Type 0} {B : Type ℓ} → Field A → (Option A → Outcome B) → Outcome B
as_pointer unwritten use_it = fault
as_pointer null use_it = use_it none
as_pointer (holding a) use_it = use_it (some a)

as_field : {A : Type 0} → Option A → Field A
as_field none = null
as_field (some a) = holding a

module _ {T : Toolkit} ⦃key : Key ℤ⦄ (P : ProcessLists) where
  -- `process_tab_update` on the fields of a context
  pub update_fields :
      Grants
      → P.Answers
      → Field (ProcessTab T)
      → Field P.ProcessList
      → Outcome (ℕ × Field (ProcessTab T) × Field P.ProcessList)
  unfolding as_pointer as_field
  update_fields grants answers tab list = as_pointer tab λ tab'. as_pointer list λ list'.
      process_tab_update P grants answers tab' list' >>= λ r. done (r.0, as_field r.2, as_field r.3)

  -- The calls of `on_update_process_tab` by the timer, one for each of the answers of the system.
  pub update_timer :
      List P.Answers → Ui (ProcessTab T) P.ProcessList → Outcome (Ui (ProcessTab T) P.ProcessList)
  unfolding update_fields
  update_timer [] ui = done ui
  update_timer (answers ∷ later) ui =
      on_update_process_tab (update_fields granted answers) ui >>= update_timer later

module _ {T : Toolkit} ⦃key : Key ℤ⦄ {P : ProcessLists} (lists : IsProcessLists P) where
  -- the context is complete, its tab shows the pids of its list, and the label shows how many there are
  pub record Current (ui : Ui (ProcessTab T) P.ProcessList) : Type 0 where
    pub ctx : AppContext (ProcessTab T) P.ProcessList
    pub self : ProcessTab T
    pub list : P.ProcessList
    pub bar : StatusBar
    pub ctx_at : ui.g_ctx ≡ some ctx
    pub tab_at : ctx.process_tab ≡ holding self
    pub list_at : ctx.process_list ≡ holding list
    pub bar_at :
        ctx.status_bar ≡ holding (status_bar_set_process_count bar (length (lists.pids_of list)))
    pub agrees : Agrees lists self list
