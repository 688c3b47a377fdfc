-- ===== src/GtkApp/Context.antt =====
-- How the functions of src/ui/gtk/app_context.c end.
use clueless_task_manager.Base.{
  Bool, true, false, Option, none, some, [], ◌∷◌, if◌then◌else◌, pos, ◌≡◌, refl, Outcome, done,
  fault,
}
use clueless_task_manager.Sampler.{Sampler, ProcessFn, sampler_get_value}
use clueless_task_manager.GtkStatusBar.{StatusBar}
use clueless_task_manager.GtkApp.{
  unwritten, holding, process_tab_part, status_bar_part, process_list_part, sampler_part,
  context_part, AppContext, context_of, app_context_destroy, app_context_create, app_context_update,
  app_context_get_process_count, app_context_get_cpu_usage, app_context_get_memory_usage,
}

module _ {Tab Processes : Type 0} where
  -- the context of these parts, and a fault where one is missing
  abbrev pub complete :
      Option Tab
      → Option StatusBar
      → Option Processes
      → Option Sampler
      → Outcome (Option (AppContext Tab Processes))
  complete (some tab) (some bar) (some processes) (some sampler) =
      done (some (context_of tab bar processes sampler))
  complete tab bar processes sampler = fault

  -- `app_context_create` returns `NULL` only where its own `malloc` fails. Where all its parts are made it
  -- returns a context of them, whose count and usages are not written. Where any part fails, it
  -- destroys fields that were never written, and does not return.
  pub app_context_create-outcome :
      (malloc_ok : Bool) (tab : Option Tab) (bar : Option StatusBar) (processes : Option Processes)
      (sampler : Option Sampler)
      → app_context_create malloc_ok tab bar processes sampler
        ≡ (if malloc_ok then complete tab bar processes sampler else done none)
  unfolding app_context_create app_context_destroy
  app_context_create-outcome false tab bar processes sampler = refl
  app_context_create-outcome true none bar processes sampler = refl
  app_context_create-outcome true (some tab) none processes sampler = refl
  app_context_create-outcome true (some tab) (some bar) none sampler = refl
  app_context_create-outcome true (some tab) (some bar) (some processes) none = refl
  app_context_create-outcome true (some tab) (some bar) (some processes) (some sampler) = refl

  -- Where all parts are made, `app_context_create` returns a context, and `app_context_update` writes into
  -- it the value that its sampler gives over 10 captures; the getters then return that value and no memory
  -- usage, while the count of processes is read unwritten. Destroying it then gives back each of its
  -- parts once, the context last.
  pub app_context_create-update :
      (tab : Tab) (bar : StatusBar) (processes : Processes) (sampler : Sampler) (f : ProcessFn)
      → (ctx ctx' : AppContext Tab Processes) × (app_context_create true
            (some tab)
            (some bar)
            (some processes)
            (some sampler)
          ≡ done (some ctx))
        × (app_context_update f (some ctx) ≡ done (some ctx'))
        × (app_context_get_cpu_usage (some ctx')
            ≡ holding (sampler_get_value (some sampler) 10 (some f)).0)
        × (app_context_get_memory_usage (some ctx') ≡ holding (pos 0))
        × (app_context_get_process_count (some ctx') ≡ unwritten)
        × (app_context_destroy (some ctx')
            ≡ done (
                process_tab_part ∷ status_bar_part ∷ process_list_part ∷ sampler_part ∷ context_part
                ∷ []))
  unfolding app_context_create app_context_update app_context_destroy app_context_get_cpu_usage
      app_context_get_memory_usage app_context_get_process_count
  app_context_create-update tab bar processes sampler f = (_, _, refl, refl, refl, refl, refl, refl)
