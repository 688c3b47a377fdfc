-- ===== src/GtkApp/Callbacks.antt =====
-- src/ui/gtk/ui.c: the start of the application and the callbacks of its main loop. `process_tab_update` and what
-- stands for `cpu_get_total_usage` are arguments.
use clueless_task_manager.Base.{
  ℕ, Bool, true, false, Option, none, some, List, [], ◌∷◌, ◌++◌, ℤ, ◌≡◌, refl, Outcome, done, fault,
  Returns, ◌>>=◌,
}
use clueless_task_manager.Sampler.{Sampler, ProcessFn, sampler_get_value}
use clueless_task_manager.GtkStatusBar.{
  StatusBar, status_bar_set_process_count, status_bar_set_cpu_usage,
}
use clueless_task_manager.GtkApp.{
  Field, unwritten, null, holding, AppContext, context_of, UserData, of_sampler, of_context,
  update_process_tab, cpu_sampled, Ui, app_context_create, app_context_get_process_list,
  app_context_get_process_tab, app_context_destroy, Part, process_tab_part, status_bar_part,
  process_list_part, sampler_part, context_part,
}

module _ {Tab Processes : Type 0} where
  -- a use of the status bar of the context: a fault where it is `NULL` or not written
  abbrev with_status_bar : (StatusBar → StatusBar) → Ui Tab Processes → Outcome (Ui Tab Processes)
  with_status_bar change ui = elim ui.g_ctx [
    | none ↦ fault
    | some ctx ↦ elim ctx.status_bar [
      | unwritten ↦ fault
      | null ↦ fault
      | holding bar ↦
          done (record ui { g_ctx = some (record ctx { status_bar = holding (change bar) }) })
    ]
  ]

  -- `on_update_cpu_usage`: the user data is taken for a sampler.
  unfoldable pub on_update_cpu_usage :
      (ℤ → List ℕ)
      → ProcessFn
      → UserData Tab Processes
      → Ui Tab Processes
      → Outcome (Ui Tab Processes)
  on_update_cpu_usage two_decimals process_fn (of_context ctx) ui = fault
  on_update_cpu_usage two_decimals process_fn (of_sampler s) ui =
      let (sample, errno) = sampler_get_value (some s) 10 (some process_fn) in
      with_status_bar (λ bar. status_bar_set_cpu_usage two_decimals bar sample) ui

  -- `on_cpu_sampled`: `g_idle_add`
  unfoldable pub on_cpu_sampled : UserData Tab Processes → Ui Tab Processes → Ui Tab Processes
  on_cpu_sampled user_data ui = record ui { idles = ui.idles ++ user_data ∷ [] }

  -- `on_update_process_tab` with the context that `activate` passes, which `g_ctx` is too
  unfoldable pub on_update_process_tab :
      (Field Tab → Field Processes → Outcome (ℕ × Field Tab × Field Processes))
      → Ui Tab Processes
      → Outcome (Ui Tab Processes)
  on_update_process_tab process_tab_update ui =
      process_tab_update (app_context_get_process_tab ui.g_ctx)
        (app_context_get_process_list ui.g_ctx)
      >>= λ r.
          let (process_count, tab, processes) = r in
          let updated = elim ui.g_ctx as (λ x. Option (AppContext Tab Processes)) [
            | none ↦ none
            | some ctx ↦ some (record ctx { process_tab = tab; process_list = processes })
          ] in
          with_status_bar (λ bar. status_bar_set_process_count bar process_count)
            (record ui { g_ctx = updated })

  -- `activate`, less the widgets; `created` is what `app_context_create` returns.
  unfoldable pub activate :
      (has_app : Bool)
      → Outcome (Option (AppContext Tab Processes))
      → Ui Tab Processes
      → Outcome (Ui Tab Processes)
  activate false created ui = done ui
  activate true created ui = created >>= λ g_ctx. elim g_ctx [
    | none ↦ done (record ui { g_ctx = none; quits = true })
    | some ctx ↦ elim (app_context_get_process_tab (some ctx)) [
      | unwritten ↦ fault
      | null ↦ done (record ui { g_ctx = some ctx; quits = true })
      | holding tab ↦ done (record ui {
        g_ctx = some ctx;
        timers =
            ui.timers
            ++ (1000, update_process_tab, of_context ctx)
              ∷ (1000, cpu_sampled, of_context ctx)
              ∷ [];
      })
    ]
  ]

  -- `destroy` of the window: what it gives back
  pub destroy : Ui Tab Processes → Outcome (List Part)
  destroy ui = app_context_destroy ui.g_ctx

  -- A window that was activated with a complete context gives back each of its parts when it is destroyed,
  -- the context last.
  pub destroy-activate :
      (tab : Tab) (bar : StatusBar) (processes : Processes) (sampler : Sampler)
      (ui : Ui Tab Processes)
      → Returns
          (activate true
            (app_context_create true (some tab) (some bar) (some processes) (some sampler))
            ui)
          (λ ui'.
            destroy ui'
            ≡ done (
                process_tab_part ∷ status_bar_part ∷ process_list_part ∷ sampler_part ∷ context_part
                ∷ []))
  unfolding activate app_context_create app_context_get_process_tab destroy app_context_destroy
  destroy-activate tab bar processes sampler ui = (_, refl, refl)

  -- Once the application is activated with a complete context, its second timer, when it fires, queues an
  -- idle call that takes the context for a sampler; a sample of the sampler itself changes the text of the
  -- processor's label.
  pub activate-cpu_timer :
      (two_decimals : ℤ → List ℕ) (f : ProcessFn) (tab : Tab) (bar : StatusBar)
      (processes : Processes) (sampler : Sampler) (ui : Ui Tab Processes)
      → ui.timers ≡ []
      → ui.idles ≡ []
      → let ctx = context_of tab bar processes sampler in
        (ui' : Ui Tab Processes) × (activate true
            (app_context_create true (some tab) (some bar) (some processes) (some sampler))
            ui
          ≡ done ui')
        × (ui'.timers
            ≡ (1000, update_process_tab, of_context ctx) ∷ (1000, cpu_sampled, of_context ctx) ∷ [])
        × ((on_cpu_sampled (of_context ctx) ui').idles ≡ of_context ctx ∷ [])
        × (on_update_cpu_usage two_decimals f (of_context ctx) (on_cpu_sampled (of_context ctx) ui')
            ≡ fault)
        × (on_update_cpu_usage two_decimals f (of_sampler sampler) ui'
            ≡ done (record ui' {
              g_ctx = some (record ctx {
                status_bar = holding (
                    status_bar_set_cpu_usage two_decimals bar
                      (sampler_get_value (some sampler) 10 (some f)).0);
              });
            }))
  unfolding activate app_context_create app_context_get_process_tab on_cpu_sampled
      on_update_cpu_usage
  activate-cpu_timer two_decimals f tab bar processes sampler ui no_timers no_idles =
      (_, refl, rw no_timers refl, rw no_idles refl, refl, refl)
