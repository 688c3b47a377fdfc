-- ===== src/GtkApp/Tests.antt =====
-- src/ui/gtk with one context.
use clueless_task_manager.Base.{
  ℕ, ◌≡◌, true, false, none, some, List, [], ◌∷◌, ℤ, pos, replicate, fault,
}
use clueless_task_manager.Clib.{codes}
use clueless_task_manager.Sampler.{Sampler, ProcessFn}
use clueless_task_manager.GtkStatusBar.{StatusBar}
use clueless_task_manager.GtkApp.{AppContext, context_of, Ui, app_context_create}
use clueless_task_manager.GtkProcessTab.{ProcessTab}
use clueless_task_manager.GtkProcessTab.Tests.{rows, keys, empty_tab, no_processes}
use clueless_task_manager.GtkProcessTab.Update.{IsProcessLists}
use clueless_task_manager.GtkProcessTab.Listing.{
  Listed, process_manager, process_manager-IsProcessLists,
}
use clueless_task_manager.GtkApp.Context.{app_context_create-outcome}

abbrev bar : StatusBar
bar = record {
  process_label = codes "Processes: 0";
  cpu_label = codes "CPU: 0%";
  memory_label = codes "Memory: 0%";
}

abbrev cpu : Sampler
cpu = record {
  ring = record { capacity = 100; count = 0; buffer = replicate 200 0; item_size = 2; head = 0 };
  interval_ms = 500;
  is_running = true;
  subscribed = true;
}

abbrev total_usage : ProcessFn
total_usage current previous = pos 42

abbrev percent : ℤ → List ℕ
percent v = codes "0.04"

-- tab 7, and a list of two processes
abbrev context : AppContext ℕ (List ℕ)
context = context_of 7 bar (1 ∷ 2 ∷ []) cpu

abbrev before_start : Ui ℕ (List ℕ)
before_start = record { g_ctx = none; timers = []; idles = []; quits = false }

app_context_create-outcome_example :
    app_context_create {Tab = ℕ} {Processes = List ℕ} true (some 7) none none none ≡ fault
app_context_create-outcome_example = app_context_create-outcome true (some 7) none none none

-- an application with an empty list
abbrev opened_window : Ui (ProcessTab rows) (Listed ⦃key = keys⦄)
opened_window = record {
  g_ctx = some (context_of empty_tab bar no_processes cpu);
  timers = [];
  idles = [];
  quits = false;
}

abbrev lists : IsProcessLists (process_manager ⦃key = keys⦄)
lists = process_manager-IsProcessLists ⦃key = keys⦄
