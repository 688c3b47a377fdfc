-- ===== src/GtkApp.antt =====
-- src/ui/gtk/app_context.c and ui.c: what the window keeps, and the callbacks that the main loop of GTK calls.
-- The process list, whose functions are not in the repository, and the widgets of the tab are types.
pub mod Context
pub mod Callbacks
pub mod Refresh
pub mod Widgets
mod Tests
use clueless_task_manager.Base.{
  ℕ, Bool, true, false, Option, none, some, List, [], ◌∷◌, ◌++◌, if◌then◌else◌, ℤ, pos, negsuc,
  Outcome, done, fault, ◌>>=◌,
}
use clueless_task_manager.Sampler.{Sampler, ProcessFn, sampler_get_value}
use clueless_task_manager.GtkStatusBar.{
  StatusBar, status_bar_set_process_count, status_bar_set_cpu_usage,
}

-- A field of a structure from `malloc`: not written yet, `NULL`, or a value.
pub data Field (A : Type 0) : Type 0 where
  unwritten null : Field A
  holding : A → Field A

pub data Callback : Type 0 where
  update_process_tab cpu_sampled : Callback

-- what `app_context_destroy` gives back
pub data Part : Type 0 where
  process_tab_part status_bar_part process_list_part sampler_part context_part : Part

module _ (Tab Processes : Type 0) where
  -- `struct AppContext`
  pub record AppContext : Type 0 where
    pub process_tab : Field Tab
    pub status_bar : Field StatusBar
    pub process_list : Field Processes
    pub cpu_sampler : Field Sampler
    pub memory_sampler : Field Sampler
    pub process_count : Field ℕ
    pub total_cpu_usage : Field ℤ
    pub total_memory_usage : Field ℤ

  -- what the main loop passes to a callback
  pub data UserData : Type 0 where
    of_sampler : Sampler → UserData
    of_context : AppContext → UserData

  -- `g_ctx`, the timers with their intervals, the idle calls of `on_update_cpu_usage`, and whether the
  -- application was told to quit
  pub record Ui : Type 0 where
    pub g_ctx : Option AppContext
    pub timers : List (ℕ × Callback × UserData)
    pub idles : List UserData
    pub quits : Bool

-- The functions that destroy a part do nothing on `NULL`, and follow any other pointer.
abbrev release : {A : Type 0} → Part → Field A → Outcome (List Part)
release part unwritten = fault
release part null = done []
release part (holding a) = done (part ∷ [])

module _ {Tab Processes : Type 0} where
  abbrev pub from_malloc : AppContext Tab Processes
  from_malloc = record {
    process_tab = unwritten;
    status_bar = unwritten;
    process_list = unwritten;
    cpu_sampler = unwritten;
    memory_sampler = unwritten;
    process_count = unwritten;
    total_cpu_usage = unwritten;
    total_memory_usage = unwritten;
  }

  -- all that `app_context_create` writes
  abbrev pub context_of : Tab → StatusBar → Processes → Sampler → AppContext Tab Processes
  context_of tab bar processes sampler = record from_malloc {
    process_tab = holding tab;
    status_bar = holding bar;
    process_list = holding processes;
    cpu_sampler = holding sampler;
    memory_sampler = null;
  }

  unfoldable pub app_context_destroy : Option (AppContext Tab Processes) → Outcome (List Part)
  app_context_destroy none = done []
  app_context_destroy (some ctx) = release process_tab_part ctx.process_tab >>= λ tab.
      release status_bar_part ctx.status_bar >>= λ bar.
      release process_list_part ctx.process_list >>= λ processes.
      release sampler_part ctx.cpu_sampler >>= λ cpu.
      release sampler_part ctx.memory_sampler >>= λ memory.
      done (tab ++ (bar ++ (processes ++ (cpu ++ (memory ++ context_part ∷ [])))))

  -- the way out of a failure: the context is destroyed, and `NULL` is returned
  abbrev give_up : AppContext Tab Processes → Outcome (Option (AppContext Tab Processes))
  give_up ctx = app_context_destroy (some ctx) >>= λ parts. done none

  -- `app_context_create`, with what the functions it calls return
  unfoldable pub app_context_create :
      Bool
      → Option Tab
      → Option StatusBar
      → Option Processes
      → Option Sampler
      → Outcome (Option (AppContext Tab Processes))
  unfolding app_context_destroy
  app_context_create false tab bar processes sampler = done none
  app_context_create true none bar processes sampler =
      give_up (record from_malloc { process_tab = null })
  app_context_create true (some tab) none processes sampler =
      give_up (record from_malloc { process_tab = holding tab; status_bar = null })
  app_context_create true (some tab) (some bar) none sampler = give_up (record from_malloc {
    process_tab = holding tab;
    status_bar = holding bar;
    process_list = null;
  })
  app_context_create true (some tab) (some bar) (some processes) none =
      give_up (record from_malloc {
        process_tab = holding tab;
        status_bar = holding bar;
        process_list = holding processes;
        cpu_sampler = null;
      })
  app_context_create true (some tab) (some bar) (some processes) (some sampler) =
      done (some (context_of tab bar processes sampler))

  -- `process_fn` is what stands for `cpu_get_total_usage`.
  unfoldable pub app_context_update :
      ProcessFn → Option (AppContext Tab Processes) → Outcome (Option (AppContext Tab Processes))
  app_context_update process_fn none = done none
  app_context_update process_fn (some ctx) =
      let sampled = λ (s : Option Sampler). done (
        some (record ctx {
          total_cpu_usage = holding (sampler_get_value s 10 (some process_fn)).0;
          total_memory_usage = holding (pos 0);
        })) in
      elim ctx.cpu_sampler [
        | unwritten ↦ fault
        | null ↦ sampled none
        | holding s ↦ sampled (some s)
      ]

  unfoldable pub app_context_get_process_list : Option (AppContext Tab Processes) → Field Processes
  app_context_get_process_list none = null
  app_context_get_process_list (some ctx) = ctx.process_list

  unfoldable pub app_context_get_process_count : Option (AppContext Tab Processes) → Field ℕ
  app_context_get_process_count none = holding 0
  app_context_get_process_count (some ctx) = ctx.process_count

  unfoldable pub app_context_get_cpu_usage : Option (AppContext Tab Processes) → Field ℤ
  app_context_get_cpu_usage none = holding (negsuc 0)
  app_context_get_cpu_usage (some ctx) = ctx.total_cpu_usage

  unfoldable pub app_context_get_memory_usage : Option (AppContext Tab Processes) → Field ℤ
  app_context_get_memory_usage none = holding (negsuc 0)
  app_context_get_memory_usage (some ctx) = ctx.total_memory_usage

  unfoldable pub app_context_get_process_tab : Option (AppContext Tab Processes) → Field Tab
  app_context_get_process_tab none = null
  app_context_get_process_tab (some ctx) = ctx.process_tab

  unfoldable pub app_context_get_status_bar : Option (AppContext Tab Processes) → Field StatusBar
  app_context_get_status_bar none = null
  app_context_get_status_bar (some ctx) = ctx.status_bar
