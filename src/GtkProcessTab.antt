-- ===== src/GtkProcessTab.antt =====
-- src/ui/gtk/process_tab.c: the rows of a GTK list store, found by pid through a hash map. The store,
-- the accessors of a process and the process list, which are not in the repository, are parameters.
pub mod Steps
pub mod Domain
pub mod Update
pub mod Listing
pub mod Columns
pub mod Tests
use clueless_task_manager.Base.{
  ℕ, ◌-◌, ◌^◌, ◌≡◌, ◌≢◌, Bool, true, false, ◌&&◌, Option, none, some, List, [], ◌∷◌, ltb,
  if◌then◌else◌, ℤ, pos, negsuc, Outcome, done, ◌>>=◌,
}
use clueless_task_manager.HashMap.{HashMap, put, get, remove, create, Grants}
use clueless_task_manager.HashMap.Keys.{Key}
use clueless_task_manager.Process.{Process}
use clueless_task_manager.ProcessManager.{
  Event, added, updated, removed, Callbacks, Dirent, process_list_refresh,
}

-- What the tab uses of GTK and of a process. `append` is the new row with its values and the reference to it;
-- `has_iter` is `gtk_tree_model_get_iter` on the path of a reference.
pub record Toolkit : Type 1 where
  pub Store : Type 0
  pub Ref : Type 0
  pub append : Store → ℕ → List ℕ → List ℕ → Store × Ref
  pub valid : Store → Ref → Bool
  pub has_iter : Store → Ref → Bool
  pub set : Store → Ref → List ℕ → List ℕ → Store
  pub delete : Store → Ref → Store
  pub get_pid : Process → ℕ
  pub get_name : Process → List ℕ
  pub get_state : Process → List ℕ

-- Their documentation: a reference is valid from its creation until its row is removed, and a valid one has
-- an iterator; a new reference is none that was valid before.
pub record IsToolkit (T : Toolkit) : Type 0 where
  pub pid : (p : Process) → T.get_pid p ≡ p.pid
  pub append_new :
      (s : T.Store) (pid : ℕ) (name state : List ℕ)
      → T.valid s (T.append s pid name state).1 ≡ false
  pub append_valid :
      (s : T.Store) (pid : ℕ) (name state : List ℕ)
      → T.valid (T.append s pid name state).0 (T.append s pid name state).1 ≡ true
  pub append_keeps :
      (s : T.Store) (pid : ℕ) (name state : List ℕ) (r : T.Ref)
      → T.valid s r ≡ true
      → T.valid (T.append s pid name state).0 r ≡ true
  pub set_keeps :
      (s : T.Store) (r : T.Ref) (name state : List ℕ) (r' : T.Ref)
      → T.valid (T.set s r name state) r' ≡ T.valid s r'
  pub delete_keeps :
      (s : T.Store) (r r' : T.Ref) → r' ≢ r → T.valid s r' ≡ true → T.valid (T.delete s r) r' ≡ true
  pub iter : (s : T.Store) (r : T.Ref) → T.valid s r ≡ true → T.has_iter s r ≡ true

-- The bytes of an `unsigned int`, read as the `int` that `hash_int` and `hash_compare_int` take.
abbrev pub as_int : ℕ → ℤ
as_int pid = if ltb pid (2 ^ 31) then pos pid else negsuc (2 ^ 32 - pid - 1)

-- What the tab uses of metrics/process_list.h, which is not in the repository: the list, and the refresh of it, which
-- calls the functions of an observer. `Answers` is what the system says during one refresh, and the events are the
-- calls of the observer, in their order.
pub record ProcessLists : Type 1 where
  pub ProcessList : Type 0
  pub Answers : Type 0
  pub process_list_refresh : Answers → ProcessList → List Event × ProcessList
  pub process_list_get_count : ProcessList → ℕ

module _ (T : Toolkit) where
  -- `struct ProcessTab`, less its widgets
  pub record ProcessTab : Type 0 where
    pub store : T.Store
    pub pid_to_iter : HashMap ℤ T.Ref

module _ {T : Toolkit} ⦃key : Key ℤ⦄ where
  -- The result of `hash_map_put` is not used.
  unfoldable pub on_ui_process_added : Grants → Process → ProcessTab T → Outcome (ProcessTab T)
  on_ui_process_added grants p self =
      let (store, row_reference) =
        T.append self.store (T.get_pid p) (T.get_name p) (T.get_state p) in
      put grants self.pid_to_iter (as_int (T.get_pid p)) row_reference >>= λ r.
      done (record { store = store; pid_to_iter = r.1 })

  unfoldable pub on_ui_process_updated : Process → ProcessTab T → Outcome (ProcessTab T)
  on_ui_process_updated p context = get context.pid_to_iter (as_int (T.get_pid p)) >>= λ found.
      elim found [
        | none ↦ done context
        | some r ↦
            if T.valid context.store r && T.has_iter context.store r
            then done
                (record context { store = T.set context.store r (T.get_name p) (T.get_state p) })
            else done context
      ]

  unfoldable pub on_ui_process_removed : Bool → Process → ProcessTab T → Outcome (ProcessTab T)
  on_ui_process_removed calloc_ok p self = get self.pid_to_iter (as_int (T.get_pid p)) >>= λ found.
      elim found [
        | none ↦ done self
        | some r ↦
            let store = if T.has_iter self.store r then T.delete self.store r else self.store in
            if T.valid self.store r
            then (remove calloc_ok self.pid_to_iter (as_int (T.get_pid p)) >>= λ gone.
                done (record { store = store; pid_to_iter = gone.1 }))
            else done self
      ]

  -- The observer of `process_tab_update`, called for each event of a refresh.
  unfoldable pub observe : Grants → List Event → ProcessTab T → Outcome (ProcessTab T)
  unfolding on_ui_process_added on_ui_process_updated on_ui_process_removed
  observe grants [] self = done self
  observe grants (added p ∷ events) self =
      on_ui_process_added grants p self >>= observe grants events
  observe grants (updated p ∷ events) self = on_ui_process_updated p self >>= observe grants events
  observe grants (removed p ∷ events) self =
      on_ui_process_removed grants.calloc_ok p self >>= observe grants events

  -- What `process_tab_update` leaves: the count that it returns, whether it sets `errno`, the tab and the
  -- list, of which `none` is `NULL`. The count that the refresh writes is not used.
  unfoldable pub process_tab_update :
      (P : ProcessLists)
      → Grants
      → P.Answers
      → Option (ProcessTab T)
      → Option P.ProcessList
      → Outcome (ℕ × Bool × Option (ProcessTab T) × Option P.ProcessList)
  unfolding observe
  process_tab_update P grants answers none process_list = done (0, true, none, process_list)
  process_tab_update P grants answers (some self) none = done (0, true, some self, none)
  process_tab_update P grants answers (some self) (some list) =
      let (events, list') = P.process_list_refresh answers list in
      observe grants events self >>= λ self'.
      done (P.process_list_get_count list', false, some self', some list')

-- `process_tab_create`, less its widgets: `malloc_ok` is for the tab, the others for `hash_map_create`, whose
-- result is not checked: `none` in the second place is a tab whose map is `NULL`.
pub process_tab_create :
    (T : Toolkit)
    → T.Store
    → (malloc_ok map_ok entries_ok : Bool) → Option (T.Store × Option (HashMap ℤ T.Ref))
process_tab_create T store malloc_ok map_ok entries_ok =
    if malloc_ok then some (store, create true true map_ok entries_ok 4 8) else none
