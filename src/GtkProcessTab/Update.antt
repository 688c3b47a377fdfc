-- ===== src/GtkProcessTab/Update.antt =====
-- One call of `process_tab_update` of src/ui/gtk/process_tab.c.
use clueless_task_manager.Base.{
  ℕ, ◌≡◌, ◌∙◌, refl, Bool, true, false, some, List, listed, distinct, length, ℤ, done,
}
use clueless_task_manager.HashMap.Keys.{Key}
use clueless_task_manager.HashMap.Put.{granted}
use clueless_task_manager.ProcessManager.Visited.{members}
use clueless_task_manager.GtkProcessTab.{
  Toolkit, IsToolkit, ProcessLists, ProcessTab, process_tab_update,
}
use clueless_task_manager.GtkProcessTab.Steps.{Shows}
use clueless_task_manager.GtkProcessTab.Domain.{IsUsable, observe-Shows}

-- What the tab relies on: a list holds processes with different pids, and its count is how many; and a refresh tells
-- the observer of each process that it adds and removes, so that a set that follows the calls keeps to the list.
pub record IsProcessLists (P : ProcessLists) : Type 0 where
  pub pids_of : P.ProcessList → List ℕ
  pub apart : (list : P.ProcessList) → distinct (pids_of list) ≡ true
  pub count : (list : P.ProcessList) → P.process_list_get_count list ≡ length (pids_of list)
  pub told :
      (answers : P.Answers) (list : P.ProcessList) (set : ℕ → Bool)
      → ((pid : ℕ) → set pid ≡ listed pid (pids_of list))
      → (pid : ℕ)
      → members set (P.process_list_refresh answers list).0 pid
        ≡ listed pid (pids_of (P.process_list_refresh answers list).1)

-- every refresh tells of pids of an `unsigned int` that are not the key that TOMBSTONE reads as
abbrev pub TellsUsable : ⦃key : Key ℤ⦄ → ProcessLists → Type 0
TellsUsable P =
    (answers : P.Answers) (list : P.ProcessList) → IsUsable (P.process_list_refresh answers list).0

module _ {T : Toolkit} ⦃key : Key ℤ⦄ {P : ProcessLists} (lists : IsProcessLists P) where
  -- the tab shows the pids of the list
  abbrev pub Agrees : ProcessTab T → P.ProcessList → Type 0
  Agrees self list = Shows self (λ pid. listed pid (lists.pids_of list))

  -- On a list store and a process list that behave as the code relies on, one call of `process_tab_update` on a tab
  -- that shows the pids of the list returns the count of the refreshed list without an error, and leaves a tab
  -- that shows that list.
  pub process_tab_update-Agrees :
      IsToolkit T
      → TellsUsable P
      → (answers : P.Answers) (self : ProcessTab T) (list : P.ProcessList) → Agrees self list
      → let list' = (P.process_list_refresh answers list).1 in
        (self' : ProcessTab T) × (process_tab_update P granted answers (some self) (some list)
          ≡ done (P.process_list_get_count list', false, some self', some list'))
        × Agrees self' list'
  unfolding process_tab_update
  process_tab_update-Agrees law usable answers self list now =
      let (self', run, next) =
        observe-Shows law (P.process_list_refresh answers list).0 now (usable answers list) in
      (
        self',
        rw run refl,
        record {
          map = next.map;
          rows = next.rows;
          apart = next.apart;
          domain = λ pid small.
              next.domain pid small
              ∙ lists.told answers list (λ q. listed q (lists.pids_of list)) (λ q. refl) pid;
        },
      )
