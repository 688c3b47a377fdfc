-- ===== src/GtkProcessTab/Domain.antt =====
-- The observer of src/ui/gtk/process_tab.c: the rows after any calls of its functions.
use clueless_task_manager.Base.{
  ℕ, ◌<◌, ◌^◌, ◌≡◌, ◌≢◌, Bool, true, refl, List, [], ◌∷◌, ℤ, Returns, Returns-bind,
}
use clueless_task_manager.HashMap.Keys.{Key}
use clueless_task_manager.HashMap.Put.{granted}
use clueless_task_manager.ProcessManager.{Event, added, updated, removed}
use clueless_task_manager.ProcessManager.Subjects.{subject}
use clueless_task_manager.ProcessManager.Visited.{members}
use clueless_task_manager.GtkProcessTab.{Toolkit, IsToolkit, as_int, ProcessTab, observe}
use clueless_task_manager.GtkProcessTab.Steps.{Shows, added-Shows, updated-Shows, removed-Shows}

-- every event is about a process with a pid of an `unsigned int` that is not the key that TOMBSTONE reads as
unfoldable pub IsUsable : ⦃key : Key ℤ⦄ → List Event → Type 0
IsUsable [] = true ≡ true
IsUsable ⦃key⦄ (e ∷ events) =
    ((subject e).pid < 2 ^ 32) × (as_int (subject e).pid ≢ key.placeholder) × IsUsable events

module _ {T : Toolkit} ⦃key : Key ℤ⦄ (law : IsToolkit T) where
  -- For a tab that shows a set of pids, on a list store that behaves as documented: after any events
  -- the observer of the tab has a row for exactly the pids that the set gets by these events, each
  -- with a valid row of its own, and each call returns. The pids are below 2^32 and not the
  -- key that TOMBSTONE reads as, and every allocation is granted.
  pub observe-Shows :
      (events : List Event) {self : ProcessTab T} {set : ℕ → Bool}
      → Shows self set
      → IsUsable events
      → Returns (observe granted events self) (λ self'. Shows self' (members set events))
  unfolding observe IsUsable members
  observe-Shows [] {self = self} shown usable = (self, refl, shown)
  observe-Shows (added p ∷ events) shown (small, real, usable) =
      Returns-bind _ _ (added-Shows law shown p small real)
        (λ self' now. observe-Shows events now usable)
  observe-Shows (updated p ∷ events) shown (small, real, usable) =
      Returns-bind _ _ (updated-Shows law shown p small)
        (λ self' now. observe-Shows events now usable)
  observe-Shows (removed p ∷ events) shown (small, real, usable) =
      Returns-bind _ _ (removed-Shows law shown p small granted.calloc_ok)
        (λ self' now. observe-Shows events now usable)
