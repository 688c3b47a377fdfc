-- ===== src/GtkProcessTab/Tests.antt =====
-- src/ui/gtk/process_tab.c with a list store whose references are numbers, given out in order.
use clueless_task_manager.Base.{
  ℕ, ◌+◌, ◌≡◌, refl, Bool, true, false, ◌&&◌, ◌==◌, ltb, if◌then◌else◌, List, [], ◌∷◌, ℤ, pos,
  arith, none, some, listed, distinct,
}
use clueless_task_manager.HashMap.{fresh, create}
use clueless_task_manager.HashMap.Keys.{Key, int_key, same, hash_compare_int}
use clueless_task_manager.HashMap.Resize.{create-IsValid}
use clueless_task_manager.ProcessManager.{parse_pid}
use clueless_task_manager.ProcessManager.Pids.{pids}
use clueless_task_manager.ProcessManager.Tests.{proc, proc-nonzero}
use clueless_task_manager.GtkProcessTab.{Toolkit, IsToolkit, as_int, ProcessTab}
use clueless_task_manager.GtkProcessTab.Steps.{Shows}
use clueless_task_manager.GtkProcessTab.Update.{Agrees}
use clueless_task_manager.GtkProcessTab.Listing.{
  usable, Readings, Listed, process_manager-IsProcessLists,
}
use clueless_task_manager.ProcessManager.Subjects.{all_of, all_named, named_passes}
use clueless_task_manager.ProcessManager.Loop.{nonzero_names, entries_of}
use clueless_task_manager.Clib.{starts_digit, is_digit, read_digits}

-- the next reference, and which of those below it still have a row
abbrev pub rows : Toolkit
rows = record {
  Store = ℕ × (ℕ → Bool);
  Ref = ℕ;
  append = λ s pid name state. ((s.0 + 1, λ r. if r == s.0 then true else s.1 r), s.0);
  valid = λ s r. ltb r s.0 && s.1 r;
  has_iter = λ s r. ltb r s.0 && s.1 r;
  set = λ s r name state. s;
  delete = λ s r. (s.0, λ r'. if r' == r then false else s.1 r');
  get_pid = λ p. p.pid;
  get_name = λ p. p.name;
  get_state = λ p. p.state ∷ [];
}

pub rows-IsToolkit : IsToolkit rows
rows-IsToolkit = record {
  pid = λ p. refl;
  append_new = λ s pid name state. ground arith;
  append_valid = λ s pid name state. ground arith;
  append_keeps = λ s pid name state r h. ground arith;
  set_keeps = λ s r name state r'. refl;
  delete_keeps = λ s r r' ne h. ground arith;
  iter = λ s r h. h;
}

abbrev pub keys : Key ℤ
keys = int_key (pos 0)

abbrev pub empty_tab : ProcessTab rows
empty_tab = record { store = (0, λ r. false); pid_to_iter = fresh 4 8 }

empty_tab-Shows : Shows ⦃key = keys⦄ empty_tab (λ pid. false)
unfolding create
empty_tab-Shows =
    let (valid, count, absent) =
      create-IsValid ⦃key = keys⦄ true true true true 4 8 {m = empty_tab.pid_to_iter} refl in
    record {
      map = valid;
      rows = λ k r e. ground (arith, absent k);
      apart = λ j k r e e'. ground (arith, absent k);
      domain = λ pid small. ground (arith, absent (as_int pid));
    }

pub proc-named : all_named (usable ⦃key = keys⦄) proc ≡ true
unfolding all_named named_passes usable parse_pid starts_digit is_digit read_digits same int_key
    hash_compare_int
proc-named = refl

pub none-nonzero : nonzero_names (entries_of none) ≡ true
unfolding nonzero_names
none-nonzero = refl

pub none-named : all_named (usable ⦃key = keys⦄) (entries_of none) ≡ true
unfolding all_named
none-named = refl

-- /proc is read twice, and then it cannot be opened
abbrev pub three_turns : List (Readings ⦃key = keys⦄)
three_turns =
    (some proc, proc-nonzero, proc-named)
    ∷ (some proc, proc-nonzero, proc-named)
    ∷ (none, none-nonzero, none-named)
    ∷ []

pub nothing-distinct : distinct (pids []) ≡ true
unfolding distinct pids
nothing-distinct = refl

pub nothing-usable : all_of (usable ⦃key = keys⦄) (pids []) ≡ true
unfolding all_of pids
nothing-usable = refl

abbrev pub no_processes : Listed ⦃key = keys⦄
no_processes = ([], nothing-distinct, nothing-usable)

pub empty_tab-Agrees :
    Agrees ⦃key = keys⦄ (process_manager-IsProcessLists ⦃key = keys⦄) empty_tab no_processes
unfolding listed pids process_manager-IsProcessLists
empty_tab-Agrees = empty_tab-Shows
