-- ===== src/HashMap/Tests.antt =====
-- src/core/hash_map.c on `int` keys, as the program uses it.
use clueless_task_manager.Base.{
  List, [], ◌∷◌, some, get_or-replicate, false, ℕ, suc, ◌≡◌, ◌≢◌, refl, true, ℤ, pos, Returns, done,
  ◌+◌, ◌++◌, arith,
}
use clueless_task_manager.HashMap.{Entry, empty, HashMap, fresh, create, put, get, remove}
use clueless_task_manager.HashMap.Keys.{Key, int_key, int_key-placeholder}
use clueless_task_manager.HashMap.Contents.{contents}
use clueless_task_manager.HashMap.Probe.{IsValid, view}
use clueless_task_manager.HashMap.Find.{get-view}
use clueless_task_manager.HashMap.Resize.{create-IsValid}
use clueless_task_manager.HashMap.Put.{granted, Puts, put-Puts}
use clueless_task_manager.HashMap.Remove.{Removes, remove-Removes}
use clueless_task_manager.HashMap.Refused.{refused, HasNoTombstone, Refuses, put-Refuses}
use clueless_task_manager.HashMap.Client.{
  Call, call_put, call_get, call_remove, call_count, empty_dict, run, run_dict, Agrees, create-run,
}
use clueless_task_manager.HashMap.Memory.{of_value, create_memory, lifetime}
use clueless_task_manager.HashMap.Memory.Count.{allocated, released, lost, removals}
use clueless_task_manager.HashMap.Memory.Lifetime.{lifetime-leaks}
use clueless_task_manager.HashMap.Iter.{drain, drain-contents}

abbrev pids : Key ℤ
pids = int_key (pos 0)

abbrev no_pids : HashMap ℤ ℕ
no_pids = fresh 4 8

real : (n : ℕ) → pos (suc n) ≢ pids.placeholder
real n e = ground (arith, int_key-placeholder (pos 0))

no_pids-IsValid : IsValid ⦃key = pids⦄ no_pids
unfolding create
no_pids-IsValid = (create-IsValid ⦃key = pids⦄ true true true true 4 8 {m = no_pids} refl).0

-- process 42 at address 900
abbrev one_put :
    Returns (put ⦃key = pids⦄ granted no_pids (pos 42) 900) (Puts ⦃key = pids⦄ no_pids (pos 42) 900)
one_put = put-Puts ⦃key = pids⦄ (pos 42) 900 no_pids-IsValid (real 41)

abbrev one_pid : HashMap ℤ ℕ
one_pid = one_put.0.1

one_pid-IsValid : IsValid ⦃key = pids⦄ one_pid
one_pid-IsValid = one_put.2.valid

put-Puts_example :
    Returns (put ⦃key = pids⦄ granted one_pid (pos 58) 901) (Puts ⦃key = pids⦄ one_pid (pos 58) 901)
put-Puts_example = put-Puts ⦃key = pids⦄ {m = one_pid} (pos 58) 901 one_pid-IsValid (real 57)

get-view_example : get ⦃key = pids⦄ one_pid (pos 42) ≡ done (view ⦃key = pids⦄ one_pid (pos 42))
get-view_example = get-view ⦃key = pids⦄ one_pid-IsValid (pos 42)

remove-Removes_example :
    Returns (remove ⦃key = pids⦄ true one_pid (pos 42)) (Removes ⦃key = pids⦄ one_pid (pos 42))
remove-Removes_example = remove-Removes ⦃key = pids⦄ true {m = one_pid} (pos 42) one_pid-IsValid

drain-contents_example : drain (one_pid.capacity + 1) one_pid 0 ≡ done (contents one_pid.entries)
drain-contents_example = drain-contents one_pid one_pid-IsValid.table.width

no_pids-clean : HasNoTombstone no_pids
no_pids-clean i e = ground (arith, get_or-replicate {A = Entry ℤ ℕ} 16 i empty)

-- two puts, a removal, and what is left
abbrev some_calls : List (Call ℤ ℕ)
some_calls =
    call_put (pos 42) 900
    ∷ call_put (pos 58) 901
    ∷ call_get (pos 42)
    ∷ call_remove false (pos 42)
    ∷ call_get (pos 42)
    ∷ call_count
    ∷ []

create-run_example :
    Returns
      (run ⦃key = pids⦄ some_calls (some no_pids))
      (λ r. Agrees ⦃key = pids⦄ r (run_dict ⦃key = pids⦄ some_calls empty_dict))
unfolding create
create-run_example =
    create-run ⦃key = pids⦄ true true true true 4 8 some_calls refl
      (real 41, (real 57, (tt, (tt, (tt, (tt, tt))))))

put-Refuses_example :
    Returns
      (put ⦃key = pids⦄ refused no_pids (pos 42) 900)
      (Refuses ⦃key = pids⦄ no_pids (pos 42) 900 false (view ⦃key = pids⦄ no_pids (pos 42)))
put-Refuses_example = put-Refuses ⦃key = pids⦄ (pos 42) 900 no_pids-IsValid no_pids-clean (real 41)

lifetime-leaks_example : Returns (lifetime ⦃key = pids⦄ some_calls (some no_pids)) (λ after.
    let all = create_memory true true true true 4 8 ++ after in
    allocated of_value all
    ≡ released of_value all
      + lost of_value (removals (run_dict ⦃key = pids⦄ some_calls empty_dict).0))
unfolding create
lifetime-leaks_example =
    lifetime-leaks ⦃key = pids⦄ of_value true true true true 4 8 some_calls refl
      (real 41, (real 57, (tt, (tt, (tt, (tt, tt))))))
