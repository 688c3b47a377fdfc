-- ===== src/Process/Read.antt =====
-- `process_read` of src/metrics/process.c: what it leaves alone and what it depends on.
use clueless_task_manager.Base.{ℕ, ◌≡◌, refl, Bool, List, [], ◌∷◌, arith}
use clueless_task_manager.Process.{
  Process, Snapshot, process_read, assign_fields, is_success, blank,
}

assign_fields-pid : (p : Process) (values : List ℕ) → (assign_fields p values).pid ≡ p.pid
unfolding assign_fields
assign_fields-pid p [] = refl
assign_fields-pid p (a ∷ []) = refl
assign_fields-pid p (a ∷ b ∷ []) = refl
assign_fields-pid p (a ∷ b ∷ c ∷ []) = refl
assign_fields-pid p (a ∷ b ∷ c ∷ d ∷ []) = refl
assign_fields-pid p (a ∷ b ∷ c ∷ d ∷ e ∷ r) = refl

-- A snapshot that can be read is readable into any process.
unfoldable pub readable : Snapshot → Bool
readable snap = is_success (process_read snap blank).0

pub process_read-pid : (snap : Snapshot) (p : Process) → (process_read snap p).1.pid ≡ p.pid
unfolding process_read
process_read-pid snap p = grind (arith, assign_fields-pid)

pub process_read-readable :
    (snap : Snapshot) (p : Process) → is_success (process_read snap p).0 ≡ readable snap
unfolding process_read readable is_success
process_read-readable snap p = ground arith
