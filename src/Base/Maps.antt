-- ===== src/Base/Maps.antt =====
-- Maps from numbers as functions.
use Prim.Native.Nat.{ℕ}
use clueless_task_manager.Base.Tests.{◌==◌, if◌then◌else◌}

abbrev pub update {ℓ} : {A : Type ℓ} → (ℕ → A) → ℕ → A → ℕ → A
update f p v q = if p == q then v else f q
