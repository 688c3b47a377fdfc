-- ===== src/Base/Distinct.antt =====
-- Lists of numbers whose elements differ.
use Prim.Native.Nat.{ℕ}
use mathlib.Core.Path.{◌≡◌, refl}
use mathlib.Core.Bool.{Bool, true, false, not, ◌&&◌, ◌||◌}
use mathlib.Core.List.{List, [], ◌∷◌, ◌++◌}
use native.Mathlib.Omega.{arith}
use clueless_task_manager.Base.Tests.{◌==◌}

unfoldable pub listed : ℕ → List ℕ → Bool
listed pid [] = false
listed pid (q ∷ qs) = (q == pid) || listed pid qs

unfoldable pub distinct : List ℕ → Bool
distinct [] = true
distinct (q ∷ qs) = not (listed q qs) && distinct qs

pub listed-append : (p : ℕ) (xs ys : List ℕ) → listed p (xs ++ ys) ≡ (listed p xs || listed p ys)
unfolding listed
listed-append p [] ys = refl
listed-append p (x ∷ xs) ys = ground (arith, listed-append p xs ys)

-- An element may be moved to the front.
pub distinct-middle :
    (xs : List ℕ) (y : ℕ) (zs : List ℕ)
    → distinct (xs ++ y ∷ zs) ≡ (not (listed y (xs ++ zs)) && distinct (xs ++ zs))
unfolding distinct listed
distinct-middle [] y zs = refl
distinct-middle (x ∷ xs) y zs =
    ground (arith, distinct-middle xs y zs, listed-append x xs (y ∷ zs), listed-append x xs zs)
