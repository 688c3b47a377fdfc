-- ===== src/Process/Name.antt =====
-- `get_process_name` of src/metrics/process.c on the line of a stat file.
use clueless_task_manager.Base.{
  ℕ, ◌+◌, ◌<◌, ◌≡◌, refl, ap, false, ◌==◌, leb, ltb, if◌then◌else◌, done, fault, none, some, List,
  [], ◌∷◌, ◌++◌, arith, length, take, drop,
}
use clueless_task_manager.Clib.{strchr, strrchr}
use clueless_task_manager.Process.{get_process_name, io_buffer_size}

-- no byte of the string is `c`
abbrev pub Without : ℕ → List ℕ → Type 0
Without c [] = Unit {0}
Without c (x ∷ s) = ((x == c) ≡ false) × Without c s

strchr-append : (c : ℕ) (s t : List ℕ) → Without c s → strchr (s ++ c ∷ t) c ≡ some (c ∷ t)
unfolding strchr
strchr-append c [] t w = ground arith
strchr-append c (x ∷ s) t w = ground (arith, strchr-append c s t w.1)

strrchr-Without : (c : ℕ) (s : List ℕ) → Without c s → strrchr s c ≡ none
unfolding strrchr
strrchr-Without c [] w = refl
strrchr-Without c (x ∷ s) w = rw (strrchr-Without c s w.1, w.0)

strrchr-append : (c : ℕ) (s t : List ℕ) → Without c t → strrchr (s ++ c ∷ t) c ≡ some (length s)
unfolding strrchr
strrchr-append c [] t w = ground (arith, strrchr-Without c t w)
strrchr-append c (x ∷ s) t w = rw (strrchr-append c s t w)

take-length : (s t : List ℕ) → take (length s) (s ++ t) ≡ s
take-length [] t = refl
take-length (x ∷ s) t = ap (λ l. x ∷ l) (take-length s t)

drop-past : (s : List ℕ) (x : ℕ) (t : List ℕ) → drop (length s + 1) (s ++ x ∷ t) ≡ t
drop-past [] x t = refl
drop-past (y ∷ s) x t = ground (arith, drop-past s x t)

within-buffer : {n : ℕ} → n < io_buffer_size → leb io_buffer_size n ≡ false
within-buffer h = ground arith

-- From a line `pid (name) rest`, and into a buffer of any size that has room for the name and its NUL, the code
-- extracts exactly the name and leaves the rest to be scanned, also where the name itself holds parentheses and
-- blanks; into a smaller buffer it writes past the end. No opening parenthesis stands before the name, no closing one
-- behind it, and the name is shorter than 1024 bytes.
pub get_process_name-extracts :
    (size : ℕ) (before name rest : List ℕ)
    → Without b'(' before
    → Without b')' rest
    → length name < io_buffer_size
    → get_process_name size (before ++ b'(' ∷ (name ++ b')' ∷ b' ' ∷ rest))
      ≡ (if ltb (length name) size then done (some (name, rest)) else fault)
unfolding get_process_name
get_process_name-extracts size before name rest w w' short = ground (
  arith,
  strchr-append b'(' before (name ++ b')' ∷ b' ' ∷ rest) w,
  strrchr-append b')' (b'(' ∷ name) (b' ' ∷ rest) (refl, w'),
  drop-past (b'(' ∷ name) b')' (b' ' ∷ rest),
  within-buffer short,
  take-length name (b')' ∷ b' ' ∷ rest),
)
