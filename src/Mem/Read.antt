-- ===== src/Mem/Read.antt =====
-- What `mem_read` of src/metrics/mem.c returns.
use clueless_task_manager.Base.{
  ℕ, ◌≡◌, if◌then◌else◌, refl, false, Bool, ◌&&◌, ◌||◌, ◌==◌, some, List, [], ◌∷◌, arith, length,
  take, Option, none, Outcome, done, fault, inl, inr, Option-cases,
}
use clueless_task_manager.Clib.{has_prefix, tokens, codes}
use clueless_task_manager.Mem.{
  Mem, MemResult, success, err_parse, Reading, read_line, read_lines, read_text, string_in,
  read_buffer, mem_read,
}

-- Which figure a line gives, by its label. The labels exclude one another.
pub data Figure : Type 0 where
  available free total : Figure

pub label : Figure → List ℕ
label available = codes "MemAvailable:"
label free = codes "MemFree:"
label total = codes "MemTotal:"

-- some line begins with the label
pub has_line : Figure → List (List ℕ) → Bool
unfolding label
has_line f [] = false
has_line f (line ∷ lines) = has_prefix line (label f) || has_line f lines

flag : Figure → Reading → Bool
flag available r = r.read_available
flag free r = r.read_free
flag total r = r.read_total

labels_apart :
    (line : List ℕ)
    → ((has_prefix line (label available) && has_prefix line (label free)) ≡ false)
      × ((has_prefix line (label available) && has_prefix line (label total)) ≡ false)
      × ((has_prefix line (label free) && has_prefix line (label total)) ≡ false)
unfolding label has_prefix
labels_apart [] = (refl, refl, refl)
labels_apart (a ∷ []) = ground arith
labels_apart (a ∷ b ∷ []) = ground arith
labels_apart (a ∷ b ∷ c ∷ []) = ground arith
labels_apart (a ∷ b ∷ c ∷ d ∷ line) = ground arith

read_line-flag :
    (f : Figure) (r : Reading) (line : List ℕ)
    → flag f (read_line r line) ≡ (flag f r || has_prefix line (label f))
unfolding flag read_line label
read_line-flag available r line = ground (arith, labels_apart line)
read_line-flag free r line = ground (arith, labels_apart line)
read_line-flag total r line = ground (arith, labels_apart line)

read_lines-flag :
    (f : Figure) (r : Reading) (lines : List (List ℕ))
    → flag f (read_lines r lines) ≡ (flag f r || has_line f lines)
unfolding read_lines has_line
read_lines-flag f r [] = ground arith
read_lines-flag f r (line ∷ lines) =
    ground (arith, read_lines-flag f (read_line r line) lines, read_line-flag f r line)

abbrev pub lost : Mem
lost = record { mem_total = 0; mem_available = 0; mem_free = 0 }

-- some line of the text begins with each label
abbrev pub has_all : List ℕ → Bool
has_all text =
    has_line available (tokens b'\n' text)
    && has_line free (tokens b'\n' text)
    && has_line total (tokens b'\n' text)

-- the result and the figures for a text
abbrev pub Tells : List ℕ → MemResult × Mem → Type 0
Tells text r =
    (r.0 ≡ (if has_all text then success else err_parse))
    × ((if has_all text then r.1 else lost) ≡ lost)

read_text-Tells : (out : Mem) (text : List ℕ) → Tells text (read_text out text)
unfolding read_text flag
read_text-Tells out text =
    let start : Reading = record {
      out = out;
      read_available = false;
      read_free = false;
      read_total = false;
    } in
    let lines = tokens b'\n' text in
    let a = read_lines-flag available start lines in
    let b = read_lines-flag free start lines in
    let c = read_lines-flag total start lines in (ground arith, ground arith)

-- how `mem_read` ends, by the string that the buffer holds
abbrev pub Ends : Option (List ℕ) → Outcome (MemResult × Option Mem) → Type 0
Ends none run = run ≡ fault
Ends (some text) run = (r : MemResult × Mem) × (run ≡ done (r.0, some r.1)) × Tells text r

-- For a file that is not empty, and whatever the uninitialised buffer of 1024 bytes holds: where no NUL is in the
-- buffer behind the read, `mem_read` reads on behind its end. Where there is one, it succeeds exactly if each of the
-- three labels begins some line before the first NUL, and fails to parse otherwise; and when it succeeds, the
-- figures that it has read are lost: all three fields of `*out` are 0, whatever the file says.
pub mem_read-outcome :
    (bytes stack : List ℕ) (out : Mem)
    → (length (take 1024 bytes) == 0) ≡ false
    → Ends (string_in (read_buffer bytes stack)) (mem_read (some bytes) stack (some out))
unfolding mem_read
mem_read-outcome bytes stack out nonempty =
    elim (Option-cases (string_in (read_buffer bytes stack))) [
      | inl open_end ↦ rw (open_end, nonempty, mem_read) refl
      | inr (text, ended) ↦
          rw (ended, nonempty, mem_read) (read_text out text, refl, read_text-Tells out text)
    ]
