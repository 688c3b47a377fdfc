-- ===== src/Mem.antt =====
-- src/metrics/mem.c: the figures of /proc/meminfo.
pub mod Read
mod Tests
use clueless_task_manager.Base.{
  ℕ, Bool, true, false, ◌&&◌, ◌||◌, Option, none, some, List, [], ◌∷◌, ◌++◌, ◌==◌, if◌then◌else◌,
  not, length, take, drop, Outcome, done, fault,
}
use Prim.Native.String.{String}
use clueless_task_manager.Clib.{strtoul, has_prefix, tokens, codes}

-- `struct mem`
pub record Mem : Type 0 where
  pub mem_total : ℕ
  pub mem_available : ℕ
  pub mem_free : ℕ

-- `mem_result_t`
pub data MemResult : Type 0 where
  success err_invalid_arg err_open err_read err_parse err_internal : MemResult

pub mem_strerror : MemResult → String
mem_strerror success = "Success"
mem_strerror err_invalid_arg = "Invalid argument"
mem_strerror err_open = "Failed to open file"
mem_strerror err_read = "Failed to read file"
mem_strerror err_parse = "Failed to parse file"
mem_strerror err_internal = "Internal error"

-- `*out` with the flags `read_available`, `read_free` and `read_total`
pub record Reading : Type 0 where
  pub out : Mem
  pub read_available : Bool
  pub read_free : Bool
  pub read_total : Bool

-- one round of the loop over the lines
pub read_line : Reading → List ℕ → Reading
read_line r line =
    let available = has_prefix line (codes "MemAvailable:") in
    let free = has_prefix line (codes "MemFree:") in
    let total = has_prefix line (codes "MemTotal:") in
    if available
    then record r {
      out = record r.out { mem_available = (strtoul (drop 13 line)).0 };
      read_available = true;
    }
    else (if free
        then record r {
          out = record r.out { mem_free = (strtoul (drop 8 line)).0 };
          read_free = true;
        }
        else (if total
            then record r {
              out = record r.out { mem_total = (strtoul (drop 9 line)).0 };
              read_total = true;
            }
            else r))

pub read_lines : Reading → List (List ℕ) → Reading
read_lines r [] = r
read_lines r (line ∷ lines) = read_lines (read_line r line) lines

-- the buffer of 1024 bytes behind the `fread`; `stack` is what stands in the memory of it before
abbrev pub read_buffer : List ℕ → List ℕ → List ℕ
read_buffer bytes stack = let read = take 1024 bytes in read ++ drop (length read) (take 1024 stack)

-- the string at the start of a buffer; `none` if no NUL ends it
pub string_in : List ℕ → Option (List ℕ)
string_in [] = none
string_in (c ∷ buffer) =
    let rest = string_in buffer in
    if c == 0 then some [] else elim rest [ none ↦ none | some s ↦ some (c ∷ s) ]

-- the loop over the lines of the string, and what comes behind it
pub read_text : Mem → List ℕ → MemResult × Mem
read_text out text =
    let r =
      read_lines
        (record { out = out; read_available = false; read_free = false; read_total = false })
        (tokens b'\n' text) in
    if not r.read_available || not r.read_free || not r.read_total
    then (err_parse, r.out)
    else (success, record r.out { mem_available = 0; mem_free = 0; mem_total = 0 })

-- `mem_read`: `file` is what /proc/meminfo holds, `none` if it cannot be opened; `stack` is what the
-- uninitialised buffer of 1024 bytes holds. `none` for `out` is `NULL`. Where no NUL ends the string in the buffer,
-- `strtok_r` reads on behind it, which is a fault.
pub mem_read :
    (file : Option (List ℕ)) (stack : List ℕ) → Option Mem → Outcome (MemResult × Option Mem)
unfolding read_text string_in
mem_read file stack none = done (err_invalid_arg, none)
mem_read none stack (some out) = done (err_open, some out)
mem_read (some bytes) stack (some out) =
    if length (take 1024 bytes) == 0
    then done (err_read, some out)
    else elim (string_in (read_buffer bytes stack)) [
      | none ↦ fault
      | some text ↦ let (result, out') = read_text out text in done (result, some out')
    ]

-- `mem_total`, `mem_free` and `mem_available`: the result and what `*out` holds afterwards.
pub mem_total : Option Mem → Option ℕ → MemResult × Option ℕ
mem_total (some mem) (some out) = (success, some mem.mem_total)
mem_total mem out = (err_invalid_arg, out)

pub mem_free : Option Mem → Option ℕ → MemResult × Option ℕ
mem_free (some mem) (some out) = (success, some mem.mem_free)
mem_free mem out = (err_invalid_arg, out)

pub mem_available : Option Mem → Option ℕ → MemResult × Option ℕ
mem_available (some mem) (some out) = (success, some mem.mem_available)
mem_available mem out = (err_invalid_arg, out)
