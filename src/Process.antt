-- ===== src/Process.antt =====
-- src/metrics/process.c: one process, read from its stat file under /proc.
pub mod Name
pub mod Path
pub mod Read
pub mod RoundTrip
pub mod Whole
mod Tests
use Prim.Native.String.{String}
use clueless_task_manager.Base.{
  ℕ, zero, suc, ◌+◌, ◌-◌, ◌%◌, Bool, true, false, ◌&&◌, ◌||◌, Option, none, some, List, [], ◌∷◌,
  ◌++◌, ◌==◌, ltb, leb, if◌then◌else◌, not, length, take, drop, get_or, Outcome, done, fault,
}
use clueless_task_manager.Clib.{
  strchr, strrchr, sscanf, Conversion, char_field, skipped_int, ulong_field, until_nul, codes,
}

-- `struct process`; `name` and `user` hold the bytes before the NUL, in 256 bytes each. The node is the place in the
-- list.
pub record Process : Type 0 where
  pub pid : ℕ
  pub name : List ℕ
  pub state : ℕ
  pub utime : ℕ
  pub stime : ℕ
  pub start_time : ℕ
  pub rss : ℕ
  pub uid : ℕ
  pub user : List ℕ
  pub is_active : Bool

-- `process_result_t`
pub data ProcessResult : Type 0 where
  success_read success_not_found : ProcessResult
  err_invalid_arg err_read_path err_read_file err_read_user err_read_name : ProcessResult
  err_parse_file err_not_found err_open err_read err_internal : ProcessResult

pub process_strerror : ProcessResult → String
process_strerror success_read = "Success"
process_strerror err_invalid_arg = "Invalid argument"
process_strerror err_not_found = "Process not found"
process_strerror err_internal = "Internal error"
process_strerror err_open = "Failed to open file"
process_strerror err_read = "Failed to read file"
process_strerror err_parse_file = "Failed to parse file"
process_strerror _ = "Unknown error"

abbrev pub io_buffer_size : ℕ
io_buffer_size = 1024

-- the size of `name` in `struct process`
abbrev pub name_size : ℕ
name_size = 256

abbrev pub username_max : ℕ
username_max = 32

-- `get_process_name` into a buffer of `size` bytes: the name, and the string from the new position on. `none` is an
-- error; a write behind the buffer is a fault.
unfoldable pub get_process_name : (size : ℕ) → List ℕ → Outcome (Option (List ℕ × List ℕ))
get_process_name size s = elim (strchr s b'(') [
  | none ↦ done none
  | some opening ↦ elim (strrchr opening b')') [
    | none ↦ done none
    | some closing ↦
        let name_length = closing - 1 in
        let bounded = if leb io_buffer_size name_length then io_buffer_size - 1 else name_length in
        let rest = drop (closing + 1) opening in
        if ltb bounded size
        then done (
            some (
              take bounded (drop 1 opening),
              if get_or rest 0 0 == b' ' then drop 1 rest else rest,
            ))
        else fault
  ]
]

-- What the system answers for one pid: `stat_uid` is the owner, unless `stat` fails; `file` is what
-- `io_read_file` reads, unless it fails; `username` is `ctm_getusername_by_uid`, of which `none` is
-- `NULL`, which glibc prints as "(null)". `overflow` is the result, and what the process then holds, of a run in which the
-- name is too long for `name` and is written on behind it: that is undefined, so it may be anything.
pub record Snapshot : Type 0 where
  pub stat_uid : Option ℕ
  pub file : Option (List ℕ)
  pub username : Option (List ℕ)
  pub overflow : ProcessResult × Process

abbrev pub stat_format : List Conversion
stat_format =
    char_field ∷ skipped_int ∷ skipped_int ∷ skipped_int ∷ skipped_int ∷ skipped_int ∷ skipped_int
    ∷ skipped_int ∷ skipped_int ∷ skipped_int ∷ skipped_int ∷ ulong_field ∷ ulong_field
    ∷ skipped_int ∷ skipped_int ∷ skipped_int ∷ skipped_int ∷ skipped_int ∷ skipped_int
    ∷ ulong_field ∷ skipped_int ∷ ulong_field ∷ []

-- `ctm_snprintf(out, size, "%s", s)`
abbrev pub print_string : ℕ → List ℕ → List ℕ
print_string size s = take (size - 1) s

abbrev pub username_or_null : Option (List ℕ) → List ℕ
username_or_null none = codes "(null)"
username_or_null (some name) = name

-- The assignments of `sscanf` to the fields, as far as they go.
unfoldable pub assign_fields : Process → List ℕ → Process
assign_fields p [] = p
assign_fields p (a ∷ []) = record p { state = a }
assign_fields p (a ∷ b ∷ []) = record p { state = a; utime = b }
assign_fields p (a ∷ b ∷ c ∷ []) = record p { state = a; utime = b; stime = c }
assign_fields p (a ∷ b ∷ c ∷ d ∷ []) = record p { state = a; utime = b; stime = c; start_time = d }
assign_fields p (a ∷ b ∷ c ∷ d ∷ e ∷ r) = record p {
  state = a;
  utime = b;
  stime = c;
  start_time = d;
  rss = e;
}

-- `process_read` into `*out`, from the call of `stat` on; Process/Path has what comes before it. The pid lies before the
-- name, so that it is kept where the name overflows.
unfoldable pub process_read : Snapshot → Process → ProcessResult × Process
process_read snap out = elim snap.stat_uid [
  | none ↦ (success_not_found, out)
  | some uid ↦ elim snap.file [
    | none ↦ (err_read_file, out)
    | some bytes ↦ elim (get_process_name name_size (until_nul (take (io_buffer_size - 1) bytes))) [
      | done none ↦ (err_read_name, out)
      | done (some found) ↦
          let named = record out {
            name = found.0;
            uid = uid;
            state = 0;
            user = print_string username_max (username_or_null snap.username);
          } in
          let values = sscanf found.1 stat_format in
          let filled = assign_fields named values in
          if ltb (length values) 5 then (err_parse_file, filled) else (success_read, filled)
      | _ ↦ (snap.overflow.0, record snap.overflow.1 { pid = out.pid })
    ]
  ]
]

-- the zeroed process of `calloc`
abbrev pub blank : Process
blank = record {
  pid = 0;
  name = [];
  state = 0;
  utime = 0;
  stime = 0;
  start_time = 0;
  rss = 0;
  uid = 0;
  user = [];
  is_active = false;
}

-- `result == PROCESS_SUCCESS_READ`
unfoldable pub is_success : ProcessResult → Bool
is_success success_read = true
is_success _ = false

-- The accessors: `none` is `NULL`; the result, and what `*out` holds afterwards.
pub process_pid : Option Process → Option ℕ → ProcessResult × Option ℕ
process_pid (some p) (some out) = (success_read, some p.pid)
process_pid p out = (err_invalid_arg, out)

pub process_active : Option Process → Option Bool → ProcessResult × Option Bool
process_active (some p) (some out) = (success_read, some p.is_active)
process_active p out = (err_invalid_arg, out)

pub process_name : Option Process → Option (List ℕ) → ℕ → ProcessResult × Option (List ℕ)
process_name (some p) (some out) (suc n) = (success_read, some (print_string (suc n) p.name))
process_name p out len = (err_invalid_arg, out)

pub process_user : Option Process → Option (List ℕ) → ℕ → ProcessResult × Option (List ℕ)
process_user (some p) (some out) (suc n) = (success_read, some (print_string (suc n) p.user))
process_user p out len = (err_invalid_arg, out)

-- the text of a state character; `none` is the default case
pub state_text : ℕ → Option (List ℕ)
state_text c =
    if c == b'R'
    then some (codes "Running")
    else (if c == b'S'
        then some (codes "Sleeping")
        else (if c == b'D'
            then some (codes "Disk Sleep")
            else (if c == b'Z'
                then some (codes "Zombie")
                else (if c == b'T'
                    then some (codes "Traced/Stopped")
                    else (if c == b'W'
                        then some (codes "Paging/Waking")
                        else (if c == b'X' || c == b'x'
                            then some (codes "Dead")
                            else (if c == b'K'
                                then some (codes "Wake-kill")
                                else (if c == b'P'
                                    then some (codes "Parked")
                                    else (if c == b'I' then some (codes "Idle") else none)))))))))

pub process_state : Option Process → Option (List ℕ) → ℕ → ProcessResult × Option (List ℕ)
process_state (some p) (some out) (suc n) = elim (state_text p.state) [
  | none ↦ (err_invalid_arg, some out)
  | some text ↦ (success_read, some (print_string (suc n) text))
]
process_state p out len = (err_invalid_arg, out)

pub process_activate : Option Process → ProcessResult × Option Process
process_activate (some p) = (success_read, some (record p { is_active = true }))
process_activate none = (err_invalid_arg, none)

pub process_deactivate : Option Process → ProcessResult × Option Process
process_deactivate (some p) = (success_read, some (record p { is_active = false }))
process_deactivate none = (err_invalid_arg, none)
