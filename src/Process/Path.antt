-- ===== src/Process/Path.antt =====
-- The rest of src/metrics/process.c: the path of a stat file and the whole of `process_read` behind it, and
-- what takes a process from its node or frees it.
use clueless_task_manager.Base.{
  ℕ, ◌+◌, ◌-◌, ◌%◌, ◌^◌, ◌<◌, ◌≤◌, ◌≡◌, refl, sym, ◌∙◌, ap, Bool, true, false, Option, none, some,
  List, [], ◌++◌, leb, if◌then◌else◌, arith, length, length-append, take, drop,
}
use clueless_task_manager.Clib.{codes, read_digits, starts_digit, is_digit}
use clueless_task_manager.Clib.Decimal.{digits, read_digits-digits}
use clueless_task_manager.Clib.Digits.{length-digits_below}
use clueless_task_manager.Process.{
  Process, ProcessResult, success_read, err_invalid_arg, err_read_path, Snapshot, process_read,
  io_buffer_size,
}

-- `buffer_writer_result_t`
pub data BufferWriterResult : Type 0 where
  writer_success writer_err_invalid_arg writer_err_write_failure : BufferWriterResult
  writer_err_buffer_overflow writer_err_internal : BufferWriterResult

-- what the format "/proc/%u/stat" prints
pub stat_path : ℕ → List ℕ
stat_path pid = codes "/proc/" ++ (digits pid ++ codes "/stat")

-- `read_pid_file_path`: `printed` is false if `ctm_snprintf` fails; the result, and the bytes in `out`.
pub read_pid_file_path : (printed : Bool) → ℕ → BufferWriterResult × List ℕ
read_pid_file_path false pid = (writer_err_write_failure, [])
read_pid_file_path true pid =
    if leb io_buffer_size (length (stat_path pid))
    then (writer_err_buffer_overflow, take (io_buffer_size - 1) (stat_path pid))
    else (writer_success, stat_path pid)

-- `process_read` from its start: `files` is what the system answers at a path, and `none` is `NULL`.
pub process_read_at :
    (printed : Bool)
    → (files : List ℕ → Snapshot) → ℕ
    → Option Process
    → ProcessResult × Option Process
unfolding read_pid_file_path
process_read_at printed files pid none = (err_invalid_arg, none)
process_read_at printed files pid (some out) =
    let (writer, path) = read_pid_file_path printed pid in
    elim writer [
      | writer_success ↦ let (result, out') = process_read (files path) out in (result, some out')
      | _ ↦ (err_read_path, some out)
    ]

-- `process_destroy`, which frees the process
pub process_destroy : Option Process → ProcessResult × Option Process
process_destroy (some p) = (success_read, none)
process_destroy none = (err_invalid_arg, none)

-- `process_from_node` on addresses: `offset` is `offsetof(process_t, node)`, and the last argument is what `*out` holds.
pub process_from_node : ℕ → Option ℕ → Option ℕ → ProcessResult × Option ℕ
process_from_node offset (some node) (some out) =
    (success_read, some ((node + 2 ^ 64 - offset) % 2 ^ 64))
process_from_node offset at out = (err_invalid_arg, out)

-- The node of a process leads back to it, where the process lies within the addresses.
pub process_from_node-back :
    (offset process out : ℕ)
    → process + offset < 2 ^ 64
    → process_from_node offset (some (process + offset)) (some out) ≡ (success_read, some process)
unfolding process_from_node
process_from_node-back offset process out fits = ground arith

-- The path of a 32-bit pid has at most 21 bytes.
pub length-stat_path : (pid : ℕ) → pid < 2 ^ 32 → length (stat_path pid) ≤ 21
unfolding stat_path
length-stat_path pid small = omega (
  arith,
  length-append (codes "/proc/") (digits pid ++ codes "/stat"),
  length-append (digits pid) (codes "/stat"),
  length-digits_below 9 pid (omega arith),
)

path-fits : (pid : ℕ) → pid < 2 ^ 32 → read_pid_file_path true pid ≡ (writer_success, stat_path pid)
unfolding read_pid_file_path
path-fits pid small = ground (arith, length-stat_path pid small)

-- So `read_pid_file_path` writes the whole path, and `process_read` reads the file at it.
pub process_read_at-reads :
    (files : List ℕ → Snapshot) (pid : ℕ) (out : Process)
    → pid < 2 ^ 32
    → let (result, out') = process_read (files (stat_path pid)) out in
      process_read_at true files pid (some out) ≡ (result, some out')
unfolding process_read_at
process_read_at-reads files pid out small =
    rw (process_read_at, path-fits pid small, path-fits pid small) refl

-- Two pids have different paths.
pub stat_path-injective : (p q : ℕ) → stat_path p ≡ stat_path q → p ≡ q
unfolding stat_path starts_digit is_digit
stat_path-injective p q e =
    let same : digits p ++ codes "/stat" ≡ digits q ++ codes "/stat" = ap (drop 6) e in
    ap (λ r. r.0)
      (sym (read_digits-digits p (codes "/stat") refl)
        ∙ ap (read_digits 0) same
        ∙ read_digits-digits q (codes "/stat") refl)
