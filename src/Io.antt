-- ===== src/Io.antt =====
-- src/core/io.c: a whole file in a buffer of IO_BUFFER_SIZE bytes.
pub mod Read
mod Tests
use clueless_task_manager.Base.{
  ℕ, ◌+◌, ◌-◌, Bool, true, false, Option, none, some, List, [], ◌∷◌, ◌++◌, if◌then◌else◌, take,
  drop, length,
}
use Prim.Native.String.{String}
use clueless_task_manager.Process.{io_buffer_size}

-- `io_result_t`
pub data IoResult : Type 0 where
  io_success io_err_invalid_argument io_err_file_not_found io_err_open io_err_read io_err_internal :
      IoResult

pub io_strerror : IoResult → String
io_strerror io_success = "Success"
io_strerror io_err_file_not_found = "File not found"
io_strerror io_err_invalid_argument = "Invalid argument"
io_strerror io_err_open = "Failed to open file"
io_strerror io_err_read = "Failed to read file"
io_strerror io_err_internal = "Internal error"

-- What `fopen` and `fread` give: the bytes of the file as far as they can be read, and `ferror`.
pub record Stream : Type 0 where
  pub bytes : List ℕ
  pub ferror : Bool

-- the buffer with a piece at its start
abbrev pub overwrite : List ℕ → List ℕ → List ℕ
overwrite piece out = piece ++ drop (length piece) out

-- `io_read_file` into `*out`; `none` for `NULL`. The third place is the buffer at `out`.
unfoldable pub io_read_file :
    Option (List ℕ) → Option Stream → Option (List ℕ) → IoResult × Option (List ℕ)
io_read_file none opened out = (io_err_invalid_argument, out)
io_read_file (some path) opened none = (io_err_invalid_argument, none)
io_read_file (some path) none (some out) = (io_err_open, some out)
io_read_file (some path) (some stream) (some out) =
    let read = take (io_buffer_size - 1) stream.bytes in
    if stream.ferror
    then (io_err_internal, some (overwrite read out))
    else (io_success, some (overwrite (read ++ 0 ∷ []) out))
