-- ===== src/Io/Tests.antt =====
-- src/core/io.c on a short file.
use clueless_task_manager.Base.{
  ℕ, ◌-◌, ◌≡◌, false, some, List, replicate, length, length-replicate, take, if◌then◌else◌,
}
use clueless_task_manager.Clib.{codes, until_nul}
use clueless_task_manager.Process.{io_buffer_size}
use clueless_task_manager.Io.{io_success, io_err_internal, Stream, io_read_file}
use clueless_task_manager.Io.Read.{io_read_file-string}

abbrev short_file : Stream
short_file = record { bytes = codes "7 (init) S"; ferror = false }

abbrev old_buffer : List ℕ
old_buffer = replicate io_buffer_size b'x'

io_read_file-string_example :
    (out' : List ℕ) × (io_read_file
        (some (codes "/proc/7/stat"))
        (some short_file)
        (some old_buffer)
      ≡ ((if short_file.ferror then io_err_internal else io_success), some out'))
    × (length out' ≡ io_buffer_size)
    × (until_nul out' ≡ until_nul (take (io_buffer_size - 1) short_file.bytes))
io_read_file-string_example =
    io_read_file-string (codes "/proc/7/stat") short_file old_buffer
      (length-replicate {A = ℕ} io_buffer_size b'x')
