-- ===== src/Io/Read.antt =====
-- `io_read_file` of src/core/io.c: the string that it leaves.
use mathlib.Core.List.{append_assoc}
use clueless_task_manager.Base.{
  ℕ, ◌-◌, ◌≤◌, ◌≡◌, refl, ◌∙◌, ap, some, List, [], ◌∷◌, ◌++◌, if◌then◌else◌, take, drop, length,
  length-append, length-take, length-drop, arith, Bool-cases, inl, inr,
}
use clueless_task_manager.Clib.{until_nul}
use clueless_task_manager.Process.{io_buffer_size}
use clueless_task_manager.Io.{io_success, io_err_internal, Stream, overwrite, io_read_file}

until_nul-append : (s t : List ℕ) → until_nul (s ++ 0 ∷ t) ≡ until_nul s
unfolding until_nul
until_nul-append [] t = refl
until_nul-append (c ∷ s) t = ground (arith, until_nul-append s t)

length-overwrite :
    (piece out : List ℕ) → length piece ≤ length out → length (overwrite piece out) ≡ length out
length-overwrite piece out le =
    omega (arith, length-append piece (drop (length piece) out), length-drop (length piece) out)

-- Whatever the file holds, a call that opens it writes nothing past a buffer of IO_BUFFER_SIZE bytes, and it
-- succeeds unless reading fails; then the buffer holds the string of the first IO_BUFFER_SIZE - 1
-- bytes of the file, ended by a NUL whatever was in the buffer before. Where reading fails, what was read
-- stands before the old bytes.
pub io_read_file-string :
    (path : List ℕ) (stream : Stream) (out : List ℕ)
    → length out ≡ io_buffer_size
    → (out' : List ℕ) × (io_read_file (some path) (some stream) (some out)
        ≡ ((if stream.ferror then io_err_internal else io_success), some out'))
      × (length out' ≡ io_buffer_size)
      × (until_nul out' ≡ (
          let read = take (io_buffer_size - 1) stream.bytes in
          until_nul (if stream.ferror then overwrite read out else read)))
unfolding io_read_file
io_read_file-string path stream out size =
    let read = take (io_buffer_size - 1) stream.bytes in
    let short = length-take (io_buffer_size - 1) stream.bytes in
    elim (Bool-cases stream.ferror) [
      | inl failed ↦ (
        overwrite read out,
        rw failed refl,
        length-overwrite read out (omega (arith, short, size)) ∙ size,
        rw failed refl,
      )
      | inr fine ↦ (
        overwrite (read ++ 0 ∷ []) out,
        rw fine refl,
        length-overwrite (read ++ 0 ∷ []) out
              (omega (arith, short, size, length-append read (0 ∷ [])))
            ∙ size,
        rw fine (ap until_nul (append_assoc read (0 ∷ []) _) ∙ until_nul-append read _),
      )
    ]
