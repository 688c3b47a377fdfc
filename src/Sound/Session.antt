-- ===== src/Sound/Session.antt =====
-- `ctm_sound_play_async` of src/sound.c on the state of the source. What `sf_open` gives, and which calls of the
-- set-up succeed, are arguments; Sound/Resources has these calls one by one.
use clueless_task_manager.Base.{
  ℕ, ◌≡◌, Bool, true, false, Option, none, some, List, ◌++◌, Outcome, done, fault, Returns, ◌>>=◌,
  ◌&&◌, if◌then◌else◌,
}
use clueless_task_manager.Sound.{
  SpaRingbuffer, IsRingbuffer, SndFile, Source, opened, refill_ringbuffer, ctm_sound_init,
}
use clueless_task_manager.Sound.Refill.{Playing}

-- Which calls of the set-up behind `sf_open` succeed. The code checks none of them.
pub record SetUp : Type 0 where
  pub thread_loop_new : Bool
  pub eventfd_create : Bool
  pub add_io : Bool
  pub stream_new : Bool
  pub thread_loop_start : Bool
  pub stream_connect : Bool

module _ {S : SpaRingbuffer} {F : SndFile} where
  -- `on_eventfd_signal`, whose work is done under the lock of the thread loop
  pub on_eventfd_signal : Source S F → Outcome (Source S F × Bool)
  on_eventfd_signal s = refill_ringbuffer s

  -- `ctm_sound_play_async`: the flag `is_initialized` before, whether `malloc` succeeds, the file and its channels
  -- from `sf_open`, how the set-up goes, and whether there is a callback. The result is the flag, and the source after
  -- the first refill with whether it calls `on_finished`; `none` for `NULL`. A loop or a stream that is `NULL` is
  -- followed, which is a fault.
  unfoldable pub ctm_sound_play_async :
      (is_initialized malloc_ok : Bool)
      → Option (F.File × ℕ)
      → SetUp
      → (on_finished : Bool) → Outcome (Bool × Option (Source S F × Bool))
  ctm_sound_play_async is_initialized false file set_up on_finished =
      done ((ctm_sound_init is_initialized).0, none)
  ctm_sound_play_async is_initialized true none set_up on_finished =
      done ((ctm_sound_init is_initialized).0, none)
  ctm_sound_play_async is_initialized true (some (file, channels)) set_up on_finished =
      if set_up.thread_loop_new && set_up.stream_new
      then (refill_ringbuffer (opened file channels on_finished) >>= λ r.
          done ((ctm_sound_init is_initialized).0, some r))
      else fault

module _ {S : SpaRingbuffer} {F : SndFile} (law : IsRingbuffer S) where
  -- the source has moved the first bytes of a file, and holds them
  pub record Starts (file : F.File) (r : Bool × Option (Source S F × Bool)) : Type 0 where
    pub initialized : r.0 ≡ true
    pub source : Source S F
    pub finished : Bool
    pub made : r.1 ≡ some (source, finished)
    pub held : List ℕ
    pub playing : Playing S F source held
    pub order : held ++ F.remaining source.file ≡ F.remaining file

  -- how a call ends whose memory and file are there
  abbrev pub Ends : SetUp → F.File → Outcome (Bool × Option (Source S F × Bool)) → Type 0
  Ends set_up file run =
      if set_up.thread_loop_new && set_up.stream_new
      then Returns run (Starts file)
      else (run ≡ fault)
