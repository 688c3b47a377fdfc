-- ===== src/Sound/Acts.antt =====
-- The calls by which the functions of src/sound.c acquire, use and release what a source holds.
-- Reads and writes of the ring and the file inside `refill_ringbuffer` are acts as well.
use clueless_task_manager.Base.{Bool, true, false, List, [], ◌∷◌, ◌++◌, if◌then◌else◌}

-- The calls of other libraries, and the accesses to the ring and the file inside `refill_ringbuffer`.
pub data Act : Type 0 where
  pw_init malloc_source sf_open thread_loop_new eventfd_create stream_new : Act
  add_io : (close : Bool) → Act
  thread_loop_start thread_loop_lock stream_connect refill thread_loop_unlock : Act
  dequeue_buffer read_ring eventfd_write queue_buffer eventfd_read : Act
  thread_loop_stop stream_destroy thread_loop_destroy close_eventfd sf_close free_source : Act

-- where `on_playback_process` ends: no buffer, no data in it, nothing to copy, or a copy
pub data Playback : Type 0 where
  no_buffer no_data nothing_to_copy copied : Playback

-- `on_playback_process`
unfoldable pub playback_acts : Playback → List Act
playback_acts no_buffer = dequeue_buffer ∷ []
playback_acts no_data = dequeue_buffer ∷ []
playback_acts nothing_to_copy = dequeue_buffer ∷ queue_buffer ∷ []
playback_acts copied = dequeue_buffer ∷ read_ring ∷ eventfd_write ∷ queue_buffer ∷ []

-- `ctm_sound_stop` of a source. In `stream_events` the callback stands at the place of `destroy`, the first behind the
-- version, so that `pw_stream_destroy` calls it before the stream goes.
unfoldable pub stop_acts : Playback → List Act
unfolding playback_acts
stop_acts p =
    thread_loop_stop
    ∷ thread_loop_lock
    ∷ (playback_acts p
        ++ stream_destroy ∷ thread_loop_unlock ∷ thread_loop_destroy ∷ close_eventfd ∷ sf_close
          ∷ free_source ∷ [])

-- `refill_ringbuffer`: `finished` is what `on_finished` does, if it is called.
abbrev pub refill_acts : (finished : List Act) → List Act
refill_acts finished = refill ∷ finished

-- `ctm_sound_play_async`: what it does, and whether it returns a source, where none of the calls behind `sf_open` fails.
-- `pw_loop_add_io` is told to close the descriptor with the loop
unfoldable pub play_acts :
    (is_initialized malloc_ok sf_opened : Bool) → (finished : List Act) → List Act × Bool
play_acts is_initialized malloc_ok sf_opened finished =
    let init_acts : List Act = if is_initialized then [] else pw_init ∷ [] in
    let set_up : List Act =
      sf_open
      ∷ thread_loop_new
      ∷ eventfd_create
      ∷ add_io true
      ∷ stream_new
      ∷ thread_loop_start
      ∷ thread_loop_lock
      ∷ stream_connect
      ∷ (refill_acts finished ++ thread_loop_unlock ∷ []) in
    if malloc_ok
    then (if sf_opened
        then (init_acts ++ malloc_source ∷ set_up, true)
        else (init_acts ++ malloc_source ∷ free_source ∷ [], false))
    else (init_acts, false)

-- `ctm_sound_stop` of what `ctm_sound_play_async` returned
abbrev pub sound_stop_acts : (made : Bool) → Playback → List Act
sound_stop_acts false p = []
sound_stop_acts true p = stop_acts p

-- `on_eventfd_signal`
abbrev pub signal_acts : (finished : List Act) → List Act
signal_acts finished =
    eventfd_read ∷ thread_loop_lock ∷ (refill_acts finished ++ thread_loop_unlock ∷ [])

-- a callback of PipeWire, while a sound is played; one of a signal does or does not end in `on_finished`
pub data Moment : Type 0 where
  playback : Playback → Moment
  signal : Moment

-- what they do, where `on_finished` does nothing with the source
unfoldable pub moments_acts : List Moment → List Act
unfolding playback_acts
moments_acts [] = []
moments_acts (playback p ∷ moments) = playback_acts p ++ moments_acts moments
moments_acts (signal ∷ moments) = signal_acts [] ++ moments_acts moments
