-- ===== src/Sound/Resources.antt =====
-- The discipline of what the functions of src/sound.c acquire, use and release. `audio_stream_source` is followed for
-- every other resource, so that each use needs its memory too.
use clueless_task_manager.Base.{
  ℕ, ◌+◌, ◌-◌, ◌≡◌, refl, ◌∙◌, ap, Bool, true, false, ◌&&◌, not, Option, none, some, List, [], ◌∷◌,
  ◌++◌, ltb, if◌then◌else◌, arith,
}
use clueless_task_manager.Sound.Acts.{
  Act, pw_init, malloc_source, sf_open, thread_loop_new, eventfd_create, stream_new, add_io,
  thread_loop_start, thread_loop_lock, stream_connect, refill, thread_loop_unlock, dequeue_buffer,
  read_ring, eventfd_write, queue_buffer, eventfd_read, thread_loop_stop, stream_destroy,
  thread_loop_destroy, close_eventfd, sf_close, free_source, Playback, no_buffer, no_data,
  nothing_to_copy, copied, Moment, playback, signal, play_acts, stop_acts, sound_stop_acts,
  signal_acts, playback_acts, moments_acts,
}

-- What is held: each resource of a source, whether the loop is to close the event descriptor, and how often its lock
-- is taken.
pub record Held : Type 0 where
  pub memory : Bool
  pub file : Bool
  pub loop : Bool
  pub event_fd : Bool
  pub loop_closes : Bool
  pub stream : Bool
  pub locks : ℕ

abbrev pub nothing : Held
nothing = record {
  memory = false;
  file = false;
  loop = false;
  event_fd = false;
  loop_closes = false;
  stream = false;
  locks = 0;
}

abbrev pub everything : Held
everything = record {
  memory = true;
  file = true;
  loop = true;
  event_fd = true;
  loop_closes = true;
  stream = true;
  locks = 0;
}

abbrev needs : Bool → Held → Option Held
needs b h = if b then some h else none

-- The discipline of resources: none is used or released where it is not held, and none is acquired twice.
unfoldable pub perform : Act → Held → Option Held
perform pw_init h = some h
perform malloc_source h = needs (not h.memory) (record h { memory = true })
perform sf_open h = needs (h.memory && not h.file) (record h { file = true })
perform thread_loop_new h = needs (h.memory && not h.loop) (record h { loop = true })
perform eventfd_create h =
    needs (h.memory && h.loop && not h.event_fd) (record h { event_fd = true })
perform (add_io close) h =
    needs (h.memory && h.loop && h.event_fd) (record h { loop_closes = close })
perform stream_new h = needs (h.memory && h.loop && not h.stream) (record h { stream = true })
perform thread_loop_start h = needs (h.memory && h.loop) h
perform thread_loop_lock h = needs (h.memory && h.loop) (record h { locks = h.locks + 1 })
perform stream_connect h = needs (h.memory && h.stream) h
perform refill h = needs (h.memory && h.file) h
perform thread_loop_unlock h =
    needs (h.memory && h.loop && ltb 0 h.locks) (record h { locks = h.locks - 1 })
perform dequeue_buffer h = needs (h.memory && h.stream) h
perform read_ring h = needs h.memory h
perform eventfd_write h = needs (h.memory && h.loop && h.event_fd) h
perform queue_buffer h = needs (h.memory && h.stream) h
perform eventfd_read h = needs (h.memory && h.loop && h.event_fd) h
perform thread_loop_stop h = needs (h.memory && h.loop) h
perform stream_destroy h = needs (h.memory && h.stream) (record h { stream = false })
perform thread_loop_destroy h =
    needs (h.memory && h.loop)
      (record h { loop = false; event_fd = h.event_fd && not h.loop_closes; loop_closes = false })
perform close_eventfd h = needs (h.memory && h.event_fd) (record h { event_fd = false })
perform sf_close h = needs (h.memory && h.file) (record h { file = false })
perform free_source h = needs h.memory (record h { memory = false })

-- the resources that are left, or the first call that breaks the discipline and what was held before it
pub data Verdict : Type 0 where
  keeps : Held → Verdict
  breaks : Act → Held → Verdict

unfoldable pub perform_all : List Act → Held → Verdict
unfolding perform
perform_all [] h = keeps h
perform_all (a ∷ acts) h = elim (perform a h) [ none ↦ breaks a h | some h' ↦ perform_all acts h' ]

abbrev then_all : List Act → Verdict → Verdict
then_all acts (breaks a h) = breaks a h
then_all acts (keeps h) = perform_all acts h

then_all-cases :
    (a : Act) (acts acts' : List Act) (h : Held)
    → ((h : Held) → perform_all (acts ++ acts') h ≡ then_all acts' (perform_all acts h))
    → (o : Option Held)
    → elim o as (λ x. Verdict) [ none ↦ breaks a h | some h ↦ perform_all (acts ++ acts') h ]
      ≡ then_all acts'
          (elim o as (λ x. Verdict) [ none ↦ breaks a h | some h ↦ perform_all acts h ])
then_all-cases a acts acts' h rest none = refl
then_all-cases a acts acts' h rest (some h') = rest h'

perform_all-then :
    (acts acts' : List Act) (h : Held)
    → perform_all (acts ++ acts') h ≡ then_all acts' (perform_all acts h)
unfolding perform_all
perform_all-then [] acts' h = refl
perform_all-then (a ∷ acts) acts' h =
    then_all-cases a acts acts' h (perform_all-then acts acts') (perform a h)

perform_all-append :
    (acts acts' : List Act) (h : Held) {h' : Held}
    → perform_all acts h ≡ keeps h'
    → perform_all (acts ++ acts') h ≡ perform_all acts' h'
perform_all-append acts acts' h ran = perform_all-then acts acts' h ∙ ap (then_all acts') ran

playback-keeps : (p : Playback) → perform_all (playback_acts p) everything ≡ keeps everything
unfolding perform_all playback_acts perform
playback-keeps no_buffer = refl
playback-keeps no_data = refl
playback-keeps nothing_to_copy = refl
playback-keeps copied = refl

signal-keeps : perform_all (signal_acts []) everything ≡ keeps everything
unfolding perform_all perform
signal-keeps = refl

moments-keep :
    (moments : List Moment) → perform_all (moments_acts moments) everything ≡ keeps everything
unfolding moments_acts perform_all
moments-keep [] = refl
moments-keep (playback p ∷ moments) =
    perform_all-append (playback_acts p) (moments_acts moments) everything (playback-keeps p)
    ∙ moments-keep moments
moments-keep (signal ∷ moments) =
    perform_all-append (signal_acts []) (moments_acts moments) everything signal-keeps
    ∙ moments-keep moments

-- these calls but for the `close` of the event descriptor
unfoldable pub less_close : List Act → List Act
less_close [] = []
less_close (close_eventfd ∷ acts) = less_close acts
less_close (a ∷ acts) = a ∷ less_close acts

-- where the calls of a stop are: outside of the callbacks, or in `on_finished` itself, in a signal
abbrev pub ending_acts : (stopped_in_callback : Bool) → List Act → List Act
ending_acts false stop = stop
ending_acts true stop = signal_acts stop

-- A whole session that plays a sound, has the callbacks in any number and order, and stops it.
abbrev pub session_acts : Bool → List Moment → Bool → List Act → List Act
session_acts is_initialized moments stopped_in_callback stop =
    (play_acts is_initialized true true []).0
    ++ (moments_acts moments ++ ending_acts stopped_in_callback stop)

-- the memory and the file, and how often the lock was taken
abbrev pub loop_gone : ℕ → Held
loop_gone locks = record nothing { memory = true; file = true; locks = locks }

play-holds :
    (is_initialized : Bool)
    → perform_all (play_acts is_initialized true true []).0 nothing ≡ keeps everything
unfolding play_acts perform_all perform
play-holds true = refl
play-holds false = refl

session-ends :
    (is_initialized : Bool) (moments : List Moment) (stopped_in_callback : Bool) (stop : List Act)
    → perform_all (session_acts is_initialized moments stopped_in_callback stop) nothing
      ≡ perform_all (ending_acts stopped_in_callback stop) everything
session-ends is_initialized moments stopped_in_callback stop =
    perform_all-append (play_acts is_initialized true true []).0
      (moments_acts moments ++ ending_acts stopped_in_callback stop) nothing
      (play-holds is_initialized)
    ∙ perform_all-append (moments_acts moments) (ending_acts stopped_in_callback stop) everything
        (moments-keep moments)

stop-breaks :
    (stopped_in_callback : Bool) (p : Playback)
    → perform_all (ending_acts stopped_in_callback (stop_acts p)) everything
      ≡ breaks close_eventfd (loop_gone (if stopped_in_callback then 1 else 0))
unfolding perform_all perform stop_acts playback_acts
stop-breaks true no_buffer = refl
stop-breaks true no_data = refl
stop-breaks true nothing_to_copy = refl
stop-breaks true copied = refl
stop-breaks false no_buffer = refl
stop-breaks false no_data = refl
stop-breaks false nothing_to_copy = refl
stop-breaks false copied = refl

stop-releases :
    (stopped_in_callback : Bool) (p : Playback)
    → perform_all (ending_acts stopped_in_callback (less_close (stop_acts p))) everything ≡ (
        if stopped_in_callback
        then breaks thread_loop_unlock (record nothing { locks = 1 })
        else keeps nothing)
unfolding perform_all perform stop_acts playback_acts less_close
stop-releases true no_buffer = refl
stop-releases true no_data = refl
stop-releases true nothing_to_copy = refl
stop-releases true copied = refl
stop-releases false no_buffer = refl
stop-releases false no_data = refl
stop-releases false nothing_to_copy = refl
stop-releases false copied = refl

-- Where no call of the set-up fails, whatever callbacks run in between, and where `on_finished` does nothing with the
-- source but, if it is to, stop it at the end: up to the `close` in `ctm_sound_stop`, a sound uses nothing before it
-- acquires it or after it releases it, but that `close` gets an event descriptor that is closed already, since
-- `pw_loop_add_io` has given it to the loop to close. But for that `close`, a sound that is stopped from outside of
-- `on_finished` releases all that it has acquired, each once; and one that `on_finished` stops, as the header
-- suggests, breaks the discipline still, since `on_eventfd_signal` goes on to unlock a source that was freed.
pub session-releases :
    (is_initialized : Bool) (moments : List Moment) (stopped_in_callback : Bool) (p : Playback)
    → let session = session_acts is_initialized moments stopped_in_callback in
      (perform_all (session (stop_acts p)) nothing
        ≡ breaks close_eventfd (loop_gone (if stopped_in_callback then 1 else 0)))
      × (perform_all (session (less_close (stop_acts p))) nothing ≡ (
          if stopped_in_callback
          then breaks thread_loop_unlock (record nothing { locks = 1 })
          else keeps nothing))
session-releases is_initialized moments stopped_in_callback p = (
  session-ends is_initialized moments stopped_in_callback (stop_acts p)
      ∙ stop-breaks stopped_in_callback p,
  session-ends is_initialized moments stopped_in_callback (less_close (stop_acts p))
      ∙ stop-releases stopped_in_callback p,
)

-- A `ctm_sound_play_async` that returns `NULL`, and the `ctm_sound_stop` of it, leave nothing behind.
pub failed-releases :
    (is_initialized malloc_ok sf_opened : Bool) (finished : List Act) (p : Playback)
    → (malloc_ok && sf_opened) ≡ false
    → let (acts, made) = play_acts is_initialized malloc_ok sf_opened finished in
      (made ≡ false) × (perform_all (acts ++ sound_stop_acts made p) nothing ≡ keeps nothing)
unfolding play_acts perform_all perform
failed-releases true true true finished p h = ground arith
failed-releases false true true finished p h = ground arith
failed-releases true false sf_opened finished p h = (refl, refl)
failed-releases false false sf_opened finished p h = (refl, refl)
failed-releases true true false finished p h = (refl, refl)
failed-releases false true false finished p h = (refl, refl)
