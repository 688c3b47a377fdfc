-- ===== src/Sampler.antt =====
-- src/metrics/sampler.c: a thread that captures samples into a ring buffer at an interval, and the
-- functions that start, stop and read it. Each part between taking and releasing the lock is one function
-- on the state; what the threads interleave is a sequence of those.
pub mod Samples
pub mod Lifecycle
pub mod System
mod Tests
use clueless_task_manager.Base.{
  ℕ, ◌+◌, ◌*◌, Bool, true, false, ◌||◌, ◌&&◌, not, Option, none, some, List, [], ◌∷◌, ◌==◌,
  if◌then◌else◌, length,
}
use clueless_task_manager.Base.{ℤ, pos, negsuc, is_zero}
use clueless_task_manager.RingBuffer.{RingBuffer, alloc, advance, load_item, store_item, peek_item}

abbrev pub ctm_sampler_capacity : ℕ
ctm_sampler_capacity = 100

-- `struct sampler`: `thread` and `lock` are left to the system; `subscribed` says that `on_captured`
-- is not `NULL`. The capture function is an argument where it is called.
pub record Sampler : Type 0 where
  pub ring : RingBuffer
  pub interval_ms : ℕ
  pub is_running : Bool
  pub subscribed : Bool

-- the `errno` values the file sets itself, and those of a pthread call
pub data Errno : Type 0 where
  unset einval eagain enomem : Errno
  pthread_error : ℕ → Errno

-- `capture_fn`: of the bytes in the slot, whether it succeeds (returns 0), and the bytes it leaves.
abbrev pub Capture : Type 0
Capture = List ℕ → Bool × List ℕ

-- One turn of `sampler_thread_fn`: `none` is the end of the thread, else the new state, and whether the
-- subscriber is called after the lock is released.
pub sampler_turn : Capture → Sampler → Option (Sampler × Bool)
sampler_turn capture s =
    if s.is_running
    then (let (ring, current_slot) = advance s.ring in
        let (ok, bytes) = capture (load_item ring.buffer current_slot ring.item_size) in
        let filled = record ring { buffer = store_item ring.buffer current_slot bytes } in
        some (record s { ring = filled }, ok && s.subscribed))
    else none

-- `sampler_thread_fn` with the captures it makes; it stops early where `is_running` is cleared.
pub sampler_thread : List Capture → Sampler → Sampler × ℕ
unfolding sampler_turn
sampler_thread [] s = (s, 0)
sampler_thread (capture ∷ captures) s = elim (sampler_turn capture s) [
  | none ↦ (s, 0)
  | some (s', notify) ↦
      let (s'', calls) = sampler_thread captures s' in (s'', (if notify then 1 else 0) + calls)
]

-- What the allocations answer: `mutex` is the result of `pthread_mutex_init`.
pub record Allocs : Type 0 where
  pub sampler_ok : Bool
  pub ring_ok : Bool
  pub buffer_ok : Bool
  pub mutex : ℕ

-- `capture_fn` is only compared with `NULL`, which `has_capture` says it is not.
pub sampler_create : Allocs → ℕ → ℕ → Bool → Errno × Option Sampler
sampler_create sys interval_ms item_size has_capture =
    if item_size == 0 || not has_capture
    then (einval, none)
    else (if sys.sampler_ok
        then elim (alloc sys.ring_ok sys.buffer_ok ctm_sampler_capacity item_size) [
          | none ↦ (enomem, none)
          | some ring ↦
              if sys.mutex == 0
              then (
                unset,
                some (record {
                  ring = ring;
                  interval_ms = interval_ms;
                  is_running = false;
                  subscribed = false;
                }),
              )
              else (pthread_error sys.mutex, none)
        ]
        else (enomem, none))

-- What `int` functions return, `errno`, and the sampler afterwards; `none` is `NULL`.
abbrev pub Reply : Type 0
Reply = ℤ × Errno × Option Sampler

-- `created` is the result of `pthread_create`, asked for only where the code calls it.
pub sampler_start : ℕ → Option Sampler → Reply
sampler_start created none = (negsuc 0, einval, none)
sampler_start created (some s) =
    if s.is_running
    then (pos 0, unset, some s)
    else (if created == 0
        then (pos 0, unset, some (record s { is_running = true }))
        else (negsuc 0, pthread_error created, some (record s { is_running = false })))

-- `joined` is the result of `pthread_join`.
pub sampler_stop : ℕ → Option Sampler → Reply
sampler_stop joined none = (negsuc 0, einval, none)
sampler_stop joined (some s) =
    let stopped = record s { is_running = false } in
    if s.is_running && not (joined == 0)
    then (negsuc 0, pthread_error joined, some stopped)
    else (pos 0, unset, some stopped)

pub sampler_subscribe : Option Sampler → Bool → Reply
sampler_subscribe (some s) true = (pos 0, unset, some (record s { subscribed = true }))
sampler_subscribe s has_subscriber = (negsuc 0, einval, s)

-- The result of `sampler_stop` is not used.
pub sampler_destroy : ℕ → Option Sampler → Reply
sampler_destroy joined none = (negsuc 0, einval, none)
sampler_destroy joined (some s) = (pos 0, unset, none)

-- `process_fn` is `none` for `NULL`.
abbrev pub ProcessFn : Type 0
ProcessFn = List ℕ → List ℕ → ℤ

pub sampler_get_value : Option Sampler → ℕ → Option ProcessFn → ℤ × Errno
sampler_get_value (some s) window (some process_fn) =
    if window == 0 then (negsuc 0, einval) else elim (peek_item s.ring 0) [
      | none ↦ (negsuc 0, eagain)
      | some current ↦ elim (peek_item s.ring window) [
        | none ↦ (negsuc 0, eagain)
        | some previous ↦ (process_fn current previous, unset)
      ]
    ]
sampler_get_value s window process_fn = (negsuc 0, einval)

pub sampler_create_with_subscription_and_start :
    Allocs → ℕ → ℕ → ℕ → Bool → Bool → Errno × Option Sampler
unfolding sampler_create sampler_subscribe sampler_start
sampler_create_with_subscription_and_start sys created interval_ms item_size has_capture
      has_callback =
    if not has_capture || not has_callback
    then (einval, none)
    else (let (error, made) = sampler_create sys interval_ms item_size has_capture in
        elim made [
          | none ↦ (error, none)
          | some s ↦
              let (code, error', subscribed) = sampler_subscribe (some s) has_callback in
              let (code', error'', started) = sampler_start created subscribed in
              if is_zero code
              then (if is_zero code' then (unset, started) else (error'', none))
              else (error', none)
        ])
