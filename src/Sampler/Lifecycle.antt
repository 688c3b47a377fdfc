-- ===== src/Sampler/Lifecycle.antt =====
-- How the functions of src/metrics/sampler.c that create, start and stop a sampler end.
use clueless_task_manager.Base.{
  ℕ, ◌≡◌, ◌≢◌, true, Bool, ◌&&◌, ◌==◌, not, none, some, arith, pos, if◌then◌else◌, replicate, ◌*◌,
}
use clueless_task_manager.RingBuffer.{alloc}
use clueless_task_manager.Sampler.{
  Sampler, Capture, unset, Allocs, sampler_turn, sampler_create, sampler_start, sampler_stop,
  sampler_subscribe, sampler_create_with_subscription_and_start,
}

-- everything that a call needs is given
abbrev pub all_given : Allocs → ℕ → ℕ → Bool → Bool → Bool
all_given sys created item_size has_capture has_callback =
    has_capture
    && has_callback
    && not (item_size == 0)
    && sys.sampler_ok
    && sys.ring_ok
    && sys.buffer_ok
    && (sys.mutex == 0)
    && (created == 0)

-- `sampler_create_with_subscription_and_start` returns a sampler exactly if both functions are
-- given, the item size is not 0 and every system call succeeds; that sampler is running, has its
-- subscriber and the given interval, and its ring is the fresh one of 100 slots.
pub create_and_start-made :
    (sys : Allocs) (created interval item_size : ℕ) (has_capture has_callback : Bool)
    → (sampler_create_with_subscription_and_start sys created interval item_size has_capture
        has_callback).1
      ≡ (if all_given sys created item_size has_capture has_callback
          then some (record {
            ring = record {
              capacity = 100;
              count = 0;
              buffer = replicate (100 * item_size) 0;
              item_size = item_size;
              head = 0;
            };
            interval_ms = interval;
            is_running = true;
            subscribed = true;
          })
          else none)
unfolding sampler_create_with_subscription_and_start sampler_create sampler_subscribe sampler_start
    alloc
create_and_start-made sys created interval item_size has_capture has_callback = ground arith

-- After `sampler_stop`, whatever joining the thread answers, the next turn of the thread is its
-- end; after a `sampler_start` behind it that returns 0, the next turn captures, and the samples
-- from before the stop are still in the ring.
pub stop-start-turns :
    (capture : Capture) (s : Sampler) (joined created : ℕ) {stopped started : Sampler}
    → (sampler_stop joined (some s)).2 ≡ some stopped
    → sampler_start created (some stopped) ≡ (pos 0, unset, some started)
    → (sampler_turn capture stopped ≡ none)
      × (sampler_turn capture started ≢ none)
      × (started.ring ≡ s.ring)
unfolding sampler_stop sampler_start sampler_turn
stop-start-turns capture s joined created {stopped} {started} e e' = ground arith
