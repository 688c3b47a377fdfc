-- ===== src/Sampler/Tests.antt =====
-- src/metrics/sampler.c with samples of two bytes, one of which fails.
use clueless_task_manager.Base.{
  ℕ, ◌≡◌, refl, true, false, Bool, some, List, [], ◌∷◌, arith, take, get_elem?, pos, length, ◌+◌,
  if◌then◌else◌, replicate,
}
use clueless_task_manager.RingBuffer.{alloc}
use clueless_task_manager.RingBuffer.History.{push_all}
use clueless_task_manager.Sampler.{
  Sampler, Allocs, ProcessFn, sampler_create, sampler_thread, sampler_get_value, sampler_turn,
  sampler_create_with_subscription_and_start,
}
use clueless_task_manager.Base.{◌<◌, update}
use clueless_task_manager.RingBuffer.{push, advance}
use clueless_task_manager.Sampler.{unset}
use clueless_task_manager.Sampler.System.{
  System, Reach, here, later, start, stop, read_thread, join, capture, leave, initial, started,
  stopped, looping, ended, joined, free, joining,
}
use clueless_task_manager.Sampler.System.Captures.{sampler_get_value-interleaved}
use clueless_task_manager.Sampler.System.Alone.{
  is_live, sampler_stop-leaves_none, ReturnsToFree, sampler_stop-returns,
}
use clueless_task_manager.Sampler.System.Overlap.{sampler_start-overlaps}
use clueless_task_manager.Sampler.Lifecycle.{create_and_start-made}
use clueless_task_manager.Sampler.Samples.{
  bytes_of, captures, successes, value_of, sampler_thread-pushes,
}

abbrev idle : Sampler
idle = record {
  ring = record { capacity = 100; count = 0; buffer = replicate 200 0; item_size = 2; head = 0 };
  interval_ms = 500;
  is_running = false;
  subscribed = false;
}

abbrev running : Sampler
running = record idle { is_running = true }

abbrev results : List (Bool × List ℕ)
results = (true, 1 ∷ 2 ∷ []) ∷ (false, 3 ∷ 4 ∷ []) ∷ (true, 5 ∷ 6 ∷ []) ∷ []

abbrev added_lengths : ProcessFn
added_lengths current previous = pos (length current + length previous)

abbrev all_granted : Allocs
all_granted = record { sampler_ok = true; ring_ok = true; buffer_ok = true; mutex = 0 }

sampler_thread-pushes_example : sampler_thread (captures results) running ≡ (
  record running { ring = push_all running.ring (bytes_of results) },
  if running.subscribed then successes results else 0,
)
sampler_thread-pushes_example = sampler_thread-pushes results running refl

create_and_start-made_example :
    (sampler_create_with_subscription_and_start all_granted 0 500 2 true true).1
    ≡ some (record idle { is_running = true; subscribed = true })
create_and_start-made_example = create_and_start-made all_granted 0 500 2 true true

-- It is started, captures once, and is stopped up to the unlock.
abbrev capturing : System
capturing = started 0 (initial idle)

abbrev captured : System
captured = record capturing { sampler = record running { ring = push running.ring (1 ∷ 2 ∷ []) } }

captured-Reach : (n : ℕ) → 0 < n → Reach n (initial idle) ((true, 1 ∷ 2 ∷ []) ∷ []) captured
unfolding sampler_turn started push advance
captured-Reach n h = later (later here (start 0 0 h refl)) (capture 0 (true, 1 ∷ 2 ∷ []) refl refl)

abbrev stopping_first : System
stopping_first = stopped 0 captured

stopping_first-Reach : Reach 1 (initial idle) ((true, 1 ∷ 2 ∷ []) ∷ []) stopping_first
unfolding started
stopping_first-Reach = later (captured-Reach 1 (omega arith)) (stop 0 (omega arith) refl)

idle-created : sampler_create all_granted 500 2 true ≡ (unset, some idle)
unfolding sampler_create alloc
idle-created = refl

sampler_get_value-interleaved_example :
    sampler_get_value (some captured.sampler) 1 (some added_lengths)
    ≡ value_of added_lengths
        (get_elem? (take 100 (bytes_of ((true, 1 ∷ 2 ∷ []) ∷ []))) 0)
        (get_elem? (take 100 (bytes_of ((true, 1 ∷ 2 ∷ []) ∷ []))) 1)
unfolding bytes_of
sampler_get_value-interleaved_example =
    sampler_get_value-interleaved all_granted 500 2 2 {s = idle} {results = (true, 1 ∷ 2 ∷ []) ∷ []}
      1 added_lengths (omega arith) (omega arith) idle-created (captured-Reach 2 (omega arith))
      (refl, tt)

sampler_stop-returns_example : ReturnsToFree stopping_first
unfolding started stopped
sampler_stop-returns_example =
    sampler_stop-returns refl stopping_first-Reach (λ e. ground (arith, e))

-- its thread ends, and is joined
abbrev back : System
back = record stopping_first {
  phase = update (update stopping_first.phase 0 ended) 0 joined;
  pc = update (update stopping_first.pc 0 (joining 0)) 0 free;
}

back-Reach : Reach 1 (initial idle) ((true, 1 ∷ 2 ∷ []) ∷ []) back
unfolding sampler_turn started stopped
back-Reach =
    later
      (later (later stopping_first-Reach (read_thread 0 (omega arith) refl))
        (leave 0 (true, []) refl refl))
      (join 0 0 (omega arith) refl refl)

sampler_stop-leaves_none_example : is_live (back.phase 0) ≡ false
unfolding started stopped
sampler_stop-leaves_none_example = sampler_stop-leaves_none 0 refl back-Reach refl refl

sampler_start-overlaps_example :
    (s' : System) × Reach 2 stopping_first [] s'
    × (s'.sampler.is_running ≡ true)
    × (s'.phase 0 ≡ looping)
    × (s'.phase 1 ≡ looping)
    × (s'.pc 0 ≡ joining 1)
unfolding started stopped
sampler_start-overlaps_example =
    sampler_start-overlaps 0 1 stopping_first (omega arith) (omega arith) refl refl refl refl
      (omega arith)
