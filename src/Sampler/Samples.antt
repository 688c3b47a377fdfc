-- ===== src/Sampler/Samples.antt =====
-- What the readers of src/metrics/sampler.c see of the samples its thread captures.
use mathlib.Core.List.{reverse_aux}
use clueless_task_manager.Base.{
  ℕ, ◌+◌, ◌*◌, ◌≡◌, ◌<◌, ◌^◌, sym, ◌∙◌, ap, true, Bool, if◌then◌else◌, Option, some, List, [], ◌∷◌,
  arith, take, get_elem?, ℤ, pos, negsuc,
}
use clueless_task_manager.RingBuffer.{alloc, advance, push, peek_item}
use clueless_task_manager.RingBuffer.History.{push_all, Sized, captures-latest}
use clueless_task_manager.Sampler.{
  Sampler, Capture, ProcessFn, Errno, unset, eagain, sampler_turn, sampler_thread, Allocs,
  sampler_create, sampler_start, sampler_get_value, ctm_sampler_capacity,
}

-- a capture that answers `result` whatever the slot holds
abbrev pub fixed : Bool × List ℕ → Capture
fixed result = λ old. result

unfoldable pub bytes_of : List (Bool × List ℕ) → List (List ℕ)
bytes_of [] = []
bytes_of (r ∷ rs) = r.1 ∷ bytes_of rs

unfoldable pub captures : List (Bool × List ℕ) → List Capture
captures [] = []
captures (r ∷ rs) = fixed r ∷ captures rs

unfoldable pub successes : List (Bool × List ℕ) → ℕ
successes [] = 0
successes (r ∷ rs) = (if r.0 then 1 else 0) + successes rs

-- The thread of a running sampler pushes one sample per capture, also for a capture that fails, and
-- calls the subscriber once for each capture that succeeds, if there is one.
pub sampler_thread-pushes :
    (results : List (Bool × List ℕ)) (s : Sampler)
    → s.is_running ≡ true
    → sampler_thread (captures results) s ≡ (
      record s { ring = push_all s.ring (bytes_of results) },
      if s.subscribed then successes results else 0,
    )
unfolding sampler_thread sampler_turn captures bytes_of successes push_all push advance
sampler_thread-pushes [] s on = ground arith
sampler_thread-pushes (r ∷ rs) s on =
    ground (arith, sampler_thread-pushes rs (record s { ring = push s.ring r.1 }) on)

-- the value for two samples, `none` where there is no sample
abbrev pub value_of : ProcessFn → Option (List ℕ) → Option (List ℕ) → ℤ × Errno
value_of f (some current) (some previous) = (f current previous, unset)
value_of f current previous = (negsuc 0, eagain)

pub get_value-value_of :
    (s : Sampler) (window : ℕ) (f : ProcessFn)
    → 0 < window
    → sampler_get_value (some s) window (some f)
      ≡ value_of f (peek_item s.ring 0) (peek_item s.ring window)
unfolding sampler_get_value
get_value-value_of s window f h = ground arith

pub created-ring :
    (sys : Allocs) (interval item_size : ℕ) {s : Sampler}
    → sampler_create sys interval item_size true ≡ (unset, some s)
    → alloc true true ctm_sampler_capacity item_size ≡ some s.ring
unfolding sampler_create alloc
created-ring sys interval item_size {s} made = ground arith

start-running :
    (s : Sampler) {s' : Sampler}
    → sampler_start 0 (some s) ≡ (pos 0, unset, some s')
    → (s'.ring ≡ s.ring) × (s'.is_running ≡ true)
unfolding sampler_start
start-running s started = ground arith

-- A reader of a sampler that was created and started and that has made any captures gets the value of
-- the newest sample and the one `window` captures before it, among the 100 newest. Where there are
-- not that many it gets -1 with EAGAIN. The captures fill the slot, and their results are ignored.
pub sampler_get_value-window :
    (sys : Allocs) (interval item_size : ℕ) (results : List (Bool × List ℕ)) {s s' : Sampler}
    → (window : ℕ) (f : ProcessFn) → 100 * item_size < 2 ^ 64
    → 0 < window
    → sampler_create sys interval item_size true ≡ (unset, some s)
    → sampler_start 0 (some s) ≡ (pos 0, unset, some s')
    → Sized item_size (bytes_of results)
    → let history = take 100 (reverse_aux (bytes_of results) []) in
      sampler_get_value (some (sampler_thread (captures results) s').0) window (some f)
      ≡ value_of f (get_elem? history 0) (get_elem? history window)
sampler_get_value-window sys interval item_size results {s} {s'} window f fits h made started
      sized =
    let (same, on) = start-running s started in
    let ring_made : alloc true true 100 item_size ≡ some s'.ring =
      created-ring sys interval item_size made ∙ ap some (sym same) in
    let latest =
      captures-latest 100 item_size (bytes_of results) (omega arith) (omega arith) fits ring_made
        sized in
    rw (sampler_thread-pushes results s' on) (
      get_value-value_of (record s' { ring = push_all s'.ring (bytes_of results) }) window f h
      ∙ ap (λ o. value_of f o (peek_item (push_all s'.ring (bytes_of results)) window)) (latest 0)
      ∙ ap (λ o. value_of f (get_elem? (take 100 (reverse_aux (bytes_of results) [])) 0) o)
          (latest window))
