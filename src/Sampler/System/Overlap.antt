-- ===== src/Sampler/System/Overlap.antt =====
-- src/metrics/sampler.c with several controllers: a start between the unlock and the join of a stop.
use clueless_task_manager.Base.{ℕ, ◌<◌, ◌≡◌, true, false, [], arith, update}
use clueless_task_manager.Sampler.System.{
  looping, free, stopping, joining, System, started, start, read_thread, Reach, here, later,
}

-- A controller `i` is behind the unlock of its `sampler_stop`, and its thread still loops. If another one
-- starts the sampler now, then afterwards two threads loop on a running sampler, and `i` waits in
-- `pthread_join` for the new thread, not for the one that it has stopped. The thread of the field is
-- older than the next one.
pub sampler_start-overlaps :
    {n : ℕ} (i j : ℕ) (s : System)
    → i < n
    → j < n
    → s.pc i ≡ stopping
    → s.pc j ≡ free
    → s.sampler.is_running ≡ false
    → s.phase s.thread ≡ looping
    → s.thread < s.made
    → (s' : System) × Reach n s [] s'
      × (s'.sampler.is_running ≡ true)
      × (s'.phase s.thread ≡ looping)
      × (s'.phase s.made ≡ looping)
      × (s'.pc i ≡ joining s.made)
unfolding started
sampler_start-overlaps i j s hi hj stops outside off loops old =
    let s1 = started 0 s in
    let s2 = record s1 { pc = update s1.pc i (joining s1.thread) } in
    (
      s2,
      later (later here (start j 0 hj outside)) (read_thread i hi (ground arith)),
      ground arith,
      ground arith,
      ground arith,
      ground arith,
    )
