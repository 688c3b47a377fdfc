-- ===== src/Sound/Finish.antt =====
-- How a playback of src/sound.c ends: the stream keeps taking what is held, and the ring is refilled.
use clueless_task_manager.Base.{
  ℕ, zero, suc, ◌+◌, ◌*◌, ◌/◌, ◌<◌, ◌≤◌, ◌≡◌, refl, sym, ◌∙◌, ap, subst, true, false, ltb, some,
  List, [], ◌∷◌, ◌++◌, ◌⊎◌, take, length, length-append, length-take, arith, Bool-cases, inl, inr,
  done, Returns,
}
use clueless_task_manager.Sound.{
  SpaRingbuffer, IsRingbuffer, SndFile, Source, buffer_size, fill, on_playback_process,
}
use clueless_task_manager.Sound.Queue.{filled-Holds}
use clueless_task_manager.Sound.Refill.{
  Playing, fill-Moved, asked, got, fill-end, fill-piece, frames_wanted,
}
use clueless_task_manager.Sound.Playback.{bytes_of, on_playback_process-Taken, take-all_of}
use clueless_task_manager.Sound.Whole.{
  Call, refill, playback, run_calls, refilled, refill-done, refilled-Playing, refilled-over, le→leb,
  length-zero,
}

-- `k` times a call of the stream with a buffer of `n` bytes, and the refill that it asks for
unfoldable pub rounds : ℕ → ℕ → List Call
rounds n zero = []
rounds n (suc k) = playback (some (some n)) ∷ refill ∷ rounds n k

-- An empty ring has room for a frame, if one fits into the array.
frames_wanted_some :
    (stride : ℕ) → 0 < stride → stride ≤ 8192 → ltb 0 (frames_wanted 0 stride) ≡ true
frames_wanted_some stride positive le =
    let enough : 1 ≤ 8192 / stride = grind arith in
    let enough' : 1 ≤ 131072 / stride = grind arith in ground arith

module _ {S : SpaRingbuffer} {F : SndFile} (law : IsRingbuffer S) where
  -- A refill of an empty ring finds the end of the file, or takes something from it.
  fill-progress :
      (s : Source S F)
      → Playing S F s []
      → s.channels ≤ 4096
      → ((fill s).file_eof ≡ true) × (S.write_index (fill s).ring ≡ S.write_index s.ring)
        ⊎ (length (F.remaining (fill s).file) < length (F.remaining s.file))
  fill-progress s p le =
      let stride = 2 * s.channels in
      let empty_ring : S.filled s.ring ≡ 0 = filled-Holds law p.held in
      let some_room : ltb 0 (asked s) ≡ true =
        rw empty_ring (frames_wanted_some stride (omega (arith, p.channels)) (omega arith)) in
      elim (Bool-cases (ltb 0 (got s).0)) [
        | inr at_end ↦ inl (rw (fill-end s some_room at_end) (refl, refl))
        | inl more ↦
            let size = (got s).0 * stride in
            let d = take size (got s).1 in
            let order = ap length (p.snd_file.in_order s.file (asked s)) in
            let something : 0 < size = grind (arith, p.channels) in
            let room = p.snd_file.room s.file (asked s) in
            inr (
              rw (fill-piece s some_room more) (
                omega (
                  arith,
                  order,
                  something,
                  room,
                  length-take size (got s).1,
                  length-append d (F.remaining (got s).2),
                )))
      ]

  -- a call of the stream that takes all that is held
  all_taken :
      (n : ℕ) (s : Source S F) (q : List ℕ)
      → Playing S F s q
      → buffer_size ≤ n
      → let (s1, chunk, signal) = on_playback_process (some (some n)) s in
        Playing S F s1 []
        × (bytes_of chunk ≡ q)
        × (F.remaining s1.file ≡ F.remaining s.file)
        × (s1.channels ≡ s.channels)
  all_taken n s q p large =
      let taken = on_playback_process-Taken law (some (some n)) s q p in
      let (all, nothing) = take-all_of n q (omega (arith, p.held.bounded)) in
      (
        subst (λ q. Playing S F (on_playback_process (some (some n)) s).0 q) nothing taken.playing,
        taken.bytes ∙ all,
        ap (λ f. F.remaining f) taken.file,
        taken.same_channels,
      )

  -- one round, in terms of what its two calls leave
  round-run :
      (n : ℕ) (s : Source S F) (calls : List Call) (q : List ℕ) (r : Source S F × List ℕ)
      → let (s1, chunk, signal) = on_playback_process (some (some n)) s in
        0 < s1.channels
        → bytes_of chunk ≡ q
        → run_calls calls (refilled s1).0 ≡ done r
        → run_calls (playback (some (some n)) ∷ refill ∷ calls) s ≡ done (r.0, q ++ r.1)
  unfolding run_calls
  round-run n s calls q r positive same run =
      rw (refill-done (on_playback_process (some (some n)) s).0 positive, run, same) refl

  -- A refill that finds the end of the file with nothing held ends the playback.
  end-stops :
      (s : Source S F)
      → Playing S F s []
      → (fill s).file_eof ≡ true
      → S.write_index (fill s).ring ≡ S.write_index s.ring
      → ((refilled s).0.running ≡ false) × (F.remaining s.file ≡ [])
  end-stops s p eof same_write =
      let (d, moved) = fill-Moved law s [] p in
      let held = moved.playing.held in
      let met : S.write_index (fill s).ring ≤ S.read_index (fill s).ring =
        omega (arith, same_write, p.held.start, p.held.end, moved.same_start) in
      let no_bytes : length d ≡ 0 = omega (arith, held.start, held.end, held.bounded, met) in
      let nothing : F.remaining (fill s).file ≡ [] = moved.playing.ended eof in
      (
        ap (λ r. r.0.running) (refilled-over law s eof (le→leb _ _ met)),
        sym moved.source ∙ rw (length-zero d no_bytes, nothing) refl,
      )

  -- after the calls the source no longer runs, and everything was played in order
  abbrev pub Finishes : List Call → Source S F → List ℕ → Type 0
  Finishes calls s q =
      Returns (run_calls calls s) (λ r. (r.0.running ≡ false) × (r.1 ≡ q ++ F.remaining s.file))

  last_round :
      (n : ℕ) (s : Source S F) (q : List ℕ)
      → Playing S F s q
      → buffer_size ≤ n
      → let s1 = (on_playback_process (some (some n)) s).0 in
        (fill s1).file_eof ≡ true
        → S.write_index (fill s1).ring ≡ S.write_index s1.ring
        → Finishes (playback (some (some n)) ∷ refill ∷ []) s q
  unfolding run_calls
  last_round n s q p large eof same_write =
      let s1 = (on_playback_process (some (some n)) s).0 in
      let (p1, bytes, same_file, same_channels) = all_taken n s q p large in
      let (stopped, nothing) = end-stops s1 p1 eof same_write in
      (
        ((refilled s1).0, q ++ []),
        round-run n s [] q ((refilled s1).0, []) p1.channels bytes refl,
        (stopped, ap (λ l. q ++ l) (sym nothing ∙ same_file)),
      )

  -- For a source with at least one channel, whose ring and file behave as documented: some rounds of
  -- the two calls, no more than bytes are left of the file and one more, play everything that is
  -- held and left of the file, in order, and end with the source no longer running, if the buffers
  -- of the stream have room for the whole ring and a frame fits into the array of the refill, so
  -- there are at most 4096 channels.
  pub rounds-finish :
      (n m : ℕ) (s : Source S F) (q : List ℕ)
      → Playing S F s q
      → s.channels ≤ 4096
      → buffer_size ≤ n
      → length (F.remaining s.file) ≤ m
      → (k : ℕ) × (k ≤ m + 1) × Finishes (rounds n k) s q
  unfolding rounds
  rounds-finish n zero s q p le large short =
      let s1 = (on_playback_process (some (some n)) s).0 in
      let (p1, bytes, same_file, same_channels) = all_taken n s q p large in
      elim (fill-progress s1 p1 (omega (arith, same_channels))) [
        | inl (eof, same_write) ↦ (1, omega arith, last_round n s q p large eof same_write)
        | inr shorter ↦ absurd (omega (arith, short, ap length same_file))
      ]
  rounds-finish n (suc m) s q p le large short =
      let s1 = (on_playback_process (some (some n)) s).0 in
      let (p1, bytes, same_file, same_channels) = all_taken n s q p large in
      elim (fill-progress s1 p1 (omega (arith, same_channels))) [
        | inl (eof, same_write) ↦ (1, omega arith, last_round n s q p large eof same_write)
        | inr shorter ↦
            let (d, moved) = fill-Moved law s1 [] p1 in
            let (p2, same_rest, same_channels') = refilled-Playing s1 d moved.playing in
            let (k, few, (r, run, (stopped, played))) =
              rounds-finish n m (refilled s1).0 d p2
                (omega (arith, same_channels, moved.same_channels, same_channels')) large
                (omega (arith, short, ap length same_file, ap length same_rest)) in
            (
              suc k,
              omega (arith, few),
              (
                (r.0, q ++ r.1),
                round-run n s (rounds n k) q r p1.channels bytes run,
                (
                  stopped,
                  ap (λ l. q ++ l) (played ∙ ap (λ l. d ++ l) same_rest ∙ moved.source ∙ same_file),
                ),
              ),
            )
      ]
