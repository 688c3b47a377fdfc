-- ===== src/Sound/Whole.antt =====
-- A whole playback of src/sound.c: the calls of its two handlers in any order.
use mathlib.Core.List.{append_assoc}
use clueless_task_manager.Base.{
  ℕ, zero, suc, ◌+◌, ◌*◌, ◌^◌, ◌<◌, ◌≤◌, ◌≡◌, refl, sym, ◌∙◌, ap, subst, Bool, true, false, ◌&&◌,
  ◌==◌, leb, Option, some, List, [], ◌∷◌, ◌++◌, if◌then◌else◌, take, drop, length, length-replicate,
  arith, Bool-cases, inl, inr, Outcome, done, fault, out_of_fuel, Returns, ◌>>=◌,
}
use clueless_task_manager.Sound.{
  SpaRingbuffer, IsRingbuffer, SndFile, Source, buffer_size, opened, IsSndFile, fill,
  refill_ringbuffer, on_playback_process,
}
use clueless_task_manager.Sound.Refill.{Playing, fill-Moved, append-nil_parts}
use clueless_task_manager.Sound.Playback.{
  required, bytes_of, on_playback_process-Taken, take-all_of,
}

-- One call: of `refill_ringbuffer`, by the event descriptor, or of `on_playback_process`, by the stream.
pub data Call : Type 0 where
  refill : Call
  playback : Option (Option ℕ) → Call

take-drop : (n : ℕ) (xs : List ℕ) → take n xs ++ drop n xs ≡ xs
take-drop zero xs = refl
take-drop (suc n) [] = refl
take-drop (suc n) (x ∷ xs) = ap (λ l. x ∷ l) (take-drop n xs)

done_injective : {A : Type 0} {a b : A} → done a ≡ done b → a ≡ b
done_injective {a = a} e = ap (λ o. elim o [ done x ↦ x | fault ↦ a | out_of_fuel ↦ a ]) e

not-true_and_false : {b : Bool} → b ≡ true → b ≡ false → ⊥
not-true_and_false e e' = ground arith

pub length-zero : (xs : List ℕ) → length xs ≡ 0 → xs ≡ []
length-zero [] e = refl
length-zero (x ∷ xs) e = absurd (omega arith)

pub le→leb : (a b : ℕ) → a ≤ b → leb a b ≡ true
le→leb a b h = ground arith

module _ {S : SpaRingbuffer} {F : SndFile} where
  -- The calls one after the other: the source behind them, and all the bytes that were played.
  unfoldable pub run_calls : List Call → Source S F → Outcome (Source S F × List ℕ)
  run_calls [] s = done (s, [])
  run_calls (refill ∷ calls) s = refill_ringbuffer s >>= λ r. run_calls calls r.0
  run_calls (playback buffer ∷ calls) s =
      let (s', chunk, signal) = on_playback_process buffer s in
      run_calls calls s' >>= λ r. done (r.0, bytes_of chunk ++ r.1)

  -- what `refill_ringbuffer` returns
  abbrev pub refilled : Source S F → Source S F × Bool
  refilled s =
      let s' = fill s in
      if s'.file_eof && leb (S.write_index s'.ring) (S.read_index s'.ring)
      then (record s' { running = false }, s'.on_finished)
      else (s', false)

  pub refill-done : (s : Source S F) → 0 < s.channels → refill_ringbuffer s ≡ done (refilled s)
  unfolding refill_ringbuffer
  refill-done s h =
      let nonzero : (s.channels == 0) ≡ false = ground arith in
      let over =
        (fill s).file_eof && leb (S.write_index (fill s).ring) (S.read_index (fill s).ring) in
      elim (Bool-cases over) [ inl e ↦ rw (nonzero, e) refl | inr e ↦ rw (nonzero, e) refl ]

  pub refilled-Playing :
      (s : Source S F) (q : List ℕ)
      → Playing S F (fill s) q
      → Playing S F (refilled s).0 q
        × (F.remaining (refilled s).0.file ≡ F.remaining (fill s).file)
        × ((refilled s).0.channels ≡ (fill s).channels)
  refilled-Playing s q p =
      let over =
        (fill s).file_eof && leb (S.write_index (fill s).ring) (S.read_index (fill s).ring) in
      elim (Bool-cases over) [
        | inl e ↦ rw e (
          record { held = p.held; channels = p.channels; snd_file = p.snd_file; ended = p.ended },
          refl,
          refl,
        )
        | inr e ↦ rw e (p, refl, refl)
      ]

module _ {S : SpaRingbuffer} {F : SndFile} (law : IsRingbuffer S) where
  -- where the bytes of a source are after a run that played some of them
  pub record Played (s : Source S F) (q : List ℕ) (r : Source S F × List ℕ) : Type 0 where
    pub queue : List ℕ
    pub playing : Playing S F r.0 queue
    pub order : r.1 ++ (queue ++ F.remaining r.0.file) ≡ q ++ F.remaining s.file

  -- What a successful open sets up holds no bytes.
  pub opened-Playing :
      (file : F.File) (channels : ℕ) (on_finished : Bool)
      → 0 < channels
      → IsSndFile F (2 * channels)
      → Playing S F (opened file channels on_finished) []
  unfolding opened
  opened-Playing file channels on_finished positive snd_file = record {
    held = record {
      start = rw law.init_read (omega arith);
      end = rw (law.init_write, law.init_read) refl;
      bounded = omega arith;
      storage = length-replicate {A = ℕ} buffer_size 0;
      bytes = λ j h. absurd (omega arith);
    };
    channels = positive;
    snd_file = snd_file;
    ended = λ e. ground arith;
  }

  -- For a source with at least one channel, whose ring and file behave as documented: in every
  -- sequence of calls no byte of the file is lost, doubled or moved: what was played, then what the
  -- ring holds, then what is left of the file are the bytes that were held and left at the start, in
  -- order. No call divides by 0, and the ring never holds more than its buffer.
  pub run_calls-Played :
      (calls : List Call) (s : Source S F) (q : List ℕ)
      → Playing S F s q
      → Returns (run_calls calls s) (Played s q)
  unfolding run_calls
  run_calls-Played [] s q p = ((s, []), refl, record { queue = q; playing = p; order = refl })
  run_calls-Played (refill ∷ calls) s q p =
      let (d, moved) = fill-Moved law s q p in
      let (p', same, _) = refilled-Playing s (q ++ d) moved.playing in
      let (r, run, played) = run_calls-Played calls (refilled s).0 (q ++ d) p' in
      (
        r,
        ap (λ o. o >>= λ r. run_calls calls r.0) (refill-done s p.channels) ∙ run,
        record {
          queue = played.queue;
          playing = played.playing;
          order =
              played.order
              ∙ ap (λ l. (q ++ d) ++ l) same
              ∙ append_assoc q d _
              ∙ ap (λ l. q ++ l) moved.source;
        },
      )
  run_calls-Played (playback buffer ∷ calls) s q p =
      let taken = on_playback_process-Taken law buffer s q p in
      let n = required buffer in
      let (r, run, played) =
        run_calls-Played calls (on_playback_process buffer s).0 (drop n q) taken.playing in
      (
        (r.0, bytes_of (on_playback_process buffer s).1 ++ r.1),
        ap (λ o. o >>= λ r. done (r.0, bytes_of (on_playback_process buffer s).1 ++ r.1)) run,
        record {
          queue = played.queue;
          playing = played.playing;
          order =
              append_assoc (bytes_of (on_playback_process buffer s).1) r.1
                (played.queue ++ F.remaining r.0.file)
              ∙ ap (λ l. bytes_of (on_playback_process buffer s).1 ++ l) played.order
              ∙ ap (λ b. b ++ (drop n q ++ F.remaining (on_playback_process buffer s).0.file))
                  taken.bytes
              ∙ ap (λ f. take n q ++ (drop n q ++ F.remaining f)) taken.file
              ∙ sym (append_assoc (take n q) (drop n q) (F.remaining s.file))
              ∙ ap (λ l. l ++ F.remaining s.file) (take-drop n q);
        },
      )

  pub refilled-over :
      (s : Source S F)
      → (fill s).file_eof ≡ true
      → leb (S.write_index (fill s).ring) (S.read_index (fill s).ring) ≡ true
      → refilled s ≡ (record (fill s) { running = false }, (fill s).on_finished)
  refilled-over s eof met = rw (eof, met) refl

  finished_over :
      (s : Source S F)
      → (refilled s).1 ≡ true
      → ((fill s).file_eof ≡ true) × (S.write_index (fill s).ring ≤ S.read_index (fill s).ring)
  finished_over s e =
      let over =
        (fill s).file_eof && leb (S.write_index (fill s).ring) (S.read_index (fill s).ring) in
      elim (Bool-cases over) [
        | inl yes_over ↦ (ground arith, ground arith)
        | inr e' ↦
            let flag : (refilled s).1 ≡ false = rw e' refl in absurd (not-true_and_false e flag)
      ]

  -- For a source with at least one channel, whose ring and file behave as documented: `on_finished`
  -- is called only when every byte was taken and nothing is left of the file, as long as the read
  -- index is more than one buffer below 2^32, where it wraps.
  pub refill_ringbuffer-finished :
      (s s' : Source S F) (q : List ℕ)
      → Playing S F s q
      → S.read_index s.ring + buffer_size < 2 ^ 32
      → refill_ringbuffer s ≡ done (s', true)
      → (q ≡ []) × (F.remaining s.file ≡ [])
  refill_ringbuffer-finished s s' q p low ran =
      let (d, moved) = fill-Moved law s q p in
      let returned : done (refilled s) ≡ done (s', true) = sym (refill-done s p.channels) ∙ ran in
      let (eof, met) = finished_over s (ap (λ r. r.1) (done_injective returned)) in
      let nothing : length (q ++ d) ≡ 0 =
        omega (arith, moved.playing.held.end, moved.playing.held.bounded, moved.same_start) in
      let (no_queue, no_piece) = append-nil_parts q d (length-zero (q ++ d) nothing) in
      (no_queue, sym moved.source ∙ rw (no_piece, moved.playing.ended eof) refl)

  -- For a source with at least one channel, whose ring and file behave as documented: once the end
  -- of the file is noted, a call of the stream that takes all that is held makes the next refill end
  -- the playback: the source is no longer running, and `on_finished` is called if there is one.
  pub played_out-finishes :
      (s : Source S F) (q : List ℕ) (n : ℕ)
      → Playing S F s q
      → s.file_eof ≡ true
      → length q ≤ n
      → let s1 = (on_playback_process (some (some n)) s).0 in
        refill_ringbuffer s1 ≡ done (record (fill s1) { running = false }, s.on_finished)
  played_out-finishes s q n p eof all =
      let taken = on_playback_process-Taken law (some (some n)) s q p in
      let s1 = (on_playback_process (some (some n)) s).0 in
      let p1 : Playing S F s1 [] =
        subst (λ q. Playing S F s1 q) (take-all_of n q all).1 taken.playing in
      let (d, moved) = fill-Moved law s1 [] p1 in
      let eof1 = taken.eof ∙ eof in
      let (no_piece, none_left) = append-nil_parts d _ (moved.source ∙ p1.ended eof1) in
      let no_bytes : length d ≡ 0 = rw no_piece refl in
      let held = moved.playing.held in
      let met : S.write_index (fill s1).ring ≤ S.read_index (fill s1).ring =
        omega (arith, held.start, held.end) in
      let result = refilled-over s1 (moved.eof eof1) (le→leb _ _ met) in
      let callback = moved.callback ∙ taken.callback in
      refill-done s1 p1.channels
      ∙ ap done result
      ∙ ap (λ b. done (record (fill s1) { running = false }, b)) callback
