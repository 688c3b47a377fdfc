-- ===== src/Sound/Playback.antt =====
-- `on_playback_process` of src/sound.c: it takes the oldest bytes that are held.
use clueless_task_manager.Base.{
  ℕ, zero, suc, ◌+◌, ◌*◌, ◌%◌, ◌≤◌, ◌≡◌, refl, sym, ◌∙◌, ap, subst, Bool, true, false, Option, none,
  some, List, [], ◌∷◌, ltb, if◌then◌else◌, take, drop, length, to_uint, arith, Bool-cases, inl, inr,
}
use clueless_task_manager.Sound.{
  SpaRingbuffer, IsRingbuffer, SndFile, Source, Chunk, buffer_size, on_playback_process,
}
use clueless_task_manager.Sound.Queue.{filled-Holds, read_data-take, read-Holds}
use clueless_task_manager.Sound.Refill.{Playing}

-- the bytes that one call asks for; none where it has no buffer to fill
abbrev pub required : Option (Option ℕ) → ℕ
required none = 0
required (some none) = 0
required (some (some n)) = n

abbrev pub bytes_of : Option Chunk → List ℕ
bytes_of none = []
bytes_of (some c) = c.bytes

pub take-all_of : (n : ℕ) (xs : List ℕ) → length xs ≤ n → (take n xs ≡ xs) × (drop n xs ≡ [])
take-all_of zero [] h = (refl, refl)
take-all_of (suc n) [] h = (refl, refl)
take-all_of zero (x ∷ xs) h = absurd (omega arith)
take-all_of (suc n) (x ∷ xs) h =
    let (a, b) = take-all_of n xs (omega arith) in (ap (λ l. x ∷ l) a, b)

-- the least of what is held and what is asked for
least : (l n : ℕ) → (if ltb l n then l else n) ≤ l
least l n = ground arith

take_least :
    (q : List ℕ) (n : ℕ)
    → let k = if ltb (length q) n then length q else n in
      (take k q ≡ take n q) × (drop k q ≡ drop n q)
take_least q n = elim (Bool-cases (ltb (length q) n)) [
  | inr more ↦ rw more (refl, refl)
  | inl less ↦
      let (a, b) = take-all_of (length q) q (omega arith) in
      let (c, d) = take-all_of n q (ground arith) in rw less (a ∙ sym c, b ∙ sym d)
]

module _ {S : SpaRingbuffer} {F : SndFile} (law : IsRingbuffer S) where
  -- What one call leaves: the oldest bytes are in the chunk, the others are still held.
  pub record Taken (s : Source S F) (q : List ℕ) (n : ℕ) (r : Source S F × Option Chunk × Bool)
      : Type 0 where
    pub playing : Playing S F r.0 (drop n q)
    pub bytes : bytes_of r.1 ≡ take n q
    pub file : r.0.file ≡ s.file
    pub eof : r.0.file_eof ≡ s.file_eof
    pub callback : r.0.on_finished ≡ s.on_finished
    pub same_channels : r.0.channels ≡ s.channels

  nothing-Taken :
      (s : Source S F) (q : List ℕ) (chunk : Option Chunk)
      → Playing S F s q
      → bytes_of chunk ≡ []
      → Taken s q 0 (s, chunk, false)
  nothing-Taken s q chunk p e = record {
    playing = p;
    bytes = e;
    file = refl;
    eof = refl;
    callback = refl;
    same_channels = refl;
  }

  some-Taken :
      (s : Source S F) (q : List ℕ) (k stride : ℕ)
      → Playing S F s q
      → k ≤ length q
      → Taken s q k (
        record s { ring = S.read_update s.ring (to_uint (S.read_index s.ring + k)) },
        some (record {
          bytes = S.read_data s.buffer buffer_size (S.read_index s.ring % buffer_size) k;
          stride = stride;
        }),
        true,
      )
  some-Taken s q k stride p le = record {
    playing = record {
      held = read-Holds law p.held k le;
      channels = p.channels;
      snd_file = p.snd_file;
      ended = p.ended;
    };
    bytes = read_data-take law p.held k le;
    file = refl;
    eof = refl;
    callback = refl;
    same_channels = refl;
  }

  copy-Taken :
      (s : Source S F) (q : List ℕ) (n : ℕ)
      → Playing S F s q
      → let k = if ltb (length q) n then length q else n in
        Taken s q k (on_playback_process (some (some n)) s)
  unfolding on_playback_process
  copy-Taken s q n p =
      let k = if ltb (length q) n then length q else n in
      let used = filled-Holds law p.held in
      elim (Bool-cases (ltb 0 k)) [
        | inl some_bytes ↦
            rw (used, some_bytes) (some-Taken s q k (2 * s.channels) p (least (length q) n))
        | inr no_bytes ↦
            let zero_bytes : k ≡ 0 = ground arith in
            rw (used, no_bytes, zero_bytes) (nothing-Taken s q _ p refl)
      ]

  -- For a source with at least one channel, whose ring and file behave as documented: whatever
  -- buffer the stream gives, a call takes as many of the oldest bytes as it asks for, in order, or
  -- all that are held, and it leaves the others.
  pub on_playback_process-Taken :
      (buffer : Option (Option ℕ)) (s : Source S F) (q : List ℕ)
      → Playing S F s q
      → Taken s q (required buffer) (on_playback_process buffer s)
  unfolding on_playback_process
  on_playback_process-Taken none s q p = nothing-Taken s q none p refl
  on_playback_process-Taken (some none) s q p = nothing-Taken s q none p refl
  on_playback_process-Taken (some (some n)) s q p =
      let t = copy-Taken s q n p in
      let (same, rest) = take_least q n in
      record {
        playing =
            subst (λ q'. Playing S F (on_playback_process (some (some n)) s).0 q') rest t.playing;
        bytes = t.bytes ∙ same;
        file = t.file;
        eof = t.eof;
        callback = t.callback;
        same_channels = t.same_channels;
      }
