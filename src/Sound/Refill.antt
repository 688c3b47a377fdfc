-- ===== src/Sound/Refill.antt =====
-- `refill_ringbuffer` of src/sound.c: what it takes from the file it puts behind what is held.
use mathlib.Core.List.{append-nil}
use clueless_task_manager.Base.{
  ℕ, ◌+◌, ◌-◌, ◌*◌, ◌/◌, ◌%◌, ◌^◌, ◌<◌, ◌≤◌, ◌≡◌, refl, sym, ◌∙◌, subst, true, false, List, [], ◌∷◌,
  ◌++◌, ltb, if◌then◌else◌, take, length, length-take, to_uint, arith, Bool-cases, inl, inr,
}
use clueless_task_manager.Sound.{
  SpaRingbuffer, IsRingbuffer, SndFile, IsSndFile, Source, buffer_size, local_bytes, fill,
}
use clueless_task_manager.Sound.Queue.{Holds, filled-Holds, write-Holds}

-- the frames that `refill_ringbuffer` asks for, with `used` bytes held
abbrev pub frames_wanted : ℕ → ℕ → ℕ
frames_wanted used stride =
    let available_space = to_uint (buffer_size + 2 ^ 32 - used) in
    if ltb (available_space / stride) (local_bytes / stride)
    then available_space / stride
    else local_bytes / stride

-- They fit into the array and into the free part of the ring.
frames_wanted-fit :
    (used stride : ℕ)
    → 0 < stride
    → used ≤ buffer_size
    → (frames_wanted used stride * stride ≤ 8192)
      × (used + frames_wanted used stride * stride ≤ buffer_size)
frames_wanted-fit used stride positive le = (grind arith, grind arith)

pub append-nil_parts : (xs ys : List ℕ) → xs ++ ys ≡ [] → (xs ≡ []) × (ys ≡ [])
append-nil_parts [] ys e = (refl, e)
append-nil_parts (x ∷ xs) ys e = ground arith

module _ {S : SpaRingbuffer} {F : SndFile} where
  -- the frames that `fill` asks for, and what it gets
  abbrev pub asked : Source S F → ℕ
  asked s = frames_wanted (S.filled s.ring) (2 * s.channels)

  abbrev pub got : Source S F → ℕ × List ℕ × F.File
  got s = F.readf s.file (asked s)

  fill-nothing : (s : Source S F) → ltb 0 (asked s) ≡ false → fill s ≡ s
  unfolding fill
  fill-nothing s e = rw e refl

  pub fill-end :
      (s : Source S F)
      → ltb 0 (asked s) ≡ true
      → ltb 0 (got s).0 ≡ false
      → fill s ≡ record s { file = (got s).2; file_eof = true }
  unfolding fill
  fill-end s e e' = rw (e, e') refl

  pub fill-piece :
      (s : Source S F)
      → ltb 0 (asked s) ≡ true
      → ltb 0 (got s).0 ≡ true
      → let size = to_uint ((got s).0 * (2 * s.channels)) in
        fill s ≡ record s {
          buffer =
              S.write_data s.buffer buffer_size
                (S.write_index s.ring % buffer_size)
                (take size (got s).1);
          ring = S.write_update s.ring (to_uint (S.write_index s.ring + size));
          file = (got s).2;
        }
  unfolding fill
  fill-piece s e e' = rw (e, e') refl

module _ (S : SpaRingbuffer) (F : SndFile) where
  -- A source that holds the bytes `q`. Once the end of the file is noted, nothing remains of it.
  pub record Playing (s : Source S F) (q : List ℕ) : Type 0 where
    pub held : Holds S s.ring s.buffer q
    pub channels : 0 < s.channels
    pub snd_file : IsSndFile F (2 * s.channels)
    pub ended : s.file_eof ≡ true → F.remaining s.file ≡ []

  -- The bytes `d` have moved from the file to the ring.
  pub record Moved (s : Source S F) (q : List ℕ) (s' : Source S F) (d : List ℕ) : Type 0 where
    pub playing : Playing s' (q ++ d)
    pub source : d ++ F.remaining s'.file ≡ F.remaining s.file
    pub same_start : S.read_index s'.ring ≡ S.read_index s.ring
    pub eof : s.file_eof ≡ true → s'.file_eof ≡ true
    pub callback : s'.on_finished ≡ s.on_finished
    pub same_channels : s'.channels ≡ s.channels

module _ {S : SpaRingbuffer} {F : SndFile} (law : IsRingbuffer S) where
  nothing-Moved : (s : Source S F) (q : List ℕ) → Playing S F s q → Moved S F s q s []
  nothing-Moved s q p = record {
    playing = subst (λ q. Playing S F s q) (sym (append-nil q)) p;
    source = refl;
    same_start = refl;
    eof = λ e. e;
    callback = refl;
    same_channels = refl;
  }

  end-Moved :
      (s : Source S F) (q : List ℕ)
      → Playing S F s q
      → ltb 0 (asked s) ≡ true
      → ltb 0 (got s).0 ≡ false
      → Moved S F s q (record s { file = (got s).2; file_eof = true }) []
  end-Moved s q p e e' =
      let over = p.snd_file.at_end s.file (asked s) (ground arith) (ground arith) in
      let order = p.snd_file.in_order s.file (asked s) in
      let (none_read, none_left) = append-nil_parts _ _ (order ∙ over) in
      record {
        playing = record {
          held = subst (λ q. Holds S s.ring s.buffer q) (sym (append-nil q)) p.held;
          channels = p.channels;
          snd_file = p.snd_file;
          ended = λ eof. none_left;
        };
        source = none_left ∙ sym over;
        same_start = refl;
        eof = λ e. refl;
        callback = refl;
        same_channels = refl;
      }

  piece-Moved :
      (s : Source S F) (q : List ℕ)
      → Playing S F s q
      → let size = (got s).0 * (2 * s.channels) in
        let d = take size (got s).1 in
        Moved S F s q
          (record s {
            buffer =
                S.write_data s.buffer buffer_size
                  (S.write_index s.ring % buffer_size)
                  (take (to_uint size) (got s).1);
            ring = S.write_update s.ring (to_uint (S.write_index s.ring + to_uint size));
            file = (got s).2;
          })
          d
  piece-Moved s q p =
      let stride = 2 * s.channels in
      let size = (got s).0 * stride in
      let d = take size (got s).1 in
      let used = filled-Holds law p.held in
      let (small, fits) =
        frames_wanted-fit (S.filled s.ring) stride (omega (arith, p.channels))
          (rw used p.held.bounded) in
      let most = p.snd_file.at_most s.file (asked s) in
      let less : size ≤ asked s * stride = grind arith in
      let room : length d ≡ size =
        omega (arith, length-take size (got s).1, p.snd_file.room s.file (asked s)) in
      let word : to_uint size ≡ size = omega arith in
      let order = p.snd_file.in_order s.file (asked s) in
      record {
        playing = record {
          held = rw word (
              subst
                (λ n.
                  Holds S (S.write_update s.ring (to_uint (S.write_index s.ring + n)))
                    (S.write_data s.buffer buffer_size (S.write_index s.ring % buffer_size) d)
                    (q ++ d))
                room (write-Holds law p.held d (omega (arith, used))));
          channels = p.channels;
          snd_file = p.snd_file;
          ended = λ eof. (append-nil_parts d _ (order ∙ p.ended eof)).1;
        };
        source = order;
        same_start = law.read-write s.ring _;
        eof = λ e. e;
        callback = refl;
        same_channels = refl;
      }

  pub fill-Moved :
      (s : Source S F) (q : List ℕ) → Playing S F s q → (d : List ℕ) × Moved S F s q (fill s) d
  fill-Moved s q p = elim (Bool-cases (ltb 0 (asked s))) [
    | inr no_room ↦
        ([], subst (λ s'. Moved S F s q s' []) (sym (fill-nothing s no_room)) (nothing-Moved s q p))
    | inl some_room ↦ elim (Bool-cases (ltb 0 (got s).0)) [
      | inr at_end ↦ (
        [],
        subst (λ s'. Moved S F s q s' []) (sym (fill-end s some_room at_end))
            (end-Moved s q p some_room at_end),
      )
      | inl more ↦
          let d = take ((got s).0 * (2 * s.channels)) (got s).1 in
          (
            d,
            subst (λ s'. Moved S F s q s' d) (sym (fill-piece s some_room more))
                (piece-Moved s q p),
          )
    ]
  ]
