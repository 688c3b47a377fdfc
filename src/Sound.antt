-- ===== src/Sound.antt =====
-- src/sound.c: a sound file is read in pieces into a ring of bytes, from which PipeWire takes what it
-- plays. The ring's bookkeeping (spa) and the file (libsndfile) are parameters.
pub mod Queue
pub mod Refill
pub mod Playback
pub mod Whole
pub mod Finish
pub mod Session
pub mod Acts
pub mod Resources
mod Tests
use clueless_task_manager.Base.{
  ℕ, ◌+◌, ◌-◌, ◌*◌, ◌/◌, ◌%◌, ◌^◌, ◌<◌, ◌≤◌, ◌≡◌, Bool, true, false, ◌&&◌, Option, none, some, List,
  [], ◌∷◌, ◌++◌, ltb, leb, ◌==◌, if◌then◌else◌, take, length, get_or, replicate, to_uint, Outcome,
  done, fault,
}

abbrev pub buffer_size : ℕ
buffer_size = 128 * 1024

-- `sizeof(local_buffer)`
abbrev pub local_bytes : ℕ
local_bytes = 8192

-- `spa_ringbuffer`: the two functions that give an index give `filled` as well. The data functions copy
-- between a linear piece and the circular buffer of a size, from an offset on.
pub record SpaRingbuffer : Type 1 where
  pub Ring : Type 0
  pub init : Ring
  pub read_index : Ring → ℕ
  pub write_index : Ring → ℕ
  pub filled : Ring → ℕ
  pub read_update : Ring → ℕ → Ring
  pub write_update : Ring → ℕ → Ring
  pub read_data : (buffer : List ℕ) (size offset len : ℕ) → List ℕ
  pub write_data : (buffer : List ℕ) (size offset : ℕ) (piece : List ℕ) → List ℕ

-- Its documentation: the indices are 32-bit numbers that only the updates set, their distance is what is
-- filled, and the copies wrap around at the end of the buffer.
pub record IsRingbuffer (S : SpaRingbuffer) : Type 0 where
  pub init_read : S.read_index S.init ≡ 0
  pub init_write : S.write_index S.init ≡ 0
  pub distance : (r : S.Ring) → S.filled r ≡ (S.write_index r + 2 ^ 32 - S.read_index r) % 2 ^ 32
  pub read-read : (r : S.Ring) (i : ℕ) → S.read_index (S.read_update r i) ≡ i
  pub write-read : (r : S.Ring) (i : ℕ) → S.write_index (S.read_update r i) ≡ S.write_index r
  pub read-write : (r : S.Ring) (i : ℕ) → S.read_index (S.write_update r i) ≡ S.read_index r
  pub write-write : (r : S.Ring) (i : ℕ) → S.write_index (S.write_update r i) ≡ i
  pub length-read_data : (b : List ℕ) (n o len : ℕ) → length (S.read_data b n o len) ≡ len
  pub get-read_data :
      (b : List ℕ) (n o len i : ℕ)
      → i < len
      → get_or (S.read_data b n o len) i 0 ≡ get_or b ((o + i) % n) 0
  pub get-write_data :
      (b : List ℕ) (n o : ℕ) (piece : List ℕ) (i : ℕ)
      → o < n
      → i < n
      → length piece ≤ n
      → length b ≡ n
      → get_or (S.write_data b n o piece) i 0 ≡ (
          if ltb ((i + n - o) % n) (length piece)
          then get_or piece ((i + n - o) % n) 0
          else get_or b i 0)
  pub length-write_data :
      (b : List ℕ) (n o : ℕ) (piece : List ℕ) → length b ≡ n → length (S.write_data b n o piece) ≡ n

-- `sf_readf_short`: how many frames it has read, what the given array holds, and the file behind it.
pub record SndFile : Type 1 where
  pub File : Type 0
  pub readf : File → ℕ → ℕ × List ℕ × File
  pub remaining : File → List ℕ

-- Its documentation, for frames of `stride` bytes: it reads at most what is asked for, in order, and
-- nothing only at the end.
pub record IsSndFile (F : SndFile) (stride : ℕ) : Type 0 where
  pub at_most : (f : F.File) (n : ℕ) → (F.readf f n).0 ≤ n
  pub room : (f : F.File) (n : ℕ) → (F.readf f n).0 * stride ≤ length (F.readf f n).1
  pub in_order :
      (f : F.File) (n : ℕ)
      → take ((F.readf f n).0 * stride) (F.readf f n).1 ++ F.remaining (F.readf f n).2
        ≡ F.remaining f
  pub at_end : (f : F.File) (n : ℕ) → 0 < n → (F.readf f n).0 ≡ 0 → F.remaining f ≡ []

module _ (S : SpaRingbuffer) (F : SndFile) where
  -- `struct CtmAudioStreamSource`, less the handles of PipeWire
  pub record Source : Type 0 where
    pub ring : S.Ring
    pub buffer : List ℕ
    pub file : F.File
    pub channels : ℕ
    pub running : Bool
    pub file_eof : Bool
    pub on_finished : Bool

-- What is queued back to the stream: the bytes, and the chunk's stride.
pub record Chunk : Type 0 where
  pub bytes : List ℕ
  pub stride : ℕ

module _ {S : SpaRingbuffer} {F : SndFile} where
  -- the piece that `refill_ringbuffer` reads and writes
  unfoldable pub fill : Source S F → Source S F
  fill s =
      let stride = 2 * s.channels in
      let write_index = S.write_index s.ring in
      let available_space = to_uint (buffer_size + 2 ^ 32 - S.filled s.ring) in
      let frames_to_read =
        if ltb (available_space / stride) (local_bytes / stride)
        then available_space / stride
        else local_bytes / stride in
      let (frames_read, local_buffer, file) = F.readf s.file frames_to_read in
      let bytes_to_write = to_uint (frames_read * stride) in
      let piece = take bytes_to_write local_buffer in
      if ltb 0 frames_to_read
      then (if ltb 0 frames_read
          then record s {
            buffer = S.write_data s.buffer buffer_size (write_index % buffer_size) piece;
            ring = S.write_update s.ring (to_uint (write_index + bytes_to_write));
            file = file;
          }
          else record s { file = file; file_eof = true })
      else s

  -- `refill_ringbuffer`: the new state, and whether `on_finished` is called. A file with no channels makes
  -- it divide by 0.
  unfoldable pub refill_ringbuffer : Source S F → Outcome (Source S F × Bool)
  unfolding fill
  refill_ringbuffer s =
      let s' = fill s in
      let over = s'.file_eof && leb (S.write_index s'.ring) (S.read_index s'.ring) in
      if s.channels == 0
      then fault
      else (if over then done (record s' { running = false }, s'.on_finished) else done (s', false))

  -- `on_playback_process`: `none` where no stream buffer can be dequeued, `some none` where it has no data,
  -- else its `maxsize`. The result is the new state, the chunk that is queued, and whether the event
  -- descriptor is written, which asks for a refill.
  unfoldable pub on_playback_process :
      Option (Option ℕ) → Source S F → Source S F × Option Chunk × Bool
  on_playback_process none s = (s, none, false)
  on_playback_process (some none) s = (s, none, false)
  on_playback_process (some (some required_bytes)) s =
      let index = S.read_index s.ring in
      let readable_bytes = S.filled s.ring in
      let bytes_to_copy =
        if ltb readable_bytes required_bytes then readable_bytes else required_bytes in
      let stride = 2 * s.channels in
      if ltb 0 bytes_to_copy
      then (
        record s { ring = S.read_update s.ring (to_uint (index + bytes_to_copy)) },
        some (record {
          bytes = S.read_data s.buffer buffer_size (index % buffer_size) bytes_to_copy;
          stride = stride;
        }),
        true,
      )
      else (s, some (record { bytes = []; stride = stride }), false)

  -- What `ctm_sound_play_async` sets up behind a successful `sf_open`, before the first refill.
  pub opened : F.File → ℕ → Bool → Source S F
  opened file channels on_finished = record {
    ring = S.init;
    buffer = replicate buffer_size 0;
    file = file;
    channels = channels;
    running = true;
    file_eof = false;
    on_finished = on_finished;
  }

-- `ctm_sound_init` and `ctm_sound_deinit`: the flag `is_initialized`, and whether `pw_init`, or `pw_deinit`,
-- is called.
pub ctm_sound_init : Bool → Bool × Bool
ctm_sound_init true = (true, false)
ctm_sound_init false = (true, true)

pub ctm_sound_deinit : Bool → Bool × Bool
ctm_sound_deinit true = (false, true)
ctm_sound_deinit false = (false, false)
