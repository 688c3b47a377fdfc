-- ===== src/Sound/Tests.antt =====
-- src/sound.c with a ring of two numbers and a file of mono frames.
use clueless_task_manager.Base.{
  ℕ, zero, suc, ◌+◌, ◌-◌, ◌*◌, ◌%◌, ◌^◌, ◌<◌, ◌≤◌, ◌≡◌, refl, ◌∙◌, ap, true, false, ltb, none, some,
  List, [], ◌∷◌, ◌++◌, if◌then◌else◌, take, length, get_or, arith, done, Returns,
}
use clueless_task_manager.Sound.{
  SpaRingbuffer, IsRingbuffer, SndFile, IsSndFile, Source, opened, fill, refill_ringbuffer,
}
use clueless_task_manager.Sound.Refill.{Playing, Moved, fill-Moved}
use clueless_task_manager.Sound.{buffer_size}
use clueless_task_manager.Sound.Session.{SetUp}
use clueless_task_manager.Sound.Acts.{
  playback as playback_at, signal, copied, nothing_to_copy, Moment, stop_acts, close_eventfd,
  thread_loop_unlock,
}
use clueless_task_manager.Sound.Resources.{
  nothing, perform_all, session_acts, session-releases, breaks, loop_gone, less_close,
}
use clueless_task_manager.Sound.Finish.{rounds, Finishes, rounds-finish}
use clueless_task_manager.Sound.Whole.{
  refill, playback, run_calls, Played, opened-Playing, run_calls-Played, refill_ringbuffer-finished,
}

tabulate : ℕ → (ℕ → ℕ) → List ℕ
tabulate zero f = []
tabulate (suc n) f = f 0 ∷ tabulate n (λ i. f (suc i))

length-tabulate : (n : ℕ) (f : ℕ → ℕ) → length (tabulate n f) ≡ n
unfolding tabulate
length-tabulate zero f = refl
length-tabulate (suc n) f = ap suc (length-tabulate n (λ i. f (suc i)))

get_or-tabulate : (n : ℕ) (f : ℕ → ℕ) (i : ℕ) → i < n → get_or (tabulate n f) i 0 ≡ f i
unfolding tabulate
get_or-tabulate zero f i h = absurd (omega arith)
get_or-tabulate (suc n) f zero h = refl
get_or-tabulate (suc n) f (suc i) h = get_or-tabulate n (λ i. f (suc i)) i (omega arith)

-- The read index and the write index.
abbrev indices : SpaRingbuffer
indices = record {
  Ring = ℕ × ℕ;
  init = (0, 0);
  read_index = λ r. r.0;
  write_index = λ r. r.1;
  filled = λ r. (r.1 + 2 ^ 32 - r.0) % 2 ^ 32;
  read_update = λ r i. (i, r.1);
  write_update = λ r i. (r.0, i);
  read_data = λ b n o len. tabulate len (λ i. get_or b ((o + i) % n) 0);
  write_data = λ b n o piece. tabulate n (λ i.
      if ltb ((i + n - o) % n) (length piece)
      then get_or piece ((i + n - o) % n) 0
      else get_or b i 0);
}

indices-IsRingbuffer : IsRingbuffer indices
indices-IsRingbuffer = record {
  init_read = refl;
  init_write = refl;
  distance = λ r. refl;
  read-read = λ r i. refl;
  write-read = λ r i. refl;
  read-write = λ r i. refl;
  write-write = λ r i. refl;
  length-read_data = λ b n o len. length-tabulate len _;
  get-read_data = λ b n o len i h. get_or-tabulate len _ i h;
  get-write_data = λ b n o piece i ho hi fits size. get_or-tabulate n _ i hi;
  length-write_data = λ b n o piece size. length-tabulate n _;
}

-- the two bytes of each frame
abbrev samples : List (ℕ × ℕ) → List ℕ
samples [] = []
samples ((a, b) ∷ fs) = a ∷ b ∷ samples fs

abbrev frames_of : ℕ → List (ℕ × ℕ) → ℕ × List ℕ × List (ℕ × ℕ)
frames_of zero fs = (0, [], fs)
frames_of (suc n) [] = (0, [], [])
frames_of (suc n) ((a, b) ∷ fs) =
    let (k, bytes, rest) = frames_of n fs in (suc k, a ∷ b ∷ bytes, rest)

abbrev mono : SndFile
mono = record { File = List (ℕ × ℕ); readf = λ f n. frames_of n f; remaining = samples }

frames_of_at_most : (n : ℕ) (f : List (ℕ × ℕ)) → (frames_of n f).0 ≤ n
frames_of_at_most zero f = omega arith
frames_of_at_most (suc n) [] = omega arith
frames_of_at_most (suc n) ((a, b) ∷ f) = omega (arith, frames_of_at_most n f)

frames_of_room : (n : ℕ) (f : List (ℕ × ℕ)) → length (frames_of n f).1 ≡ (frames_of n f).0 * 2
frames_of_room zero f = refl
frames_of_room (suc n) [] = refl
frames_of_room (suc n) ((a, b) ∷ f) = omega (arith, frames_of_room n f)

frames_of_in_order :
    (n : ℕ) (f : List (ℕ × ℕ))
    → take ((frames_of n f).0 * 2) (frames_of n f).1 ++ samples (frames_of n f).2 ≡ samples f
frames_of_in_order zero f = refl
frames_of_in_order (suc n) [] = refl
frames_of_in_order (suc n) ((a, b) ∷ f) =
    let (k, bytes, rest) = frames_of n f in
    let two_more : suc k * 2 ≡ suc (suc (k * 2)) = omega arith in
    ap (λ m. take m (a ∷ b ∷ bytes) ++ samples rest) two_more
    ∙ ap (λ l. a ∷ b ∷ l) (frames_of_in_order n f)

frames_of_at_end : (n : ℕ) (f : List (ℕ × ℕ)) → 0 < n → (frames_of n f).0 ≡ 0 → samples f ≡ []
frames_of_at_end zero f h e = absurd (omega arith)
frames_of_at_end (suc n) [] h e = refl
frames_of_at_end (suc n) ((a, b) ∷ f) h e = absurd (omega (arith, e))

mono-IsSndFile : IsSndFile mono 2
mono-IsSndFile = record {
  at_most = λ f n. frames_of_at_most n f;
  room = λ f n. omega (arith, frames_of_room n f);
  in_order = λ f n. frames_of_in_order n f;
  at_end = λ f n h e. frames_of_at_end n f h e;
}

-- three frames, and a file that has no more
abbrev song : List (ℕ × ℕ)
song = (1, 2) ∷ (3, 4) ∷ (5, 6) ∷ []

abbrev start : List (ℕ × ℕ) → Source indices mono
start file = opened file 1 true

abbrev ended : Source indices mono
ended = record (start []) { file_eof = true }

start-Playing : (file : List (ℕ × ℕ)) → Playing indices mono (start file) []
unfolding opened
start-Playing file = opened-Playing indices-IsRingbuffer file 1 true (omega arith) mono-IsSndFile

ended-Playing : Playing indices mono ended []
unfolding opened
ended-Playing =
    let p = start-Playing [] in
    record { held = p.held; channels = p.channels; snd_file = p.snd_file; ended = λ e. refl }

run_calls-Played_example :
    Returns
      (run_calls (refill ∷ playback (some (some 4)) ∷ playback none ∷ refill ∷ []) (start song))
      (Played indices-IsRingbuffer (start song) [])
run_calls-Played_example =
    run_calls-Played indices-IsRingbuffer
      (refill ∷ playback (some (some 4)) ∷ playback none ∷ refill ∷ []) (start song) []
      (start-Playing song)

-- what one refill moves into the ring
song-Moved : (d : List ℕ) × Moved indices mono (start song) [] (fill (start song)) d
song-Moved = fill-Moved indices-IsRingbuffer (start song) [] (start-Playing song)

start-finished :
    refill_ringbuffer (start [])
    ≡ done (record (start []) { running = false; file_eof = true }, true)
unfolding refill_ringbuffer fill opened
start-finished = refl

refill_ringbuffer-finished_example : let q : List ℕ = [] in (q ≡ []) × (samples [] ≡ [])
unfolding opened
refill_ringbuffer-finished_example =
    refill_ringbuffer-finished indices-IsRingbuffer (start [])
      (record (start []) { running = false; file_eof = true }) [] (start-Playing []) (omega arith)
      start-finished

rounds-finish_example :
    (k : ℕ) × (k ≤ 6 + 1) × Finishes indices-IsRingbuffer (rounds buffer_size k) (start song) []
unfolding opened
rounds-finish_example =
    rounds-finish indices-IsRingbuffer buffer_size 6 (start song) [] (start-Playing song)
      (omega arith) (omega arith) (omega arith)

-- everything is made but the event descriptor
abbrev deaf : SetUp
deaf = record {
  thread_loop_new = true;
  eventfd_create = false;
  add_io = false;
  stream_new = true;
  thread_loop_start = true;
  stream_connect = true;
}

abbrev moments : List Moment
moments = playback_at copied ∷ signal ∷ playback_at nothing_to_copy ∷ []

session-releases_example :
    (perform_all (session_acts false moments true (stop_acts copied)) nothing
      ≡ breaks close_eventfd (loop_gone 1))
    × (perform_all (session_acts false moments true (less_close (stop_acts copied))) nothing
        ≡ breaks thread_loop_unlock (record nothing { locks = 1 }))
session-releases_example = session-releases false moments true copied
