-- ===== src/Sound/Queue.antt =====
-- The ring of src/sound.c as a queue of bytes: what is held, and what the two copies do to it.
use clueless_task_manager.Base.{
  ℕ, zero, suc, ◌+◌, ◌-◌, ◌%◌, ◌^◌, ◌<◌, ◌≤◌, ◌≡◌, refl, sym, ◌∙◌, ap, false, List, [], ◌∷◌, ◌++◌,
  ltb, if◌then◌else◌, take, drop, length, length-append, length-take, length-drop, get_or, arith,
  dec_lt,
}
use clueless_task_manager.Sound.{SpaRingbuffer, IsRingbuffer, buffer_size}

pub get_or-append :
    (xs ys : List ℕ) (i : ℕ)
    → get_or (xs ++ ys) i 0
      ≡ (if ltb i (length xs) then get_or xs i 0 else get_or ys (i - length xs) 0)
get_or-append [] ys i = ground arith
get_or-append (x ∷ xs) ys zero = ground arith
get_or-append (x ∷ xs) ys (suc i) = ground (arith, get_or-append xs ys i)

pub get_or-drop : (n : ℕ) (xs : List ℕ) (i : ℕ) → get_or (drop n xs) i 0 ≡ get_or xs (n + i) 0
get_or-drop zero xs i = ground arith
get_or-drop (suc n) [] i = refl
get_or-drop (suc n) (x ∷ xs) i = ground (arith, get_or-drop n xs i)

pub get_or-take : (n : ℕ) (xs : List ℕ) (i : ℕ) → i < n → get_or (take n xs) i 0 ≡ get_or xs i 0
get_or-take zero xs i h = absurd (omega arith)
get_or-take (suc n) [] i h = refl
get_or-take (suc n) (x ∷ xs) zero h = refl
get_or-take (suc n) (x ∷ xs) (suc i) h = get_or-take n xs i (omega arith)

-- Lists of one length that agree at every place are equal.
pub get_or_ext :
    (xs ys : List ℕ)
    → length xs ≡ length ys
    → ((i : ℕ) → i < length xs → get_or xs i 0 ≡ get_or ys i 0)
    → xs ≡ ys
get_or_ext [] [] e same = refl
get_or_ext [] (y ∷ ys) e same = absurd (omega arith)
get_or_ext (x ∷ xs) [] e same = absurd (omega arith)
get_or_ext (x ∷ xs) (y ∷ ys) e same =
    let head : x ≡ y = same 0 (omega arith) in
    let rest = get_or_ext xs ys (omega arith) (λ i h. same (suc i) (omega arith)) in cc

-- where a byte of the queue lies, as seen from the write index
old_slot :
    (r w j l p : ℕ)
    → w ≡ (r + l) % 2 ^ 32
    → r < 2 ^ 32
    → j < l
    → l + p ≤ 131072
    → ltb (((r + j) % 131072 + 131072 - w % 131072) % 131072) p ≡ false
old_slot r w j l p e small lt fits =
    let far : p ≤ ((r + j) % 131072 + 131072 - w % 131072) % 131072 = omega (arith, e) in
    ground arith

new_slot :
    (r w j l p : ℕ)
    → w ≡ (r + l) % 2 ^ 32
    → r < 2 ^ 32
    → l ≤ j
    → j < l + p
    → l + p ≤ 131072
    → ((r + j) % 131072 + 131072 - w % 131072) % 131072 ≡ j - l
new_slot r w j l p e small le lt fits = omega (arith, e)

shifted_slot : (r n j : ℕ) → ((r + n) % 2 ^ 32 + j) % 131072 ≡ (r + (n + j)) % 131072
shifted_slot r n j = omega arith

module _ (S : SpaRingbuffer) where
  -- the ring and its buffer hold the bytes `q`, oldest first
  pub record Holds (ring : S.Ring) (buffer q : List ℕ) : Type 0 where
    pub start : S.read_index ring < 2 ^ 32
    pub end : S.write_index ring ≡ (S.read_index ring + length q) % 2 ^ 32
    pub bounded : length q ≤ buffer_size
    pub storage : length buffer ≡ buffer_size
    pub bytes :
        (j : ℕ)
        → j < length q
        → get_or buffer ((S.read_index ring + j) % buffer_size) 0 ≡ get_or q j 0

module _ {S : SpaRingbuffer} where
  module _ (law : IsRingbuffer S) {ring : S.Ring} {buffer q : List ℕ}
      (held : Holds S ring buffer q) where
    pub filled-Holds : S.filled ring ≡ length q
    filled-Holds =
        let r = S.read_index ring in
        law.distance ring ∙ omega (arith, held.start, held.end, held.bounded)

    -- a copy into the free part, with the update of the write index
    pub write-Holds :
        (piece : List ℕ)
        → length q + length piece ≤ buffer_size
        → Holds S
            (S.write_update ring ((S.write_index ring + length piece) % 2 ^ 32))
            (S.write_data buffer buffer_size (S.write_index ring % buffer_size) piece)
            (q ++ piece)
    write-Holds piece fits = record {
      start = rw (law.read-write ring _) held.start;
      end =
          rw (law.write-write ring _, law.read-write ring _)
            (omega (arith, held.end, length-append q piece));
      bounded = omega (arith, length-append q piece);
      storage = law.length-write_data buffer buffer_size _ piece held.storage;
      bytes = λ j h. rw (law.read-write ring _) (byte j (omega (arith, length-append q piece)));
    }
      where
        byte :
            (j : ℕ)
            → j < length q + length piece
            → get_or
                (S.write_data buffer buffer_size (S.write_index ring % buffer_size) piece)
                ((S.read_index ring + j) % buffer_size)
                0
              ≡ get_or (q ++ piece) j 0
        byte j h =
            let r = S.read_index ring in
            let w = S.write_index ring in
            let written =
              law.get-write_data buffer buffer_size (w % buffer_size) piece ((r + j) % buffer_size)
                (omega arith) (omega arith) (omega arith) held.storage in
            elim (dec_lt j (length q)) [
              | yes old ↦
                  let out = old_slot r w j (length q) (length piece) held.end held.start old fits in
                  let kept = held.bytes j old in
                  ground (arith, written, out, kept, get_or-append q piece j)
              | no new ↦
                  let at =
                    new_slot r w j (length q) (length piece) held.end held.start (omega arith) h
                      fits in
                  written ∙ rw at (ground (arith, get_or-append q piece j))
            ]

    -- a copy of the oldest bytes
    pub read_data-take :
        (n : ℕ)
        → n ≤ length q
        → S.read_data buffer buffer_size (S.read_index ring % buffer_size) n ≡ take n q
    read_data-take n le =
        let read = S.read_data buffer buffer_size (S.read_index ring % buffer_size) n in
        let size = law.length-read_data buffer buffer_size (S.read_index ring % buffer_size) n in
        get_or_ext read (take n q) (omega (arith, size, length-take n q)) (λ i h.
          let r = S.read_index ring in
          let at : (r % buffer_size + i) % buffer_size ≡ (r + i) % buffer_size = omega arith in
          let lt : i < n = omega (arith, size) in
          law.get-read_data buffer buffer_size (r % buffer_size) n i lt
          ∙ ap (λ k. get_or buffer k 0) at
          ∙ held.bytes i (omega arith)
          ∙ sym (get_or-take n q i lt))

    pub read-Holds :
        (n : ℕ)
        → n ≤ length q
        → Holds S (S.read_update ring ((S.read_index ring + n) % 2 ^ 32)) buffer (drop n q)
    read-Holds n le = record {
      start = rw (law.read-read ring _) (omega arith);
      end =
          rw (law.write-read ring _, law.read-read ring _)
            (omega (arith, held.end, length-drop n q));
      bounded = omega (arith, length-drop n q, held.bounded);
      storage = held.storage;
      bytes = λ j h. rw (law.read-read ring _) (
          ap (λ k. get_or buffer k 0) (shifted_slot (S.read_index ring) n j)
          ∙ held.bytes (n + j) (omega (arith, length-drop n q))
          ∙ sym (get_or-drop n q j));
    }
