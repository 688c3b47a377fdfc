-- ===== src/Process/RoundTrip.antt =====
-- `process_read` of src/metrics/process.c on a stat file as the kernel prints it.
use clueless_task_manager.Base.{
  ℕ, suc, ◌-◌, ◌<◌, ◌^◌, ◌≡◌, ◌≢◌, refl, ◌∙◌, ap, subst, false, true, ltb, if◌then◌else◌, done,
  fault, Option, some, List, [], ◌∷◌, ◌++◌, arith, length, take, ℤ, pos, negsuc, length-append,
  take_whole,
}
use clueless_task_manager.Clib.{
  starts_digit, is_digit, is_space, skip_space, read_number, read_sign, sscanf, until_nul,
  Conversion, char_field, skipped_int, ulong_field,
}
use clueless_task_manager.Clib.Decimal.{
  digits, all_digits, digits-all_digits, read_number-digits, read_number-blank, read_digits-digits,
  digits-starts,
}
use clueless_task_manager.Process.{
  Process, ProcessResult, name_size, process_read, stat_format, success_read, get_process_name,
  io_buffer_size, username_max, print_string, username_or_null, assign_fields,
}
use clueless_task_manager.Process.Name.{Without, get_process_name-extracts}

-- One figure of the line, as the format reads it: passed over, with its sign, or an `unsigned long`.
pub data Figure : Type 0 where
  other : ℤ → Figure
  wanted : ℕ → Figure

unfoldable pub print_figure : Figure → List ℕ
print_figure (other (pos n)) = digits n
print_figure (other (negsuc n)) = b'-' ∷ digits (suc n)
print_figure (wanted n) = digits n

-- a blank before each figure, and what follows them
unfoldable pub print_figures : List Figure → List ℕ → List ℕ
unfolding print_figure
print_figures [] rest = rest
print_figures (f ∷ fs) rest = b' ' ∷ (print_figure f ++ print_figures fs rest)

abbrev pub conversion : Figure → Conversion
conversion (other z) = skipped_int
conversion (wanted n) = ulong_field

abbrev pub conversions : List Figure → List Conversion
conversions [] = []
conversions (f ∷ fs) = conversion f ∷ conversions fs

abbrev pub wanted_values : List Figure → List ℕ
wanted_values [] = []
wanted_values (other z ∷ fs) = wanted_values fs
wanted_values (wanted n ∷ fs) = n ∷ wanted_values fs

abbrev pub Words : List ℕ → Type 0
Words [] = Unit {0}
Words (n ∷ ns) = (n < 2 ^ 64) × Words ns

read_number-minus :
    (n : ℕ) (rest : List ℕ)
    → starts_digit rest ≡ false
    → read_number (b'-' ∷ (digits n ++ rest)) ≡ some (true, n, rest)
unfolding read_number skip_space is_space read_sign
read_number-minus n rest e = rw (digits-starts n rest, read_digits-digits n rest e) refl

starts_digit-figures :
    (fs : List Figure) (rest : List ℕ)
    → starts_digit rest ≡ false
    → starts_digit (print_figures fs rest) ≡ false
unfolding print_figures starts_digit is_digit
starts_digit-figures [] rest e = e
starts_digit-figures (f ∷ fs) rest e = refl

sscanf-figures :
    (fs : List Figure) (rest : List ℕ)
    → starts_digit rest ≡ false
    → Words (wanted_values fs)
    → sscanf (print_figures fs rest) (conversions fs) ≡ wanted_values fs
unfolding print_figures sscanf print_figure
sscanf-figures [] rest e w = refl
sscanf-figures (other (pos n) ∷ fs) rest e w =
    let more = print_figures fs rest in
    let read =
      read_number-blank (digits n ++ more)
      ∙ read_number-digits n more (starts_digit-figures fs rest e) in
    ground (arith, read, sscanf-figures fs rest e w)
sscanf-figures (other (negsuc n) ∷ fs) rest e w =
    let more = print_figures fs rest in
    let read =
      read_number-blank (b'-' ∷ (digits (suc n) ++ more))
      ∙ read_number-minus (suc n) more (starts_digit-figures fs rest e) in
    ground (arith, read, sscanf-figures fs rest e w)
sscanf-figures (wanted n ∷ fs) rest e w =
    let more = print_figures fs rest in
    let read =
      read_number-blank (digits n ++ more)
      ∙ read_number-digits n more (starts_digit-figures fs rest e) in
    ground (arith, read, sscanf-figures fs rest e w.1)

-- bytes that a line does not hold
Without-append : (c : ℕ) (s t : List ℕ) → Without c s → Without c t → Without c (s ++ t)
Without-append c [] t ws wt = wt
Without-append c (x ∷ s) t ws wt = (ws.0, Without-append c s t ws.1 wt)

Without-all_digits : (c : ℕ) (s : List ℕ) → is_digit c ≡ false → all_digits s ≡ true → Without c s
unfolding all_digits is_digit
Without-all_digits c [] e h = tt
Without-all_digits c (x ∷ s) e h = (ground arith, Without-all_digits c s e (ground arith))

Without-digits : (c n : ℕ) → is_digit c ≡ false → Without c (digits n)
Without-digits c n e = Without-all_digits c (digits n) e (digits-all_digits n)

Without-figures :
    (c : ℕ) (fs : List Figure) (rest : List ℕ)
    → is_digit c ≡ false
    → c ≢ b' '
    → c ≢ b'-'
    → Without c rest
    → Without c (print_figures fs rest)
unfolding print_figures print_figure
Without-figures c [] rest e blank minus w = w
Without-figures c (other (pos n) ∷ fs) rest e blank minus w = (
  ground arith,
  Without-append c (digits n) (print_figures fs rest) (Without-digits c n e)
      (Without-figures c fs rest e blank minus w),
)
Without-figures c (other (negsuc n) ∷ fs) rest e blank minus w = (
  ground arith,
  (
    ground arith,
    Without-append c (digits (suc n)) (print_figures fs rest) (Without-digits c (suc n) e)
        (Without-figures c fs rest e blank minus w),
  ),
)
Without-figures c (wanted n ∷ fs) rest e blank minus w = (
  ground arith,
  Without-append c (digits n) (print_figures fs rest) (Without-digits c n e)
      (Without-figures c fs rest e blank minus w),
)

until_nul-Without : (s : List ℕ) → Without 0 s → until_nul s ≡ s
unfolding until_nul
until_nul-Without [] w = refl
until_nul-Without (x ∷ s) w = rw (w.0, until_nul-Without s w.1)

-- What one stat file says; `figures` are those behind the state up to the last one that is read, and
-- `more` is what follows them.
pub record StatFile : Type 0 where
  pub pid : ℕ
  pub name : List ℕ
  pub state : ℕ
  pub figures : List Figure
  pub more : List ℕ

-- "pid (name) state", and the figures
unfoldable pub stat_file : StatFile → List ℕ
stat_file s =
    (digits s.pid ++ b' ' ∷ [])
    ++ b'(' ∷ (s.name ++ b')' ∷ b' ' ∷ (s.state ∷ print_figures s.figures s.more))

-- The documented shape of the line: the figures come as the format expects them, and the four that are
-- wanted are machine words; it holds no NUL, and no parenthesis behind the name; it fits the buffer, and the name fits
-- `name`.
pub record IsPrintable (s : StatFile) (utime stime start_time rss : ℕ) : Type 0 where
  pub shape : char_field ∷ conversions s.figures ≡ stat_format
  pub values : wanted_values s.figures ≡ utime ∷ stime ∷ start_time ∷ rss ∷ []
  pub words : Words (wanted_values s.figures)
  pub name_bytes : Without 0 s.name
  pub state_space : is_space s.state ≡ false
  pub state_nul : s.state ≢ 0
  pub state_closing : s.state ≢ b')'
  pub more_nul : Without 0 s.more
  pub more_closing : Without b')' s.more
  pub more_digit : starts_digit s.more ≡ false
  pub short : length (stat_file s) < io_buffer_size
  pub name_fits : length s.name < name_size

process_read-steps :
    (out : Process) (uid : ℕ) (username : Option (List ℕ)) (overflow : ProcessResult × Process)
    (bytes name rest : List ℕ) (state a b c d : ℕ)
    → get_process_name name_size (until_nul (take (io_buffer_size - 1) bytes))
      ≡ done (some (name, rest))
    → sscanf rest stat_format ≡ state ∷ a ∷ b ∷ c ∷ d ∷ []
    → process_read
        (record {
          stat_uid = some uid;
          file = some bytes;
          username = username;
          overflow = overflow;
        })
        out
      ≡ (
        success_read,
        record out {
          name = name;
          uid = uid;
          user = print_string username_max (username_or_null username);
          state = state;
          utime = a;
          stime = b;
          start_time = c;
          rss = d;
        },
      )
unfolding process_read assign_fields
process_read-steps out uid username overflow bytes name rest state a b c d found scanned =
    ground arith

sscanf-state :
    (state : ℕ) (fs : List Figure) (rest : List ℕ)
    → is_space state ≡ false
    → starts_digit rest ≡ false
    → Words (wanted_values fs)
    → sscanf (state ∷ print_figures fs rest) (char_field ∷ conversions fs)
      ≡ state ∷ wanted_values fs
unfolding sscanf skip_space
sscanf-state state fs rest plain e w =
    let here : skip_space (state ∷ print_figures fs rest) ≡ state ∷ print_figures fs rest =
      rw plain refl in
    ground (arith, here, sscanf-figures fs rest e w)

stat_file-nul : {s : StatFile} {a b c d : ℕ} → IsPrintable s a b c d → Without 0 (stat_file s)
unfolding stat_file is_digit
stat_file-nul {s} p =
    Without-append 0 (digits s.pid ++ b' ' ∷ []) _
      (Without-append 0 (digits s.pid) (b' ' ∷ []) (Without-digits 0 s.pid refl) (refl, tt))
      (
        refl,
        Without-append 0 s.name _ p.name_bytes (
          refl,
          (
            refl,
            (
              ground (arith, p.state_nul),
              Without-figures 0 s.figures s.more refl (ground arith) (ground arith) p.more_nul,
            ),
          ),
        ),
      )

-- Reading back what the kernel printed: for every process whose line has the documented shape and
-- fits the buffer, `process_read` succeeds with exactly the name, the state and the four figures
-- that were printed, whatever the name of less than 256 bytes holds, parentheses and blanks too.
pub process_read-stat_file :
    (s : StatFile) {utime stime start_time rss : ℕ} (out : Process) (uid : ℕ)
    (username : Option (List ℕ)) (overflow : ProcessResult × Process)
    → IsPrintable s utime stime start_time rss
    → process_read
        (record {
          stat_uid = some uid;
          file = some (stat_file s);
          username = username;
          overflow = overflow;
        })
        out
      ≡ (
        success_read,
        record out {
          name = s.name;
          uid = uid;
          user = print_string username_max (username_or_null username);
          state = s.state;
          utime = utime;
          stime = stime;
          start_time = start_time;
          rss = rss;
        },
      )
unfolding stat_file is_digit
process_read-stat_file s {utime} {stime} {start_time} {rss} out uid username overflow p =
    let rest = s.state ∷ print_figures s.figures s.more in
    let before = digits s.pid ++ b' ' ∷ [] in
    let size = length-append before (b'(' ∷ (s.name ++ b')' ∷ b' ' ∷ rest)) in
    let size' = length-append s.name (b')' ∷ b' ' ∷ rest) in
    let whole =
      ap until_nul (take_whole (io_buffer_size - 1) (stat_file s) (omega (arith, p.short)))
      ∙ until_nul-Without (stat_file s) (stat_file-nul p) in
    let name =
      get_process_name-extracts name_size before s.name rest
        (Without-append b'(' (digits s.pid) (b' ' ∷ []) (Without-digits b'(' s.pid refl) (refl, tt))
        (
          ground (arith, p.state_closing),
          Without-figures b')' s.figures s.more refl (ground arith) (ground arith) p.more_closing,
        )
        (omega (arith, p.short, size, size')) in
    let test : ltb (length s.name) name_size ≡ true = ground (arith, p.name_fits) in
    let room : (if ltb (length s.name) name_size then done (some (s.name, rest)) else fault)
        ≡ done (some (s.name, rest)) =
      rw test refl in
    let scanned =
      subst (λ f. sscanf rest f ≡ s.state ∷ wanted_values s.figures) p.shape
        (sscanf-state s.state s.figures s.more p.state_space p.more_digit p.words) in
    process_read-steps out uid username overflow (stat_file s) s.name rest s.state utime stime
      start_time rss (ap (get_process_name name_size) whole ∙ name ∙ room)
      (scanned ∙ ap (λ v. s.state ∷ v) p.values)
