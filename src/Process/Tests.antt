-- ===== src/Process/Tests.antt =====
-- src/metrics/process.c on one line of a stat file.
use clueless_task_manager.Base.{
  ℕ, List, true, done, ◌≡◌, refl, some, [], ◌∷◌, ◌++◌, pos, negsuc, arith,
}
use clueless_task_manager.Clib.{codes, is_space, starts_digit, is_digit}
use clueless_task_manager.Clib.Decimal.{digits, digits_from}
use clueless_task_manager.Process.Path.{process_read_at}
use clueless_task_manager.Process.Whole.{process_read_at-stat_file}
use clueless_task_manager.Process.RoundTrip.{
  other, wanted, print_figure, print_figures, StatFile, stat_file, IsPrintable,
}
use clueless_task_manager.Process.{
  blank, get_process_name, Snapshot, success_read, print_string, username_max,
}
use clueless_task_manager.Process.Name.{get_process_name-extracts}

get_process_name-extracts_example :
    get_process_name 256 (codes "7 " ++ b'(' ∷ (codes "a) (b" ++ b')' ∷ b' ' ∷ codes "S 1"))
    ≡ done (some (codes "a) (b", codes "S 1"))
get_process_name-extracts_example =
    get_process_name-extracts 256 (codes "7 ") (codes "a) (b") (codes "S 1") (refl, (refl, tt))
      (refl, (refl, (refl, tt))) (omega arith)

-- "7 (a) b) S", the ten figures to skip, the two times, and so on, with a negative one among them
abbrev printed : StatFile
printed = record {
  pid = 7;
  name = codes "a) b";
  state = b'S';
  figures =
      other (pos 1)
      ∷ other (negsuc 0)
      ∷ other (pos 3)
      ∷ other (pos 4)
      ∷ other (pos 5)
      ∷ other (pos 6)
      ∷ other (pos 7)
      ∷ other (pos 8)
      ∷ other (pos 9)
      ∷ other (pos 10)
      ∷ wanted 11
      ∷ wanted 12
      ∷ other (pos 13)
      ∷ other (pos 14)
      ∷ other (pos 15)
      ∷ other (pos 16)
      ∷ other (pos 17)
      ∷ other (pos 18)
      ∷ wanted 19
      ∷ other (pos 20)
      ∷ wanted 21
      ∷ [];
  more = codes " 22";
}

printed-IsPrintable : IsPrintable printed 11 12 19 21
unfolding stat_file print_figures print_figure digits digits_from is_space starts_digit is_digit
printed-IsPrintable = record {
  shape = refl;
  values = refl;
  words = (omega arith, (omega arith, (omega arith, (omega arith, tt))));
  name_bytes = (refl, (refl, (refl, (refl, tt))));
  state_space = refl;
  state_nul = λ e. omega (arith, e);
  state_closing = λ e. omega (arith, e);
  more_nul = (refl, (refl, (refl, tt)));
  more_closing = (refl, (refl, (refl, tt)));
  more_digit = refl;
  short = omega arith;
  name_fits = omega arith;
}

abbrev proc_files : List ℕ → Snapshot
proc_files path = record {
  stat_uid = some 0;
  file = some (stat_file printed);
  username = some (codes "root");
  overflow = (success_read, blank);
}

process_read_at-stat_file_example : process_read_at true proc_files 7 (some blank) ≡ (
  success_read,
  some (record blank {
    name = codes "a) b";
    uid = 0;
    user = print_string username_max (codes "root");
    state = b'S';
    utime = 11;
    stime = 12;
    start_time = 19;
    rss = 21;
  }),
)
process_read_at-stat_file_example =
    process_read_at-stat_file proc_files printed blank 0 (some (codes "root")) (success_read, blank)
      (omega arith) refl printed-IsPrintable
