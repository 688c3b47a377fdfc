-- ===== src/Process/Whole.antt =====
-- `process_read` of src/metrics/process.c from the pid to the fields.
use clueless_task_manager.Base.{ℕ, ◌^◌, ◌<◌, ◌≡◌, ◌∙◌, ap, true, Option, some, List}
use clueless_task_manager.Process.{
  Process, ProcessResult, success_read, Snapshot, process_read, print_string, username_max,
  username_or_null,
}
use clueless_task_manager.Process.Path.{stat_path, process_read_at, process_read_at-reads}
use clueless_task_manager.Process.RoundTrip.{
  StatFile, stat_file, IsPrintable, process_read-stat_file,
}

-- Reading back what the kernel printed: for every 32-bit pid whose stat file, at the path that
-- `process_read` makes of the pid, is a line of the documented shape that fits the buffer, with a name of less than
-- 256 bytes, `process_read` succeeds with exactly the name, the state and the four figures that were printed,
-- whatever the name holds, parentheses and blanks too. The path can be printed.
pub process_read_at-stat_file :
    (files : List ℕ → Snapshot) (s : StatFile) {utime stime start_time rss : ℕ} (out : Process)
    (uid : ℕ) (username : Option (List ℕ)) (overflow : ProcessResult × Process)
    → s.pid < 2 ^ 32
    → files (stat_path s.pid) ≡ record {
      stat_uid = some uid;
      file = some (stat_file s);
      username = username;
      overflow = overflow;
    }
    → IsPrintable s utime stime start_time rss
    → process_read_at true files s.pid (some out) ≡ (
      success_read,
      some (record out {
        name = s.name;
        uid = uid;
        user = print_string username_max (username_or_null username);
        state = s.state;
        utime = utime;
        stime = stime;
        start_time = start_time;
        rss = rss;
      }),
    )
process_read_at-stat_file files s out uid username overflow small at p =
    process_read_at-reads files s.pid out small
    ∙ ap (λ (f : Snapshot). let (r, o) = process_read f out in (r, some o)) at
    ∙ ap (λ (r : ProcessResult × Process). (r.0, some r.1))
        (process_read-stat_file s out uid username overflow p)
