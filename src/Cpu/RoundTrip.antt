-- ===== src/Cpu/RoundTrip.antt =====
-- `cpu_read` of src/metrics/cpu.c on the first line of /proc/stat as the kernel prints it.
use mathlib.Core.List.{append_assoc}
use clueless_task_manager.Base.{
  ℕ, suc, ◌-◌, ◌<◌, ◌^◌, ◌≡◌, refl, ◌∙◌, ap, false, ◌==◌, some, List, [], ◌∷◌, ◌++◌, arith, length,
  take, drop, length-take_nonzero, take-append,
}
use clueless_task_manager.Clib.{codes, starts_digit, is_digit, has_prefix}
use clueless_task_manager.Clib.Decimal.{
  digits, print_all, print_all-append, starts_digit-print_all, strtoul-digits, strtoul-print_all,
}
use clueless_task_manager.Cpu.{Cpu, success, parse_counters, cpu_read}

-- the figures behind the first
abbrev pub later_counters : Cpu → List ℕ
later_counters c =
    c.nice ∷ c.system ∷ c.idle ∷ c.iowait ∷ c.irq ∷ c.softirq ∷ c.steal ∷ c.guest ∷ c.guest_nice
    ∷ []

-- "cpu", two blanks, and the ten figures with a blank between them
unfoldable pub stat_line : Cpu → List ℕ
stat_line c = codes "cpu  " ++ (digits c.user ++ print_all (later_counters c) [])

-- every figure is an `unsigned long`
pub record Fits (c : Cpu) : Type 0 where
  pub user : c.user < 2 ^ 64
  pub nice : c.nice < 2 ^ 64
  pub system : c.system < 2 ^ 64
  pub idle : c.idle < 2 ^ 64
  pub iowait : c.iowait < 2 ^ 64
  pub irq : c.irq < 2 ^ 64
  pub softirq : c.softirq < 2 ^ 64
  pub steal : c.steal < 2 ^ 64
  pub guest : c.guest < 2 ^ 64
  pub guest_nice : c.guest_nice < 2 ^ 64

parse_counters-print :
    (c : Cpu) (rest : List ℕ)
    → Fits c
    → starts_digit rest ≡ false
    → parse_counters (digits c.user ++ print_all (later_counters c) rest) ≡ c
unfolding parse_counters
parse_counters-print c rest f e =
    rw
      (
        strtoul-digits c.user (print_all (later_counters c) rest) f.user
            (starts_digit-print_all (later_counters c) rest e),
        strtoul-print_all c.nice _ rest f.nice e,
        strtoul-print_all c.system _ rest f.system e,
        strtoul-print_all c.idle _ rest f.idle e,
        strtoul-print_all c.iowait _ rest f.iowait e,
        strtoul-print_all c.irq _ rest f.irq e,
        strtoul-print_all c.softirq _ rest f.softirq e,
        strtoul-print_all c.steal _ rest f.steal e,
        strtoul-print_all c.guest _ rest f.guest e,
        strtoul-print_all c.guest_nice _ rest f.guest_nice e,
      )
      refl

-- the bytes that the buffer has behind the line, which are not read
tail : Cpu → List ℕ → List ℕ → List ℕ
tail c more stack =
    let file = stat_line c ++ b'\n' ∷ more in
    b'\n' ∷ (take (1023 - length (stat_line c)) more ++ drop (length (take 1024 file)) stack)

stat_line-append :
    (c : Cpu) (rest : List ℕ)
    → stat_line c ++ rest ≡ codes "cpu  " ++ (digits c.user ++ print_all (later_counters c) rest)
unfolding stat_line
stat_line-append c rest =
    ap (λ s. codes "cpu  " ++ s)
      (append_assoc (digits c.user) (print_all (later_counters c) []) rest
        ∙ ap (λ s. digits c.user ++ s) (print_all-append (later_counters c) [] rest))

buffer-tail :
    (c : Cpu) (more stack : List ℕ)
    → length (stat_line c) < 1024
    → let read = take 1024 (stat_line c ++ b'\n' ∷ more) in
      read ++ drop (length read) stack
      ≡ codes "cpu  " ++ (digits c.user ++ print_all (later_counters c) (tail c more stack))
unfolding tail
buffer-tail c more stack short =
    let line = stat_line c in
    let file = line ++ b'\n' ∷ more in
    let one_more : 1024 - length line ≡ suc (1023 - length line) = omega arith in
    let read : take 1024 file ≡ line ++ b'\n' ∷ take (1023 - length line) more =
      take-append 1024 line (b'\n' ∷ more) (omega arith)
      ∙ ap (λ k. line ++ take k (b'\n' ∷ more)) one_more in
    ap (λ t. t ++ drop (length (take 1024 file)) stack) read
    ∙ append_assoc line (b'\n' ∷ take (1023 - length line) more)
        (drop (length (take 1024 file)) stack)
    ∙ stat_line-append c (tail c more stack)

cpu_read-buffer :
    (out : Cpu) (bytes stack s : List ℕ)
    → (length (take 1024 bytes) == 0) ≡ false
    → take 1024 bytes ++ drop (length (take 1024 bytes)) stack ≡ codes "cpu  " ++ s
    → cpu_read (some bytes) stack (some out) ≡ (success, some (parse_counters s))
unfolding cpu_read has_prefix
cpu_read-buffer out bytes stack s nonempty buffer = rw (buffer, nonempty) refl

-- Whatever the ten figures are, if they are machine words and their line is shorter than the buffer,
-- `cpu_read` gives back exactly these figures, whatever follows the line in the file and whatever the
-- uninitialised buffer holds.
pub cpu_read-stat_line :
    (c out : Cpu) (more stack : List ℕ)
    → Fits c
    → length (stat_line c) < 1024
    → cpu_read (some (stat_line c ++ b'\n' ∷ more)) stack (some out) ≡ (success, some c)
unfolding tail starts_digit is_digit
cpu_read-stat_line c out more stack f short =
    let file = stat_line c ++ b'\n' ∷ more in
    let nonempty : (length (take 1024 file) == 0) ≡ false =
      length-take_nonzero 1023 (stat_line c) b'\n' more in
    cpu_read-buffer out file stack _ nonempty (buffer-tail c more stack short)
    ∙ ap (λ r. (success, some r)) (parse_counters-print c (tail c more stack) f refl)
