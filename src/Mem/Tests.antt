-- ===== src/Mem/Tests.antt =====
-- src/metrics/mem.c on a file of three lines.
use clueless_task_manager.Base.{ℕ, ◌≡◌, refl, some, List, ◌∷◌, ◌++◌, replicate, done, fault}
use clueless_task_manager.Clib.{
  codes, tokens, strtoul, has_prefix, read_number, is_space, is_digit, read_digits,
}
use clueless_task_manager.Mem.{
  Mem, mem_read, success, err_parse, read_buffer, string_in, read_text, read_lines, read_line,
}
use clueless_task_manager.Mem.Read.{mem_read-outcome, Ends}

abbrev blank : Mem
blank = record { mem_total = 1; mem_available = 2; mem_free = 3 }

abbrev meminfo : List ℕ
meminfo = codes "MemTotal: 800 kB\nMemFree: 300 kB\nMemAvailable: 500 kB\n"

abbrev zeroed : List ℕ
zeroed = replicate 1024 0

mem_read-outcome_example :
    Ends (string_in (read_buffer meminfo zeroed)) (mem_read (some meminfo) zeroed (some blank))
mem_read-outcome_example = mem_read-outcome meminfo zeroed blank refl

-- a NUL ends the text before the other labels
abbrev cut : List ℕ
cut = codes "MemTotal: 8\n" ++ 0 ∷ codes "MemFree: 3\nMemAvailable: 5\n"

cut-fails :
    mem_read (some cut) zeroed (some blank)
    ≡ done (err_parse, some (record blank { mem_total = 8 }))
unfolding mem_read string_in read_text read_lines read_line tokens has_prefix strtoul read_number
    is_space is_digit read_digits
cut-fails = refl

meminfo-is_read :
    mem_read (some meminfo) zeroed (some blank)
    ≡ done (success, some (record { mem_total = 0; mem_available = 0; mem_free = 0 }))
unfolding mem_read string_in read_text read_lines read_line tokens has_prefix strtoul read_number
    is_space is_digit read_digits
meminfo-is_read = refl

unended-faults : mem_read (some (codes "MemTotal: 8")) (replicate 1024 b'x') (some blank) ≡ fault
unfolding mem_read string_in
unended-faults = refl
