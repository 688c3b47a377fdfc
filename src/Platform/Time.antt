-- ===== src/Platform/Time.antt =====
-- `ctm_get_time` of src/core/log.c: the time at the front of a line of the log.
use clueless_task_manager.Base.{
  ℕ, ◌+◌, ◌/◌, ◌%◌, ◌<◌, ◌≤◌, ◌≡◌, Option, none, some, List, [], ◌∷◌, ◌++◌, ltb, if◌then◌else◌,
  length, length-append, arith, Outcome, done, fault,
}
use clueless_task_manager.Clib.Decimal.{digits}
use clueless_task_manager.Clib.Digits.{length-digits_below, length-digits_above}

-- `struct tm`, with the year and the month as they are printed: `tm_year + 1900` and `tm_mon + 1`
pub record Tm : Type 0 where
  pub year : ℕ
  pub month : ℕ
  pub day : ℕ
  pub hour : ℕ
  pub minute : ℕ
  pub second : ℕ

-- a field of two digits
abbrev two_digits : ℕ → List ℕ
two_digits n = (n / 10 + b'0') ∷ (n % 10 + b'0') ∷ []

-- what the format "%Y-%m-%d %H:%M:%S" prints
unfoldable pub timestamp : Tm → List ℕ
timestamp t =
    digits t.year
    ++ (b'-'
        ∷ (two_digits t.month
            ++ (b'-'
                ∷ (two_digits t.day
                    ++ (b' '
                        ∷ (two_digits t.hour
                            ++ (b':' ∷ (two_digits t.minute ++ (b':' ∷ two_digits t.second)))))))))

-- `ctm_get_time`: `localtime` gives a time or `NULL`; where the text and its NUL do not fit the 21 bytes, the
-- buffer holds what `strftime` left in it.
pub ctm_get_time : (left : List ℕ) → Option Tm → Outcome (List ℕ)
ctm_get_time left none = fault
ctm_get_time left (some t) = if ltb (length (timestamp t)) 21 then done (timestamp t) else done left

length-timestamp : (t : Tm) → length (timestamp t) ≡ length (digits t.year) + 15
unfolding timestamp
length-timestamp t = omega (
  arith,
  length-append (digits t.year) (
      b'-'
      ∷ (two_digits t.month
          ++ (b'-'
              ∷ (two_digits t.day
                  ++ (b' '
                      ∷ (two_digits t.hour
                          ++ (b':' ∷ (two_digits t.minute ++ (b':' ∷ two_digits t.second))))))))),
)

-- Up to the year 99999, the whole time is in the buffer.
pub ctm_get_time-whole :
    (left : List ℕ) (t : Tm) → t.year < 100000 → ctm_get_time left (some t) ≡ done (timestamp t)
unfolding ctm_get_time
ctm_get_time-whole left t small =
    ground (arith, length-timestamp t, length-digits_below 4 t.year (omega arith))

-- From the year 100000 on it is not.
pub ctm_get_time-left :
    (left : List ℕ) (t : Tm) → 100000 ≤ t.year → ctm_get_time left (some t) ≡ done left
unfolding ctm_get_time
ctm_get_time-left left t large =
    ground (arith, length-timestamp t, length-digits_above 5 t.year (omega arith))
