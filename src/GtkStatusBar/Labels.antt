-- ===== src/GtkStatusBar/Labels.antt =====
-- What the labels of src/ui/gtk/status_bar.c can hold.
use clueless_task_manager.Base.{
  ℕ, ◌+◌, ◌/◌, ◌%◌, ◌≡◌, refl, ◌∙◌, ap, true, false, [], ◌∷◌, ◌++◌, ltb, if◌then◌else◌, take,
  take_front, take_whole, arith, dec_lt,
}
use clueless_task_manager.Clib.{codes}
use clueless_task_manager.Clib.Decimal.{digits}
use clueless_task_manager.Clib.Digits.{digits_large, length-digits_below, length-digits_above}
use clueless_task_manager.GtkStatusBar.{StatusBar, status_bar_set_process_count}

-- The label has room for four digits: a count below ten thousand is shown whole, and any other
-- shows what a tenth of it shows, so that the digits behind the fourth are lost.
pub status_bar_set_process_count-label :
    (status_bar : StatusBar) (n : ℕ)
    → (status_bar_set_process_count status_bar n).process_label ≡ (
        if ltb n 10000
        then codes "Processes: " ++ digits n
        else (status_bar_set_process_count status_bar (n / 10)).process_label)
unfolding status_bar_set_process_count
status_bar_set_process_count-label status_bar n = elim (dec_lt n 10000) [
  | yes small ↦
      let few = length-digits_below 3 n (omega arith) in
      let whole : take 4 (digits n) ≡ digits n = take_whole 4 (digits n) few in
      let below : ltb n 10000 ≡ true = ground arith in rw (below, whole) refl
  | no large ↦
      let many = length-digits_above 3 (n / 10) (omega arith) in
      let last = (n % 10 + b'0') ∷ [] in
      let cut : take 4 (digits n) ≡ take 4 (digits (n / 10)) =
        ap (λ s. take 4 s) (digits_large n (omega arith))
        ∙ take_front 4 (digits (n / 10)) last many in
      let above : ltb n 10000 ≡ false = ground arith in rw (above, cut) refl
]
