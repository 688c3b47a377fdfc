-- ===== src/Platform/Tests.antt =====
-- src/core/linux/platform.c with one interruption after 200 milliseconds.
use clueless_task_manager.Base.{◌*◌, ◌≡◌, List, [], ◌∷◌, arith, Returns}
use clueless_task_manager.Platform.{Answer, slept, interrupted, ctm_sleep_ms}
use clueless_task_manager.Platform.Sleep.{total_asleep, ctm_sleep_ms-total}

abbrev one_signal : List Answer
one_signal = interrupted (record { tv_sec = 1; tv_nsec = 300000000 }) ∷ slept ∷ []

ctm_sleep_ms-total_example :
    Returns (ctm_sleep_ms one_signal 1500) (λ calls. total_asleep calls ≡ 1500 * 1000000)
ctm_sleep_ms-total_example = ctm_sleep_ms-total one_signal 1500 (omega arith) (omega arith, tt)
