-- ===== src/Mailman/Scheduler/Cyclic.antt =====
-- The do-not-disturb window of src/services/mailman/scheduler.py, around the clock.
use inbox_pilot.Prelude.{ℕ, ◌+◌, ◌-◌, ◌<◌, ◌%◌, ltb, ◌≡◌, arith}
use inbox_pilot.Mailman.Scheduler.{in_window}

-- How many minutes after one minute of the day another comes next.
abbrev pub minutes_after : ℕ → ℕ → ℕ
minutes_after start now = (now + 1440 - start) % 1440

-- A minute of the day is in the window between two others exactly if, counted around the clock
-- from the window's start, it comes before the window's end: midnight makes no difference.
in_window_cyclic :
    (start end now : ℕ)
    → start < 1440
    → end < 1440
    → now < 1440
    → in_window start end now ≡ ltb (minutes_after start now) (minutes_after start end)
unfolding in_window
in_window_cyclic start end now s e n = ground arith
