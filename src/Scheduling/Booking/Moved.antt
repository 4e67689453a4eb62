-- ===== src/Scheduling/Booking/Moved.antt =====
-- What a move does to the reminder: src/services/scheduling/booking.py beside
-- src/workers/jobs/scheduling_reminders.py.
use inbox_pilot.Prelude.{
  ℕ, ◌≡◌, Bool, true, false, Option, none, some, List, Result, ok, err, is_some, if◌then◌else◌,
  arith,
}
use inbox_pilot.Scheduling.Bookings.{Settings, EventType, Booking}
use inbox_pilot.Scheduling.Availability.{World, Unavailable}
use inbox_pilot.Scheduling.Booking.{
  Failure, Desk, moved_booking, move, move_if, reschedule, is_cancelled,
}
use inbox_pilot.Scheduling.Reminders.{is_due}

-- The booking that a call returns, if it returns one, is not due for a reminder.
abbrev pub Undue : ℕ → Result Failure Booking × Desk → Type 0
Undue now (ok b, d) = is_due now b ≡ false
Undue now (err _, d) = Unit

move-Undue :
    (now : ℕ) (b : Booking) (d : Desk) (rows : Option (List Booking))
    → is_due now b ≡ false
    → Undue now (move b d rows)
unfolding move
move-Undue now b d none h = tt
move-Undue now b d (some rows) h = h

move_if-Undue :
    (now : ℕ) (b : Booking) (e : EventType) (starts_at at : ℕ) (d : Desk)
    (r : Result Unavailable Bool)
    → is_some b.reminder_sent_at ≡ true
    → Undue now (move_if b e starts_at at d r)
unfolding move_if is_due
move_if-Undue now b e starts_at at d (err x) h = tt
move_if-Undue now b e starts_at at d (ok false) h = tt
move_if-Undue now b e starts_at at d (ok true) h =
    move-Undue now (moved_booking b e starts_at at) d _ (ground arith)

if-Undue :
    (now : ℕ) (c : Bool) (x y : Result Failure Booking × Desk)
    → Undue now x
    → Undue now y
    → Undue now (if c then x else y)
if-Undue now true x y h k = h
if-Undue now false x y h k = k

-- A booking whose guest was reminded, and that is moved, is due for a reminder at no time any more:
-- no mail reminds its guest of the new time.
pub moved_not_due :
    (w : World) (s : Settings) (e : EventType) (b : Booking) (starts_at now : ℕ) (d : Desk)
    → is_some b.reminder_sent_at ≡ true
    → Undue now (reschedule w s e b starts_at d)
unfolding reschedule
moved_not_due w s e b starts_at now d h =
    if-Undue now (is_cancelled b.status) _ _ tt (move_if-Undue now b e starts_at w.now _ _ h)
