-- ===== src/Scheduling/Slots.antt =====
-- The bookable times of a day: src/services/scheduling/slots.py. A date is a number of days since
-- 0001-01-01, a Monday. A local datetime is the number of microseconds that its wall clock shows
-- since then: datetimes of one zone are compared by their wall clocks.
pub mod Walk
pub mod Order
pub mod Offer
pub mod Total
use inbox_pilot.Prelude.{
  ℕ, zero, suc, ◌+◌, ◌*◌, ◌%◌, ◌==◌, ltb, leb, ◌&&◌, minutes, days, String, Bool, true, false, not,
  Option, none, some, List, [], ◌∷◌, ◌++◌, map, any, filter, clock_minutes, Result, ok, err, ◌>>=◌,
  if◌then◌else◌,
}

-- A zone of the IANA database, which is not part of the source: the wall clock at an instant, and
-- the instant that a wall time stands for (the first of two, and a shifted one in a gap).
pub record Zone : Type 0 where
  pub to_wall : ℕ → ℕ
  pub to_instant : ℕ → ℕ

abbrev pub Interval : Type 0
Interval = ℕ × ℕ

pub record Window : Type 0 where
  pub start : String
  pub end : String

pub record HoursWindow : Type 0 where
  pub weekday : ℕ
  pub start : String
  pub end : String

abbrev pub weekday : ℕ → ℕ
weekday day = day % 7

unfoldable pub windows_for : ℕ → List HoursWindow → Option (List Window) → List Window
windows_for day weekly_hours none =
    map (λ (w : HoursWindow). record { start = w.start; end = w.end })
      (filter (λ w. w.weekday == weekday day) weekly_hours)
windows_for day weekly_hours (some override) = override

pub data SlotError : Type 0 where
  unknown_zone bad_clock endless : SlotError

abbrev or_raise : Option ℕ → Result SlotError ℕ
or_raise none = err bad_clock
or_raise (some a) = ok a

-- `datetime.combine(day, time.fromisoformat(clock), tz)`
abbrev pub wall : ℕ → String → Result SlotError ℕ
wall day clock = do minute ← or_raise (clock_minutes clock); ok (days day + minutes minute)

abbrev pub real_instant : Zone → ℕ → ℕ
real_instant z moment = z.to_wall (z.to_instant moment)

-- What one day's pass works with, its lengths of time in microseconds.
pub record Pass : Type 0 where
  pub duration : ℕ
  pub interval : ℕ
  pub earliest : ℕ
  pub pad_before : ℕ
  pub pad_after : ℕ
  pub occupied : List Interval

-- `start - pad_before < busy_end + pad_after and end + pad_after > busy_start - pad_before`,
-- with the subtractions carried to the other side.
abbrev pub clashes : Pass → ℕ → Interval → Bool
clashes p start (busy_start, busy_end) =
    ltb start (busy_end + p.pad_after + p.pad_before)
    && ltb busy_start (start + p.duration + p.pad_after + p.pad_before)

abbrev pub is_offered : Pass → ℕ → Bool
is_offered p start = if ltb start p.earliest then false else not (any (clashes p start) p.occupied)

abbrev keep : Pass → ℕ → List ℕ → List ℕ
keep p start rest = if is_offered p start then start ∷ rest else rest

abbrev keep? : Pass → ℕ → Option (List ℕ) → Option (List ℕ)
keep? p start none = none
keep? p start (some rest) = some (keep p start rest)

-- `while cursor + duration <= window_end`, on fuel; `none` means that the fuel ran out.
unfoldable pub walk : Pass → ℕ → ℕ → ℕ → Option (List ℕ)
walk p window_end zero cursor = none
walk p window_end (suc fuel) cursor =
    let more = keep? p cursor (walk p window_end fuel (cursor + p.interval)) in
    if leb (cursor + p.duration) window_end then more else some []

abbrev or_endless : Option (List ℕ) → Result SlotError (List ℕ)
or_endless none = err endless
or_endless (some starts) = ok starts

-- An interval of a microsecond or more ends the loop within this much fuel.
abbrev pub window_fuel : ℕ → ℕ
window_fuel window_end = suc (suc window_end)

unfoldable pub window_starts : Pass → ℕ → Window → Result SlotError (List ℕ)
window_starts p day w = do
  cursor ← wall day w.start
  window_end ← wall day w.end
  or_endless (walk p window_end (window_fuel window_end) cursor)

unfoldable pub all_starts : Pass → ℕ → List Window → Result SlotError (List ℕ)
all_starts p day [] = ok []
all_starts p day (w ∷ ws) =
    let others = all_starts p day ws in
    do starts ← window_starts p day w; rest ← others; ok (starts ++ rest)

-- `sorted(found)`, where `found` is a set.
insert_sorted : ℕ → List ℕ → List ℕ
insert_sorted x [] = x ∷ []
insert_sorted x (y ∷ ys) =
    let later = y ∷ insert_sorted x ys in
    if ltb x y then x ∷ y ∷ ys else if x == y then y ∷ ys else later

unfoldable pub sorted_set : List ℕ → List ℕ
unfolding insert_sorted
sorted_set [] = []
sorted_set (x ∷ xs) = insert_sorted x (sorted_set xs)

-- The arguments of `available_slots`.
pub record Query : Type 0 where
  pub day : ℕ
  pub timezone_name : String
  pub windows : List Window
  pub duration_minutes : ℕ
  pub interval_minutes : ℕ
  pub minimum_notice_minutes : ℕ
  pub busy : List Interval
  pub reserved : List Interval
  pub buffer_before_minutes : ℕ
  pub buffer_after_minutes : ℕ
  pub booked_today : ℕ
  pub max_bookings_per_day : Option ℕ
  pub now : ℕ

abbrev pub pass_of : Zone → Query → Pass
pass_of z q = record {
  duration = minutes q.duration_minutes;
  interval = minutes q.interval_minutes;
  earliest = z.to_wall q.now + minutes q.minimum_notice_minutes;
  pad_before = minutes q.buffer_before_minutes;
  pad_after = minutes q.buffer_after_minutes;
  occupied = map (λ (i : Interval). (z.to_wall i.0, z.to_wall i.1)) (q.busy ++ q.reserved);
}

abbrev pub cap_reached : Option ℕ → ℕ → Bool
cap_reached none booked = false
cap_reached (some cap) booked = leb cap booked

unfoldable pub slots_in : Option Zone → Query → Result SlotError (List ℕ)
slots_in none q = err unknown_zone
slots_in (some z) q = do
  found ← all_starts (pass_of z q) q.day q.windows
  ok (sorted_set (map (real_instant z) found))

-- `timezone_for` looks the name up in the database.
unfoldable pub available_slots : (String → Option Zone) → Query → Result SlotError (List ℕ)
unfolding slots_in
available_slots timezone_for q =
    if cap_reached q.max_bookings_per_day q.booked_today
    then ok []
    else slots_in (timezone_for q.timezone_name) q
