-- ===== src/Scheduling/Availability.antt =====
-- The times a guest can pick: src/services/scheduling/availability.py. The calendar's busy windows,
-- the zone database and the host's date overrides are arguments; the cache is the part of Redis
-- that belongs to one host, by day, without the entries that have expired.
pub mod Cache
use Prim.Native.Nat.{min, max}
use inbox_pilot.Prelude.{
  ℕ, zero, suc, ◌+◌, ◌-◌, ◌/◌, ◌==◌, ltb, leb, ◌&&◌, ◌||◌, days, String, Bool, true, false, not,
  Option, none, some, List, [], ◌∷◌, ◌++◌, map, filter, any, is_some, Result, ok, err,
  if◌then◌else◌,
}
use inbox_pilot.Scheduling.Slots.{
  Zone, Interval, Window, SlotError, unknown_zone, Query, windows_for, available_slots,
}
use inbox_pilot.Scheduling.Bookings.{
  Settings, EventType, Booking, live_bookings_between, count_bookings_on,
}

abbrev pub Cache : Type 0
Cache = ℕ → Option (List Interval)

-- `calendar.busy_windows` between two instants; `none` is an exception.
abbrev pub Calendar : Type 0
Calendar = ℕ → ℕ → Option (List Interval)

-- Counts up from a day.
abbrev pub days_from : ℕ → ℕ → List ℕ
days_from first zero = []
days_from first (suc n) = first ∷ days_from (suc first) n

-- `_days`: empty if the last day is before the first.
abbrev pub day_list : ℕ → ℕ → List ℕ
day_list first last = days_from first (suc last - first)

abbrev pub least : ℕ → List ℕ → ℕ
least m [] = m
least m (x ∷ xs) = min m (least x xs)

abbrev pub greatest : ℕ → List ℕ → ℕ
greatest m [] = m
greatest m (x ∷ xs) = max m (greatest x xs)

-- Local midnight of a day, as an instant.
abbrev pub midnight : Zone → ℕ → ℕ
midnight z day = z.to_instant (days day)

abbrev pub touches : Zone → ℕ → Interval → Bool
touches z day (start, end) = ltb start (midnight z (suc day)) && ltb (midnight z day) end

abbrev pub same_interval : Interval → Interval → Bool
same_interval a b = a.0 == b.0 && a.1 == b.1

-- The keys of a dict that is filled in this order.
unfoldable pub dict_keys : List Interval → List Interval
dict_keys [] = []
dict_keys (i ∷ is) = i ∷ filter (λ j. not (same_interval j i)) (dict_keys is)

abbrev pub get_day : Cache → ℕ → List Interval
get_day cached day = elim (cached day) [ none ↦ [] | some l ↦ l ]

unfoldable pub merged : Cache → List ℕ → List Interval
merged cached [] = []
merged cached (day ∷ rest) = get_day cached day ++ merged cached rest

abbrev pub elem_day : ℕ → List ℕ → Bool
elem_day day [] = false
elem_day day (d ∷ ds) = day == d || elem_day day ds

-- `cached.update(by_day)`, and the same days written to Redis.
abbrev pub fill : Zone → Cache → List ℕ → List Interval → Cache
fill z cached missing fetched day =
    if elem_day day missing then some (filter (touches z day) fetched) else cached day

unfoldable pub fill_from :
    Zone → Cache → List ℕ → List ℕ → Option (List Interval) → Option (List Interval) × Cache
fill_from z cached wanted missing none = (none, cached)
fill_from z cached wanted missing (some fetched) =
    let cached' = fill z cached missing fetched in
    (some (dict_keys (merged cached' wanted)), cached')

fetch_missing : Zone → Calendar → Cache → List ℕ → List ℕ → Option (List Interval) × Cache
fetch_missing z calendar cached wanted [] = (some (dict_keys (merged cached wanted)), cached)
fetch_missing z calendar cached wanted (m ∷ ms) =
    fill_from z cached wanted (m ∷ ms)
      (calendar (midnight z (least m ms)) (z.to_instant (days (greatest m ms) + days 1)))

-- `none` is CalendarUnavailable.
unfoldable pub busy_between : Zone → Calendar → Cache → ℕ → ℕ → Option (List Interval) × Cache
unfolding fetch_missing
busy_between z calendar cached first last =
    let wanted = day_list first last in
    fetch_missing z calendar cached wanted (filter (λ day. not (is_some (cached day))) wanted)

pub data Unavailable : Type 0 where
  calendar_unavailable : Unavailable
  bad_slots : SlotError → Unavailable

-- What the answer depends on besides its arguments.
pub record World : Type 0 where
  pub timezone_for : String → Option Zone
  pub calendar : Calendar
  pub overrides : ℕ → Option (List Window)
  pub bookings : List Booking
  pub now : ℕ

abbrev pub bookable_range : World → Zone → EventType → ℕ × ℕ
bookable_range w z e =
    let today = z.to_wall w.now / days 1 in (today, today + e.booking_horizon_days)

abbrev booked_on : World → Zone → Settings → EventType → Option ℕ → ℕ → ℕ
booked_on w z s e exclude_id day =
    if is_some e.max_bookings_per_day
    then count_bookings_on w.bookings s.user_id e.id (midnight z day) (midnight z (suc day))
        exclude_id
    else 0

unfoldable pub query_for :
    World → Zone → Settings → EventType → Option ℕ → List Interval → List Interval → ℕ → Query
query_for w z s e exclude_id busy reserved day = record {
  day = day;
  timezone_name = s.timezone;
  windows = windows_for day s.weekly_hours (w.overrides day);
  duration_minutes = e.duration_minutes;
  interval_minutes = e.slot_interval_minutes;
  minimum_notice_minutes = e.minimum_notice_minutes;
  busy = busy;
  reserved = reserved;
  buffer_before_minutes = e.buffer_before_minutes;
  buffer_after_minutes = e.buffer_after_minutes;
  booked_today = booked_on w z s e exclude_id day;
  max_bookings_per_day = e.max_bookings_per_day;
  now = w.now;
}

abbrev Days : Type 0
Days = List (ℕ × List ℕ)

add_day : ℕ → Result SlotError (List ℕ) → Result Unavailable Days → Result Unavailable Days
add_day day (err x) rest = err (bad_slots x)
add_day day (ok slots) (err x) = err x
add_day day (ok slots) (ok rest) = ok ((day, slots) ∷ rest)

slots_over : World → (ℕ → Query) → List ℕ → Result Unavailable Days
unfolding add_day
slots_over w query [] = ok []
slots_over w query (day ∷ rest) =
    let others = slots_over w query rest in
    add_day day (available_slots w.timezone_for (query day)) others

with_busy :
    World
    → Zone
    → Settings
    → EventType
    → Option ℕ
    → ℕ
    → ℕ
    → Option (List Interval) × Cache
    → Result Unavailable Days × Cache
unfolding slots_over query_for
with_busy w z s e exclude_id first last (none, cached) = (err calendar_unavailable, cached)
with_busy w z s e exclude_id first last (some busy, cached) =
    let reserved =
      live_bookings_between w.bookings s.user_id (midnight z first) (midnight z (suc last))
        exclude_id in
    (slots_over w (query_for w z s e exclude_id busy reserved) (day_list first last), cached)

in_zone :
    World
    → Settings
    → EventType
    → Option ℕ
    → ℕ
    → ℕ
    → Cache
    → Option Zone
    → Result Unavailable Days × Cache
unfolding with_busy
in_zone w s e exclude_id first last cached none = (err (bad_slots unknown_zone), cached)
in_zone w s e exclude_id first last cached (some z) =
    let (earliest, latest) = bookable_range w z e in
    let first' = max first earliest in
    let last' = min last latest in
    if ltb last' first'
    then (ok [], cached)
    else with_busy w z s e exclude_id first' last' (busy_between z w.calendar cached first' last')

unfoldable pub slots_between :
    World → Settings → EventType → ℕ → ℕ → Option ℕ → Cache → Result Unavailable Days × Cache
unfolding in_zone
slots_between w s e first last exclude_id cached =
    in_zone w s e exclude_id first last cached (w.timezone_for s.timezone)

abbrev pub day_slots : ℕ → Days → List ℕ
day_slots day [] = []
day_slots day ((d, slots) ∷ rest) = if d == day then slots else day_slots day rest

unfoldable pub slots_on :
    World → Settings → EventType → ℕ → Option ℕ → Cache → Result Unavailable (List ℕ) × Cache
slots_on w s e day exclude_id cached =
    let (r, cached') = slots_between w s e day day exclude_id cached in
    (elim r [ err x ↦ err x | ok found ↦ ok (day_slots day found) ], cached')

-- A slot and the wanted time are compared as instants.
abbrev offers : Zone → ℕ → Result Unavailable (List ℕ) → Result Unavailable Bool
offers z starts_at (err x) = err x
offers z starts_at (ok slots) = ok (any (λ slot. z.to_instant slot == starts_at) slots)

bookable_in :
    World
    → Settings
    → EventType
    → ℕ
    → Option ℕ
    → Cache
    → Option Zone
    → Result Unavailable Bool × Cache
bookable_in w s e starts_at exclude_id cached none = (err (bad_slots unknown_zone), cached)
bookable_in w s e starts_at exclude_id cached (some z) =
    let host_day = z.to_wall starts_at / days 1 in
    let (r, cached') = slots_on w s e host_day exclude_id cached in (offers z starts_at r, cached')

unfoldable pub is_bookable :
    World → Settings → EventType → ℕ → Option ℕ → Cache → Result Unavailable Bool × Cache
unfolding bookable_in
is_bookable w s e starts_at exclude_id cached =
    bookable_in w s e starts_at exclude_id cached (w.timezone_for s.timezone)
