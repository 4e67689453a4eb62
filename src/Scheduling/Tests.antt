-- ===== src/Scheduling/Tests.antt =====
-- The booking page of one host in UTC.
use inbox_pilot.Prelude.{
  ℕ, ◌≡◌, ◌↔◌, ◌&&◌, refl, minutes, String, true, false, Option, none, some, List, [], ◌∷◌, filter,
  any, elem, length, ◌≤◌, All, ok, ltb, arith,
}
use inbox_pilot.Prelude.Text.{strip, clock_minutes}
use inbox_pilot.Scheduling.Slots.{
  Zone, Interval, Window, Query, Pass, walk, available_slots, all_starts, window_starts, sorted_set,
  slots_in,
}
use inbox_pilot.Scheduling.Slots.Order.{Ascending}
use inbox_pilot.Scheduling.Slots.Offer.{Bookable, slots-Bookable}
use inbox_pilot.Scheduling.Slots.Total.{available_slots_total}
use inbox_pilot.Scheduling.Slots.Walk.{walk_endless}
use inbox_pilot.Scheduling.Bookings.{Settings, EventType, Booking, confirmed}
use inbox_pilot.Scheduling.Bookings.Exclusion.{NoOverlap}
use inbox_pilot.Scheduling.Availability.{Calendar, World, busy_between, day_list, touches}
use inbox_pilot.Scheduling.Availability.Cache.{IsCoherent, mem, busy_between_lem}
use inbox_pilot.Scheduling.Questions.{
  Question, Answers, str, select, text, validate, check_answer, set_item,
}
use inbox_pilot.Scheduling.Questions.Answers.{Answered, DistinctKeys, find_item, lacks_key}
use inbox_pilot.Scheduling.Questions.Definitions.{
  HostQuestion, decimal, fresh_key, normalise_definitions,
}
use inbox_pilot.Scheduling.Questions.Normalised.{
  Offers, normalise_definitions-Sound, accepted-Answered,
}
use inbox_pilot.Scheduling.Booking.{Form, Desk, Created, event, create, reschedule, empty_cache}
use inbox_pilot.Scheduling.Booking.Table.{book, serve, serve-NoOverlap}
use inbox_pilot.Scheduling.Booking.Outcomes.{Ends, Moves, create-Ends, reschedule-Moves}
use inbox_pilot.Scheduling.Booking.Moved.{Undue, moved_not_due}
use inbox_pilot.Scheduling.Reminders.{Outside, sweep, is_due, mail_for, after_mail, reminded}
use inbox_pilot.Scheduling.Reminders.Once.{reminded_once}

abbrev utc : Zone
utc = record { to_wall = λ t. t; to_instant = λ t. t }

abbrev zones : String → Option Zone
zones name = some utc

abbrev morning : Window
morning = record { start = "09:00"; end = "12:00" }

abbrev query : Query
query = record {
  day = 1;
  timezone_name = "UTC";
  windows = morning ∷ [];
  duration_minutes = 30;
  interval_minutes = 30;
  minimum_notice_minutes = 60;
  busy = (minutes 2040, minutes 2070) ∷ [];
  reserved = [];
  buffer_before_minutes = 0;
  buffer_after_minutes = 15;
  booked_today = 0;
  max_bookings_per_day = some 5;
  now = 0;
}

available_slots_total_example : (l : List ℕ) × (available_slots zones query ≡ ok l)
unfolding clock_minutes
available_slots_total_example =
    available_slots_total zones utc query refl (omega arith) (((540, refl), (720, refl)), tt)

slots-Bookable_example :
    Ascending (minutes 1980 ∷ minutes 2100 ∷ minutes 2130 ∷ [])
    × ((y : ℕ)
        → (elem y (minutes 1980 ∷ minutes 2100 ∷ minutes 2130 ∷ []) ≡ true) ↔ Bookable utc query y)
unfolding available_slots all_starts window_starts walk sorted_set clock_minutes slots_in
slots-Bookable_example =
    slots-Bookable zones utc query (minutes 1980 ∷ minutes 2100 ∷ minutes 2130 ∷ []) refl refl refl

abbrev settings : Settings
settings = record {
  user_id = 1;
  timezone = "UTC";
  weekly_hours = (record { weekday = 1; start = "09:00"; end = "12:00" }) ∷ [];
  confirmation_email = true;
}

abbrev half_hour : EventType
half_hour = record {
  id = 4;
  name = "Intro";
  duration_minutes = 30;
  slot_interval_minutes = 30;
  minimum_notice_minutes = 0;
  booking_horizon_days = 14;
  buffer_before_minutes = 0;
  buffer_after_minutes = 0;
  max_bookings_per_day = none;
}

abbrev booking : Booking
booking = record {
  id = 6;
  user_id = 1;
  event_type_id = some 4;
  starts_at = minutes 2010;
  ends_at = minutes 2040;
  booker_name = "Bo";
  booker_email = "bo@acme.com";
  attendee_emails = [];
  title = "Intro";
  notes = none;
  answers = [];
  status = confirmed;
  calendar_event_id = some "event";
  meeting_url = none;
  failure_reason = none;
  management_token = "token";
  cancelled_at = none;
  cancelled_by = none;
  cancel_reason = none;
  rescheduled_at = none;
  reminder_sent_at = none;
}

abbrev world : World
world = record {
  timezone_for = zones;
  calendar = λ a b. some [];
  overrides = λ day. none;
  bookings = booking ∷ [];
  now = 0;
}

abbrev desk : Desk
desk = record { bookings = booking ∷ []; cache = empty_cache; outbox = [] }

abbrev form : Form
form = record {
  starts_at = minutes 1980;
  name = "Al";
  email = "al@acme.com";
  attendee_emails = [];
  notes = none;
  answers = [];
}

abbrev created : Created
created = event (some "e1") none none none

serve-NoOverlap_example :
    NoOverlap (serve 7 (book world settings half_hour [] form "token2" created) desk).bookings
serve-NoOverlap_example =
    serve-NoOverlap 7 (book world settings half_hour [] form "token2" created) desk (tt, tt)
      (omega arith, tt)

create-Ends_example :
    Ends settings half_hour form 7 created desk
      (create world settings half_hour [] form 7 "token2" created desk)
create-Ends_example =
    create-Ends world settings half_hour [] form 7 "token2" created desk (omega arith, tt)

reschedule-Moves_example :
    Moves half_hour booking
      (minutes 1980)
      desk
      (reschedule world settings half_hour booking (minutes 1980) desk)
reschedule-Moves_example = reschedule-Moves world settings half_hour booking (minutes 1980) desk

abbrev reminded_booking : Booking
reminded_booking = reminded booking 5

moved_not_due_example :
    Undue (minutes 1950) (reschedule world settings half_hour reminded_booking (minutes 1980) desk)
moved_not_due_example =
    moved_not_due world settings half_hour reminded_booking (minutes 1980) (minutes 1950) desk refl

abbrev pass : Pass
pass = record {
  duration = 30;
  interval = 0;
  earliest = 0;
  pad_before = 0;
  pad_after = 0;
  occupied = [];
}

walk_endless_example : walk pass 100 50 20 ≡ none
walk_endless_example = walk_endless pass 100 50 20 refl (omega arith)

abbrev asked : String → Option String → HostQuestion
asked label kind = record {
  key = some " team ";
  label = some label;
  kind = kind;
  required = true;
  options = (65 ∷ 32 ∷ []) ∷ (32 ∷ []) ∷ (66 ∷ []) ∷ [];
}

-- A select, a question without a label, and a text under the key of the first.
abbrev host : List HostQuestion
host = asked "Team" (some "select") ∷ asked " " none ∷ asked "Notes" (some "essay") ∷ []

abbrev team : Question
team = record {
  key = "team";
  label = "Team";
  kind = select;
  required = true;
  options = (65 ∷ []) ∷ (66 ∷ []) ∷ [];
}

abbrev notes : Question
notes = record { key = "teamx"; label = "Notes"; kind = text; required = true; options = [] }

decimal_12 : decimal 12 ≡ "12"
decimal_12 = refl

normalised : normalise_definitions host ≡ team ∷ notes ∷ []
unfolding normalise_definitions fresh_key strip
normalised = refl

normalise_definitions-Sound_example :
    DistinctKeys (normalise_definitions host)
    × (length (normalise_definitions host) ≤ 15)
    × All (λ (q : Question). Offers q.kind q.options) (normalise_definitions host)
normalise_definitions-Sound_example = normalise_definitions-Sound host

abbrev answered : Answers
answered = ("team", 66 ∷ []) ∷ ("teamx", 67 ∷ []) ∷ []

accepted-Answered_example :
    All
      (λ (q : Question). Answered q q.kind (find_item q.key answered))
      (normalise_definitions host)
    × ((j : String) → lacks_key j (normalise_definitions host) ≡ true → find_item j answered ≡ none)
unfolding normalise_definitions fresh_key validate check_answer strip set_item
accepted-Answered_example =
    accepted-Answered host (("team", str (32 ∷ 66 ∷ [])) ∷ ("teamx", str (67 ∷ [])) ∷ []) answered
      refl

abbrev events : List Interval
events = (minutes 1430, minutes 1450) ∷ (minutes 3000, minutes 3030) ∷ []

abbrev calendar : Calendar
calendar a b = some (filter (λ i. ltb i.0 b && ltb a i.1) events)

busy_between_lem_example :
    (l : List Interval) × ((busy_between utc calendar empty_cache 0 2).0 ≡ some l)
    × ((i : Interval) → mem i l ≡ (mem i events && any (λ day. touches utc day i) (day_list 0 2)))
    × IsCoherent utc events (busy_between utc calendar empty_cache 0 2).1
busy_between_lem_example =
    busy_between_lem utc events calendar empty_cache 0 2 (λ a b h. omega arith) (λ a b. refl)
      (λ day l h. absurd (ground arith))

abbrev outside : Outside
outside = record {
  profile = λ user_id. some (record { timezone = "UTC"; reschedule_reminders = true });
  has_user = λ user_id. true;
  timezone_for = zones;
  send = λ b. true;
}

reminded_once_example :
    elem 6 (sweep outside (minutes 1990) (reminded booking (minutes 1980) ∷ [])).mailed ≡ false
unfolding sweep is_due mail_for after_mail
reminded_once_example =
    reminded_once outside outside (minutes 1980) (minutes 1990) 6 (booking ∷ [])
      (reminded booking (minutes 1980) ∷ []) (refl, tt) refl refl
