-- ===== src/Scheduling/Booking.antt =====
-- Booking, cancelling and moving: src/services/scheduling/booking.py. What Google answers is an
-- argument of each call. A commit is the table of bookings that is handed on; what the request's
-- session rolls back is not in it. Mail that is queued, or sent in its place, goes to the outbox.
pub mod Outcomes
pub mod Table
pub mod Moved
use inbox_pilot.Prelude.{
  ℕ, ◌+◌, ◌==◌, minutes, String, str_eq, Bool, true, false, Option, none, some, List, [], ◌∷◌, ◌++◌,
  filter, not, take, Result, ok, err, truthy, if◌then◌else◌,
}
use inbox_pilot.Scheduling.Bookings.{
  Status, pending, confirmed, cancelled, failed, Settings, EventType, Booking, put_booking,
  insert_booking, update_booking,
}
use inbox_pilot.Scheduling.Questions.{Question, Raw, Invalid, Answers, validate, labelled}
use inbox_pilot.Scheduling.Availability.{Cache, World, Unavailable, is_bookable}

pub data Failure : Type 0 where
  slot_taken calendar_failed calendar_unavailable invalid_answers : Failure

-- The state that the three calls share: the committed rows, the host's cached days, the mail sent
-- (to whom, and about what).
pub record Desk : Type 0 where
  pub bookings : List Booking
  pub cache : Cache
  pub outbox : List (String × String)

pub record Form : Type 0 where
  pub starts_at : ℕ
  pub name : String
  pub email : String
  pub attendee_emails : List String
  pub notes : Option String
  pub answers : List (String × Raw)

-- `create_event`: the event's fields that the code reads, or the exception's text.
pub data Created : Type 0 where
  event : Option String → Option String → Option String → Option String → Created
  refused : List ℕ → Created

abbrev pub empty_cache : Cache
empty_cache day = none

-- `list(dict.fromkeys(...))`
abbrev once : List String → List String
once [] = []
once (x ∷ xs) = x ∷ filter (λ y. not (str_eq y x)) (once xs)

-- `_attendees`
abbrev pub attendees : Booking → List String
attendees b = once (b.booker_email ∷ b.attendee_emails)

-- `str(a or b or "") or None`
abbrev pub first_truthy : Option String → Option String → Option String
first_truthy a b = if truthy a then a else if truthy b then b else none

-- `a or b`
abbrev or_next : Option String → Option String → Option String
or_next a b = if truthy a then a else b

-- The row that a form asks for; `id` and `token` are the random ones.
abbrev pub new_booking :
    Settings → EventType → List Question → Form → Answers → ℕ → String → Booking
new_booking s e questions f cleaned id token = record {
  id = id;
  user_id = s.user_id;
  event_type_id = some e.id;
  starts_at = f.starts_at;
  ends_at = f.starts_at + minutes e.duration_minutes;
  booker_name = f.name;
  booker_email = f.email;
  attendee_emails = f.attendee_emails;
  title = e.name;
  notes = f.notes;
  answers = labelled questions cleaned;
  status = pending;
  calendar_event_id = none;
  meeting_url = none;
  failure_reason = none;
  management_token = token;
  cancelled_at = none;
  cancelled_by = none;
  cancel_reason = none;
  rescheduled_at = none;
  reminder_sent_at = none;
}

abbrev pub failed_booking : Booking → List ℕ → Booking
failed_booking b reason = record b { status = failed; failure_reason = some (take 500 reason) }

abbrev pub confirmed_booking :
    Booking → Option String → Option String → Option String → Option String → Booking
confirmed_booking b id event_id hangout url = record b {
  status = confirmed;
  calendar_event_id = first_truthy id event_id;
  meeting_url = or_next hangout url;
}

abbrev Outcome : Type 0
Outcome = Result Failure Booking × Desk

-- After the reservation is committed.
finish : Settings → Booking → Created → Desk → Outcome
finish s b (refused reason) d =
    (err calendar_failed, record d { bookings = put_booking (failed_booking b reason) d.bookings })
finish s b (event id event_id hangout url) d =
    let b' = confirmed_booking b id event_id hangout url in
    (
      ok b',
      record d {
        bookings = put_booking b' d.bookings;
        outbox =
            if s.confirmation_email
            then d.outbox ++ (b.booker_email, "Confirmed") ∷ []
            else d.outbox;
      },
    )

reserve : Settings → Booking → Created → Desk → Option (List Booking) → Outcome
unfolding finish
reserve s b created d none = (err slot_taken, d)
reserve s b created d (some rows) =
    finish s b created (record d { bookings = rows; cache = empty_cache })

accept :
    Settings
    → EventType
    → List Question
    → Form
    → ℕ
    → String
    → Created
    → Desk
    → Result Invalid Answers
    → Outcome
unfolding reserve
accept s e questions f id token created d (err _) = (err invalid_answers, d)
accept s e questions f id token created d (ok cleaned) =
    let b = new_booking s e questions f cleaned id token in
    reserve s b created d (insert_booking b d.bookings)

create_if :
    Settings
    → EventType
    → List Question
    → Form
    → ℕ
    → String
    → Created
    → Desk
    → Result Unavailable Bool
    → Outcome
unfolding accept
create_if s e questions f id token created d (err _) = (err calendar_unavailable, d)
create_if s e questions f id token created d (ok false) = (err slot_taken, d)
create_if s e questions f id token created d (ok true) =
    accept s e questions f id token created d (validate questions f.answers)

unfoldable pub create :
    World → Settings → EventType → List Question → Form → ℕ → String → Created → Desk → Outcome
unfolding create_if
create w s e questions f id token created d =
    let (free, cached) =
      is_bookable (record w { bookings = d.bookings }) s e f.starts_at none d.cache in
    create_if s e questions f id token created (record d { cache = cached }) free

-- `(reason or None) and reason[:500]`
abbrev clipped : Option (List ℕ) → Option (List ℕ)
clipped none = none
clipped (some []) = none
clipped (some (c ∷ cs)) = some (take 500 (c ∷ cs))

abbrev pub cancelled_booking : Booking → String → Option (List ℕ) → ℕ → Booking
cancelled_booking b by reason now = record b {
  status = cancelled;
  cancelled_at = some now;
  cancelled_by = some by;
  cancel_reason = clipped reason;
}

abbrev pub is_cancelled : Status → Bool
is_cancelled cancelled = true
is_cancelled _ = false

-- Whether Google deletes the event makes no difference to what is stored.
unfoldable pub cancel : Booking → String → Option (List ℕ) → ℕ → Desk → Booking × Desk
cancel b by reason now d =
    if is_cancelled b.status
    then (b, d)
    else (let b' = cancelled_booking b by reason now in
        (
          b',
          record d {
            bookings = put_booking b' d.bookings;
            cache = empty_cache;
            outbox = d.outbox ++ (b.booker_email, "Cancelled") ∷ [];
          },
        ))

abbrev pub moved_booking : Booking → EventType → ℕ → ℕ → Booking
moved_booking b e starts_at now = record b {
  starts_at = starts_at;
  ends_at = starts_at + minutes e.duration_minutes;
  rescheduled_at = some now;
}

move : Booking → Desk → Option (List Booking) → Outcome
move b d none = (err slot_taken, d)
move b d (some rows) = (
  ok b,
  record d {
    bookings = rows;
    cache = empty_cache;
    outbox = d.outbox ++ (b.booker_email, "Moved") ∷ [];
  },
)

move_if : Booking → EventType → ℕ → ℕ → Desk → Result Unavailable Bool → Outcome
unfolding move
move_if b e starts_at now d (err _) = (err calendar_unavailable, d)
move_if b e starts_at now d (ok false) = (err slot_taken, d)
move_if b e starts_at now d (ok true) =
    let b' = moved_booking b e starts_at now in move b' d (update_booking b' d.bookings)

unfoldable pub reschedule : World → Settings → EventType → Booking → ℕ → Desk → Outcome
unfolding move_if
reschedule w s e b starts_at d =
    if is_cancelled b.status
    then (err slot_taken, d)
    else (let (free, cached) =
          is_bookable (record w { bookings = d.bookings }) s e starts_at (some b.id) d.cache in
        move_if b e starts_at w.now (record d { cache = cached }) free)
