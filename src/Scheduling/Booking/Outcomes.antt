-- ===== src/Scheduling/Booking/Outcomes.antt =====
-- What each call of src/services/scheduling/booking.py leaves behind, on every branch.
use inbox_pilot.Prelude.{
  ℕ, ◌+◌, ◌≡◌, ◌≢◌, refl, minutes, String, Bool, true, false, Option, none, some, List, [], ◌∷◌,
  ◌++◌, any, All, take, Result, ok, err, arith, if◌then◌else◌, Bool-cases, inl, inr,
}
use inbox_pilot.Scheduling.Bookings.{
  Status, confirmed, cancelled, failed, Settings, EventType, Booking, other_collides, put_booking,
  insert_booking, update_booking,
}
use inbox_pilot.Scheduling.Questions.{Question, Invalid, Answers, validate}
use inbox_pilot.Scheduling.Availability.{World, Unavailable, is_bookable}
use inbox_pilot.Scheduling.Booking.{
  Failure, calendar_failed, Desk, Form, Created, event, refused, new_booking, failed_booking,
  confirmed_booking, accept, create_if, move_if, create, is_cancelled, cancel, moved_booking,
  reschedule,
}

put-absent :
    (b : Booking) (rows : List Booking) → All (λ r. r.id ≢ b.id) rows → put_booking b rows ≡ rows
unfolding put_booking
put-absent b [] h = refl
put-absent b (r ∷ rows) h = ground (arith, put-absent b rows h.1)

put-append :
    (b b' : Booking) (rows : List Booking)
    → b.id ≡ b'.id
    → All (λ r. r.id ≢ b'.id) rows
    → put_booking b' (rows ++ b ∷ []) ≡ rows ++ b' ∷ []
unfolding put_booking
put-append b b' [] same h = ground arith
put-append b b' (r ∷ rows) same h = ground (arith, put-append b b' rows same h.1)

-- What is left of a call that began with these rows, by how it ended. Only a refusal by the
-- calendar leaves a row: the reservation, marked as failed, which holds no slot.
abbrev pub Ends :
    Settings → EventType → Form → ℕ → Created → Desk → Result Failure Booking × Desk → Type 0
Ends s e f id created d (ok b, d') =
    (d'.bookings ≡ d.bookings ++ b ∷ [])
    × (b.status ≡ confirmed)
    × (b.id ≡ id)
    × (b.user_id ≡ s.user_id)
    × (b.starts_at ≡ f.starts_at)
    × (b.ends_at ≡ f.starts_at + minutes e.duration_minutes)
    × (d'.outbox
        ≡ (if s.confirmation_email then d.outbox ++ (f.email, "Confirmed") ∷ [] else d.outbox))
Ends s e f id created d (err calendar_failed, d') =
    ((reason : List ℕ) × (b : Booking) × (created ≡ refused reason)
      × (d'.bookings ≡ d.bookings ++ b ∷ [])
      × (b.id ≡ id)
      × (b.status ≡ failed)
      × (b.failure_reason ≡ some (take 500 reason)))
    × (d'.outbox ≡ d.outbox)
Ends s e f id created d (err _, d') = (d'.bookings ≡ d.bookings) × (d'.outbox ≡ d.outbox)

module _ (s : Settings) (e : EventType) (questions : List Question) (f : Form) (id : ℕ)
    (token : String) (d : Desk) (new : All (λ (r : Booking). r.id ≢ id) d.bookings) where
  accept-Ends :
      (created : Created) (r : Result Invalid Answers)
      → Ends s e f id created d (accept s e questions f id token created d r)
  unfolding accept insert_booking
  accept-Ends created (err x) = (refl, refl)
  accept-Ends (refused reason) (ok cleaned) =
      let b = new_booking s e questions f cleaned id token in
      elim (Bool-cases (any (other_collides b) d.bookings)) [
        | inl taken ↦ rw taken (refl, refl)
        | inr free ↦ rw free (
          (
            reason,
            failed_booking b reason,
            refl,
            put-append b (failed_booking b reason) d.bookings refl new,
            refl,
            refl,
            refl,
          ),
          refl,
        )
      ]
  accept-Ends (event i j k u) (ok cleaned) =
      let b = new_booking s e questions f cleaned id token in
      elim (Bool-cases (any (other_collides b) d.bookings)) [
        | inl taken ↦ rw taken (refl, refl)
        | inr free ↦ rw free (
          put-append b (confirmed_booking b i j k u) d.bookings refl new,
          refl,
          refl,
          refl,
          refl,
          refl,
          refl,
        )
      ]

  create_if-Ends :
      (created : Created) (r : Result Unavailable Bool)
      → Ends s e f id created d (create_if s e questions f id token created d r)
  unfolding create_if
  create_if-Ends created (err x) = (refl, refl)
  create_if-Ends created (ok false) = (refl, refl)
  create_if-Ends created (ok true) = accept-Ends created (validate questions f.answers)

-- A booking call with a new id ends in one of three ways. It returns the confirmed booking, which
-- has the length of its event type and is the one new row; or it raises CalendarFailed, and the
-- one new row is the reservation, marked as failed with Google's reason; or it raises something
-- else, and there is no new row. Mail goes out for a confirmation only.
pub create-Ends :
    (w : World) (s : Settings) (e : EventType) (questions : List Question) (f : Form) (id : ℕ)
    (token : String) (created : Created) (d : Desk)
    → All (λ (r : Booking). r.id ≢ id) d.bookings
    → Ends s e f id created d (create w s e questions f id token created d)
unfolding create
create-Ends w s e questions f id token created d new =
    create_if-Ends s e questions f id token
      (record d {
        cache = (is_bookable (record w { bookings = d.bookings }) s e f.starts_at none d.cache).1;
      })
      new created _

gone-status : (st : Status) → is_cancelled st ≡ true → st ≡ cancelled
gone-status cancelled h = refl
gone-status _ h = cc

-- Cancelling leaves a cancelled booking, with the id, the start and the management link of the one
-- that was given, whatever Google answers; cancelling that again returns it, changes nothing and
-- sends nothing.
cancel_twice :
    (b : Booking) (by by' : String) (reason reason' : Option (List ℕ)) (now now' : ℕ) (d : Desk)
    → let (b', d') = cancel b by reason now d in
      (b'.status ≡ cancelled)
      × (b'.id ≡ b.id)
      × (b'.starts_at ≡ b.starts_at)
      × (b'.management_token ≡ b.management_token)
      × (cancel b' by' reason' now' d' ≡ (b', d'))
unfolding cancel
cancel_twice b by by' reason reason' now now' d = elim (Bool-cases (is_cancelled b.status)) [
  | inl gone ↦ rw gone (gone-status b.status gone, refl, refl, refl, rw gone)
  | inr live ↦ rw live (refl, refl, refl, refl, refl)
]

-- What a move leaves: the same row at another time, or the rows as they were.
abbrev pub Moves : EventType → Booking → ℕ → Desk → Result Failure Booking × Desk → Type 0
Moves e b starts_at d (ok b', d') =
    (b'.starts_at ≡ starts_at)
    × (b'.ends_at ≡ starts_at + minutes e.duration_minutes)
    × (b'.id ≡ b.id)
    × (b'.status ≡ b.status)
    × (b'.management_token ≡ b.management_token)
    × (b'.calendar_event_id ≡ b.calendar_event_id)
    × (any (other_collides b') d.bookings ≡ false)
    × (d'.bookings ≡ put_booking b' d.bookings)
    × (is_cancelled b.status ≡ false)
Moves e b starts_at d (err _, d') = (d'.bookings ≡ d.bookings) × (d'.outbox ≡ d.outbox)

move_if-Moves :
    (e : EventType) (b : Booking) (starts_at now : ℕ) (d : Desk) (r : Result Unavailable Bool)
    → is_cancelled b.status ≡ false
    → Moves e b starts_at d (move_if b e starts_at now d r)
unfolding move_if update_booking
move_if-Moves e b starts_at now d (err x) live = (refl, refl)
move_if-Moves e b starts_at now d (ok false) live = (refl, refl)
move_if-Moves e b starts_at now d (ok true) live =
    elim (Bool-cases (any (other_collides (moved_booking b e starts_at now)) d.bookings)) [
      | inl taken ↦ rw taken (refl, refl)
      | inr free ↦ rw free (refl, refl, refl, refl, refl, refl, free, refl, live)
    ]

if-Moves :
    (c : Bool) (e : EventType) (b : Booking) (starts_at : ℕ) (d : Desk)
    (x y : Result Failure Booking × Desk)
    → Moves e b starts_at d x
    → (c ≡ false → Moves e b starts_at d y)
    → Moves e b starts_at d (if c then x else y)
if-Moves true e b starts_at d x y h k = h
if-Moves false e b starts_at d x y h k = k refl

-- A move either returns the same booking, not cancelled, at the new time and with its event type's
-- length, its id, status, management link and calendar event kept, and written over its row where
-- it collides with no other; or it raises, and no row has changed and no mail has gone out.
pub reschedule-Moves :
    (w : World) (s : Settings) (e : EventType) (b : Booking) (starts_at : ℕ) (d : Desk)
    → Moves e b starts_at d (reschedule w s e b starts_at d)
unfolding reschedule
reschedule-Moves w s e b starts_at d =
    if-Moves (is_cancelled b.status) e b starts_at d _ _ (refl, refl)
      λ live.
        move_if-Moves e b starts_at w.now
          (record d {
            cache =
                (is_bookable (record w { bookings = d.bookings }) s e starts_at (some b.id)
                  d.cache).1;
          })
          _ live
