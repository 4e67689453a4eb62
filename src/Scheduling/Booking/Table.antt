-- ===== src/Scheduling/Booking/Table.antt =====
-- The table of bookings under requests: src/services/scheduling/booking.py.
use inbox_pilot.Prelude.{
  ℕ, ◌≡◌, ◌≢◌, refl, String, Bool, true, false, Option, none, some, List, [], ◌∷◌, ◌++◌, any, All,
  ◌∙◌, Result, ok, err, arith, if◌then◌else◌, Bool-cases, inl, inr,
}
use inbox_pilot.Scheduling.Bookings.{
  Settings, EventType, Booking, is_live, collide, other_collides, insert_booking, update_booking,
}
use inbox_pilot.Scheduling.Bookings.Exclusion.{
  NoOverlap, put-NoOverlap, update-NoOverlap, idle_clear, append-NoOverlap,
}
use inbox_pilot.Scheduling.Questions.{Question, Invalid, Answers, validate}
use inbox_pilot.Scheduling.Availability.{World, Unavailable}
use inbox_pilot.Scheduling.Booking.{
  Failure, Desk, Form, Created, event, refused, new_booking, failed_booking, confirmed_booking,
  finish, reserve, accept, create_if, move_if, create, cancelled_booking, is_cancelled, cancel,
  moved_booking, move, reschedule,
}

cancel-NoOverlap :
    (b : Booking) (by : String) (reason : Option (List ℕ)) (now : ℕ) (d : Desk)
    → NoOverlap d.bookings
    → NoOverlap (cancel b by reason now d).1.bookings
unfolding cancel
cancel-NoOverlap b by reason now d h = elim (Bool-cases (is_cancelled b.status)) [
  | inl gone ↦ rw gone h
  | inr live ↦ rw live (
      put-NoOverlap _ d.bookings h (idle_clear (cancelled_booking b by reason now) d.bookings refl))
]

move-NoOverlap :
    (b : Booking) (d : Desk) (r : Option (List Booking))
    → NoOverlap d.bookings
    → update_booking b d.bookings ≡ r
    → NoOverlap (move b d r).1.bookings
unfolding move
move-NoOverlap b d none h e = h
move-NoOverlap b d (some rows) h e = update-NoOverlap b d.bookings rows h e

-- A row collides with what its pending form collided with: the confirmation moves nothing.
confirmed_collides :
    (b : Booking) (i j h u : Option String) (rows : List Booking)
    → is_live b.status ≡ true
    → any (other_collides (confirmed_booking b i j h u)) rows ≡ any (other_collides b) rows
unfolding collide
confirmed_collides b i j h u [] live = refl
confirmed_collides b i j h u (r ∷ rows) live =
    ground (arith, confirmed_collides b i j h u rows live)

collides_append_self :
    (b : Booking) (rows : List Booking)
    → any (other_collides b) rows ≡ false
    → any (other_collides b) (rows ++ b ∷ []) ≡ false
unfolding collide
collides_append_self b [] free = ground arith
collides_append_self b (r ∷ rows) free = ground (arith, collides_append_self b rows (ground arith))

module _ (s : Settings) (b : Booking) (live : is_live b.status ≡ true) where
  finish-NoOverlap :
      (created : Created) (d : Desk)
      → NoOverlap d.bookings
      → any (other_collides b) d.bookings ≡ false
      → NoOverlap (finish s b created d).1.bookings
  unfolding finish
  finish-NoOverlap (refused reason) d h free =
      put-NoOverlap (failed_booking b reason) d.bookings h
        (idle_clear (failed_booking b reason) d.bookings refl)
  finish-NoOverlap (event i j k u) d h free =
      put-NoOverlap (confirmed_booking b i j k u) d.bookings h
        (confirmed_collides b i j k u d.bookings live ∙ free)

  reserve-NoOverlap :
      (created : Created) (d : Desk)
      → NoOverlap d.bookings
      → All (λ r. r.id ≢ b.id) d.bookings
      → NoOverlap (reserve s b created d (insert_booking b d.bookings)).1.bookings
  unfolding reserve insert_booking
  reserve-NoOverlap created d h new = elim (Bool-cases (any (other_collides b) d.bookings)) [
    | inl taken ↦ rw taken h
    | inr free ↦ rw free (
        finish-NoOverlap created _ (append-NoOverlap b d.bookings h new free)
          (collides_append_self b d.bookings free))
  ]

module _ (s : Settings) (e : EventType) (questions : List Question) (f : Form) (id : ℕ)
    (token : String) (created : Created) (d : Desk) (h : NoOverlap d.bookings)
    (new : All (λ (r : Booking). r.id ≢ id) d.bookings) where
  accept-NoOverlap :
      (r : Result Invalid Answers)
      → NoOverlap (accept s e questions f id token created d r).1.bookings
  unfolding accept
  accept-NoOverlap (err x) = h
  accept-NoOverlap (ok cleaned) =
      reserve-NoOverlap s (new_booking s e questions f cleaned id token) refl created d h new

  create_if-NoOverlap :
      (r : Result Unavailable Bool)
      → NoOverlap (create_if s e questions f id token created d r).1.bookings
  unfolding create_if
  create_if-NoOverlap (err x) = h
  create_if-NoOverlap (ok false) = h
  create_if-NoOverlap (ok true) = accept-NoOverlap (validate questions f.answers)

move_if-NoOverlap :
    (b : Booking) (e : EventType) (starts_at now : ℕ) (d : Desk) (r : Result Unavailable Bool)
    → NoOverlap d.bookings
    → NoOverlap (move_if b e starts_at now d r).1.bookings
unfolding move_if
move_if-NoOverlap b e starts_at now d (err x) h = h
move_if-NoOverlap b e starts_at now d (ok false) h = h
move_if-NoOverlap b e starts_at now d (ok true) h =
    move-NoOverlap (moved_booking b e starts_at now) d _ h refl

-- One request to the booking page, with what the outside world answers it.
pub data Request : Type 0 where
  book : World → Settings → EventType → List Question → Form → String → Created → Request
  call_off : Booking → String → Option (List ℕ) → ℕ → Request
  shift : World → Settings → EventType → Booking → ℕ → Request

-- `id` is the new row's, where the request makes one.
unfoldable pub serve : ℕ → Request → Desk → Desk
serve id (book w s e questions f token created) d = (create w s e questions f id token created d).1
serve id (call_off b by reason now) d = (cancel b by reason now d).1
serve id (shift w s e b starts_at) d = (reschedule w s e b starts_at d).1

if-NoOverlap :
    (c : Bool) (x y : Result Failure Booking × Desk)
    → NoOverlap x.1.bookings
    → NoOverlap y.1.bookings
    → NoOverlap (if c then x else y).1.bookings
if-NoOverlap true x y h k = h
if-NoOverlap false x y h k = k

-- No request makes a double booking: whether it books, cancels or moves, and whatever the
-- calendar, the zone database and Google answer, a table in which no two live bookings of one host
-- overlap is such a table afterwards. The id of a new booking is one that no row has.
pub serve-NoOverlap :
    (id : ℕ) (r : Request) (d : Desk)
    → NoOverlap d.bookings
    → All (λ b. b.id ≢ id) d.bookings
    → NoOverlap (serve id r d).bookings
unfolding serve create reschedule
serve-NoOverlap id (book w s e questions f token created) d h new =
    create_if-NoOverlap s e questions f id token created _ h new _
serve-NoOverlap id (call_off b by reason now) d h new = cancel-NoOverlap b by reason now d h
serve-NoOverlap id (shift w s e b starts_at) d h new =
    if-NoOverlap (is_cancelled b.status) _ _ h (move_if-NoOverlap b e starts_at w.now _ _ h)
