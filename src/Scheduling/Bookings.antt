-- ===== src/Scheduling/Bookings.antt =====
-- The rows of src/models/scheduling.py and their queries in src/services/scheduling/store.py. The
-- table of bookings is in the order of insertion; Postgres checks the exclusion constraint at a
-- flush.
pub mod Exclusion
use inbox_pilot.Prelude.{
  ℕ, suc, ◌+◌, ◌==◌, ltb, leb, ◌&&◌, String, Bool, true, false, not, Option, none, some, List, [],
  ◌∷◌, ◌++◌, map, filter, any, length, if◌then◌else◌,
}
use inbox_pilot.Scheduling.Slots.{Interval, HoursWindow}

pub data Status : Type 0 where
  pending confirmed cancelled failed : Status

-- `status in LIVE_STATUSES`: the booking holds its slot.
abbrev pub is_live : Status → Bool
is_live pending = true
is_live confirmed = true
is_live _ = false

pub record Settings : Type 0 where
  pub user_id : ℕ
  pub timezone : String
  pub weekly_hours : List HoursWindow
  pub confirmation_email : Bool

pub record EventType : Type 0 where
  pub id : ℕ
  pub name : String
  pub duration_minutes : ℕ
  pub slot_interval_minutes : ℕ
  pub minimum_notice_minutes : ℕ
  pub booking_horizon_days : ℕ
  pub buffer_before_minutes : ℕ
  pub buffer_after_minutes : ℕ
  pub max_bookings_per_day : Option ℕ

pub record Booking : Type 0 where
  pub id : ℕ
  pub user_id : ℕ
  pub event_type_id : Option ℕ
  pub starts_at : ℕ
  pub ends_at : ℕ
  pub booker_name : String
  pub booker_email : String
  pub attendee_emails : List String
  pub title : String
  pub notes : Option String
  pub answers : List (String × List ℕ)
  pub status : Status
  pub calendar_event_id : Option String
  pub meeting_url : Option String
  pub failure_reason : Option (List ℕ)
  pub management_token : String
  pub cancelled_at : Option ℕ
  pub cancelled_by : Option String
  pub cancel_reason : Option (List ℕ)
  pub rescheduled_at : Option ℕ
  pub reminder_sent_at : Option ℕ

-- `tstzrange(...) && tstzrange(...)`: half-open ranges, of which an empty one meets none.
abbrev pub ranges_meet : Booking → Booking → Bool
ranges_meet a b =
    ltb a.starts_at b.ends_at
    && (ltb b.starts_at a.ends_at && (ltb a.starts_at a.ends_at && ltb b.starts_at b.ends_at))

-- What `scheduling_bookings_no_overlap` forbids of two rows.
unfoldable pub collide : Booking → Booking → Bool
collide a b = a.user_id == b.user_id && (is_live a.status && (is_live b.status && ranges_meet a b))

abbrev pub other_collides : Booking → Booking → Bool
other_collides b r = not (r.id == b.id) && collide b r

unfoldable pub put_booking : Booking → List Booking → List Booking
put_booking b [] = []
put_booking b (r ∷ rows) = (if r.id == b.id then b else r) ∷ put_booking b rows

-- INSERT and UPDATE under the constraint; `none` is the IntegrityError.
unfoldable pub insert_booking : Booking → List Booking → Option (List Booking)
insert_booking b rows = if any (other_collides b) rows then none else some (rows ++ b ∷ [])

unfoldable pub update_booking : Booking → List Booking → Option (List Booking)
update_booking b rows = if any (other_collides b) rows then none else some (put_booking b rows)

abbrev pub is_excluded : Option ℕ → Booking → Bool
is_excluded none b = false
is_excluded (some id) b = b.id == id

unfoldable pub live_bookings_between : List Booking → ℕ → ℕ → ℕ → Option ℕ → List Interval
live_bookings_between rows user_id starts_after ends_before exclude_id =
    map (λ (b : Booking). (b.starts_at, b.ends_at))
      (filter
        (λ b.
          b.user_id == user_id
          && (is_live b.status
              && (ltb b.starts_at ends_before
                  && (ltb starts_after b.ends_at && not (is_excluded exclude_id b)))))
        rows)

abbrev has_event_type : ℕ → Option ℕ → Bool
has_event_type id none = false
has_event_type id (some j) = j == id

unfoldable pub count_bookings_on : List Booking → ℕ → ℕ → ℕ → ℕ → Option ℕ → ℕ
count_bookings_on rows user_id event_type_id day_start day_end exclude_id = length (
    filter
      (λ b.
        b.user_id == user_id
        && (has_event_type event_type_id b.event_type_id
            && (is_live b.status
                && (leb day_start b.starts_at
                    && (ltb b.starts_at day_end && not (is_excluded exclude_id b))))))
      rows)
