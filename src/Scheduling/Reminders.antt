-- ===== src/Scheduling/Reminders.antt =====
-- Reminders of meetings that are about to start: src/workers/jobs/scheduling_reminders.py. The
-- hosts' settings and users, the zone database and Gmail are arguments.
pub mod Once
use inbox_pilot.Prelude.{
  ℕ, ◌+◌, leb, ◌&&◌, ◌||◌, minutes, String, Bool, true, false, not, Option, none, some, List, [],
  ◌∷◌, ◌++◌, is_some, filter, if◌then◌else◌,
}
use inbox_pilot.Scheduling.Slots.{Zone}
use inbox_pilot.Scheduling.Bookings.{Booking, is_live}

abbrev pub lead_minutes : ℕ
lead_minutes = 60

abbrev pub stale_after_minutes : ℕ
stale_after_minutes = 30

-- The columns of SchedulingSettings that the sweep reads.
pub record Profile : Type 0 where
  pub timezone : String
  pub reschedule_reminders : Bool

pub record Outside : Type 0 where
  pub profile : ℕ → Option Profile
  pub has_user : ℕ → Bool
  pub timezone_for : String → Option Zone
  pub send : Booking → Bool

-- The rows that the query selects.
unfoldable pub is_due : ℕ → Booking → Bool
is_due now b =
    not (is_some b.reminder_sent_at)
    && (is_live b.status
        && (leb b.starts_at (now + minutes lead_minutes)
            && leb now (b.starts_at + minutes stale_after_minutes)))

abbrev pub reminded : Booking → ℕ → Booking
reminded b now = record b { reminder_sent_at = some now }

abbrev sent_by : Outside → Booking → Option Zone → Option (List ℕ)
sent_by o b none = none
sent_by o b (some tz) = some (if o.send b then b.id ∷ [] else [])

-- The ids of the bookings whose guest got mail, of a due one; `none` is an unknown time zone.
unfoldable pub mail_for : Outside → Booking → Option Profile → Option (List ℕ)
mail_for o b none = some []
mail_for o b (some p) =
    if not (o.has_user b.user_id) || not p.reschedule_reminders
    then some []
    else sent_by o b (o.timezone_for p.timezone)

-- The loop over the due rows: the rows as they are at the commit, or `none` if an exception leaves
-- the loop; and the mail that was sent.
pub record Swept : Type 0 where
  pub rows : Option (List Booking)
  pub mailed : List ℕ

abbrev keep_row : Booking → Option (List Booking) → Option (List Booking)
keep_row b none = none
keep_row b (some rows) = some (b ∷ rows)

unfoldable pub after_mail : ℕ → Booking → Option (List ℕ) → Swept → Swept
after_mail now b none rest = record { rows = none; mailed = [] }
after_mail now b (some ids) rest = record {
  rows = keep_row (reminded b now) rest.rows;
  mailed = ids ++ rest.mailed;
}

unfoldable pub sweep : Outside → ℕ → List Booking → Swept
sweep o now [] = record { rows = some []; mailed = [] }
sweep o now (b ∷ rows) =
    let rest = sweep o now rows in
    if is_due now b
    then after_mail now b (mail_for o b (o.profile b.user_id)) rest
    else record { rows = keep_row b rest.rows; mailed = rest.mailed }
