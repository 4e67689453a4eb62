-- ===== src/Mailman/Tick.antt =====
-- The job that releases held mail: src/workers/jobs/mailman_tick.py, with the query of
-- src/services/mailman/store.py. The mailbox and the zone database are arguments. An exception that
-- leaves the loop rolls back the rows, and nothing else: mail that was moved stays moved.
pub mod Once
pub mod Rollback
use inbox_pilot.Prelude.{
  ℕ, ◌+◌, ◌*◌, ◌==◌, find?, map, ltb, second, String, Bool, true, false, not, Option, none, some,
  List, [], ◌∷◌, length, filter, if◌then◌else◌,
}
use inbox_pilot.Mailman.Scheduler.{MailmanSettings, is_delivery_due}

-- What a pass asks of the outside. `local` is the wall clock at an instant, in UTC if the zone is
-- unknown; `held_message_ids` is `none`, and `release` false, where the call raises.
pub record Mailbox : Type 0 where
  pub local : String → ℕ → ℕ
  pub held_message_ids : ℕ → Option (List String)
  pub release : ℕ → List String → Bool

-- A batch that Gmail moved back to a user's inbox.
pub record Batch : Type 0 where
  pub user_id : ℕ
  pub message_ids : List String

-- How a pass over some rows ended: the rows, or `none` if it raised; and what it released.
pub record Pass : Type 0 where
  pub rows : Option (List MailmanSettings)
  pub released : List Batch

-- `settings.last_delivery_at = now_utc`
abbrev pub stamp : MailmanSettings → ℕ → MailmanSettings
stamp s now = record {
  user_id = s.user_id;
  is_active = s.is_active;
  timezone = s.timezone;
  delivery_mode = s.delivery_mode;
  interval_hours = s.interval_hours;
  interval_minutes = s.interval_minutes;
  times_per_day = s.times_per_day;
  custom_times = s.custom_times;
  active_window_start = s.active_window_start;
  active_window_end = s.active_window_end;
  dnd_enabled = s.dnd_enabled;
  dnd_start = s.dnd_start;
  dnd_end = s.dnd_end;
  last_delivery_at = some now;
}

-- A batch was handed out less than 90 seconds ago.
abbrev pub just_delivered : MailmanSettings → ℕ → Bool
just_delivered s now = elim s.last_delivery_at [
  | none ↦ false
  | some last ↦ ltb now (last + second * 90)
]

abbrev batch_of : Mailbox → ℕ → List String → List Batch
batch_of mail user_id [] = []
batch_of mail user_id (m ∷ ms) =
    if mail.release user_id (m ∷ ms)
    then (record { user_id = user_id; message_ids = m ∷ ms }) ∷ []
    else []

abbrev deliver : Mailbox → ℕ → MailmanSettings → Option (List String) → MailmanSettings × List Batch
deliver mail now s none = (s, [])
deliver mail now s (some message_ids) = (stamp s now, batch_of mail s.user_id message_ids)

-- One turn of the loop; `none` is an exception that leaves it.
unfoldable pub tick_row : Mailbox → ℕ → MailmanSettings → Option (MailmanSettings × List Batch)
tick_row mail now s =
    if just_delivered s now
    then some (s, [])
    else elim (is_delivery_due s (mail.local s.timezone now) now) [
      | none ↦ none
      | some false ↦ some (s, [])
      | some true ↦ some (deliver mail now s (mail.held_message_ids s.user_id))
    ]

append_batches : List Batch → List Batch → List Batch
append_batches [] l = l
append_batches (b ∷ k) l = b ∷ append_batches k l

-- A turn, and the pass over the rows behind it, which does not begin if the turn raised.
unfoldable pub after_row : Option (MailmanSettings × List Batch) → Pass → Pass
unfolding append_batches
after_row none p = record { rows = none; released = [] }
after_row (some r) p = record {
  rows = elim p.rows [ none ↦ none | some rows ↦ some (r.0 ∷ rows) ];
  released = append_batches r.1 p.released;
}

unfoldable pub tick_rows : Mailbox → ℕ → List MailmanSettings → Pass
tick_rows mail now [] = record { rows = some []; released = [] }
tick_rows mail now (s ∷ rest) = after_row (tick_row mail now s) (tick_rows mail now rest)

-- `list_active_settings`
abbrev pub list_active_settings : List MailmanSettings → List MailmanSettings
list_active_settings table = filter (λ s. s.is_active) table

abbrev written : List MailmanSettings → MailmanSettings → MailmanSettings
written rows s = elim (find? (λ r. r.user_id == s.user_id) rows) [ none ↦ s | some r ↦ r ]

abbrev commit : List MailmanSettings → Option (List MailmanSettings) → List MailmanSettings
commit table none = table
commit table (some rows) = map (written rows) table

-- `_tick`: the table, and what was released.
unfoldable pub tick : Mailbox → ℕ → List MailmanSettings → List MailmanSettings × List Batch
tick mail now table =
    let p = tick_rows mail now (list_active_settings table) in (commit table p.rows, p.released)
