-- ===== src/Meetings/Bots/Sweep.antt =====
-- Bots that are booked and recalled: src/workers/jobs/meetings_sweep.py over the queries of
-- src/services/meetings/store.py. The meeting bot's provider is an argument.
use inbox_pilot.Prelude.{
  ℕ, suc, ◌-◌, ◌*◌, second, leb, ◌==◌, ◌||◌, String, str_eq, Bool, true, false, Option, none, some,
  List, [], ◌∷◌, ◌++◌, map, find?, contains, is_some, truthy, DateTime, Result, err, ok,
  if◌then◌else◌,
}
use inbox_pilot.Billing.Rows.{Subscription}
use inbox_pilot.Billing.Usage.{Table}
use inbox_pilot.Billing.Entitlements.{Reason, Decision, CheckError, check, feature_meeting_bot}
use inbox_pilot.Meetings.Bots.{
  MeetingStatus, BotMeeting, MeetingSettings, Event, Texts, skip_reason,
}
use inbox_pilot.Meetings.Bots.Store.{
  Meetings, upsert_from_event, list_awaiting_bots, list_scheduled_upcoming, is_abandoned,
}

-- `schedule_bot` is given the meeting, the bot's name and when it joins, and `none` is a
-- MeetingBotError.
pub record Provider : Type 0 where
  pub schedule_bot : BotMeeting → String → Option ℕ → Option String

-- What the provider was asked.
pub data BotCall : Type 0 where
  scheduling : (meeting_id : ℕ) (join_at : Option ℕ) → BotCall
  cancelling : (bot_id : String) → BotCall

module _ (texts : Texts) where
  -- The events that have an id, and the rows of those that are not skipped.
  abbrev pub tracked_id : Option String → MeetingSettings → Event → ℕ → Meetings → Meetings
  tracked_id none settings event now db = db
  tracked_id (some event_id) settings event now db =
      if str_eq event_id "" || is_some (skip_reason texts event settings now)
      then db
      else upsert_from_event texts settings.user_id event_id event now db

  abbrev pub track : List Event → MeetingSettings → ℕ → Meetings → Meetings
  track [] settings now db = db
  track (e ∷ es) settings now db = track es settings now (tracked_id e.id settings e now db)

abbrev pub seen_id : Option String → List String → List String
seen_id none seen = seen
seen_id (some id) seen = if str_eq id "" then seen else id ∷ seen

abbrev pub seen_ids : List Event → List String
seen_ids [] = []
seen_ids (e ∷ es) = seen_id e.id (seen_ids es)

-- `max(starts_at - lead, now)`
abbrev pub join_time : Option ℕ → ℕ → Option ℕ
join_time none now = none
join_time (some start) now =
    some (if leb (start - second * 60) now then now else start - second * 60)

abbrev pub booked_as : BotMeeting → Option String → Bool × BotMeeting
booked_as m none = (false, m)
booked_as m (some bot) =
    (true, record m { bot_id = some bot; status = MeetingStatus.scheduled; status_detail = none })

-- `_book_bot`
unfoldable pub book_bot : Provider → BotMeeting → String → ℕ → Bool × BotMeeting
book_bot provider m bot_name now =
    booked_as m (provider.schedule_bot m bot_name (join_time m.starts_at now))

-- `_recall_bot`, but for the call.
abbrev pub recalled : BotMeeting → BotMeeting
recalled m = record m {
  status = MeetingStatus.cancelled;
  status_detail = some "calendar event removed";
}

abbrev pub recall_calls : Option String → List BotCall
recall_calls none = []
recall_calls (some bot) = if str_eq bot "" then [] else cancelling bot ∷ []

-- A row is written over the one of its id.
abbrev pub put : BotMeeting → List BotMeeting → List BotMeeting
put m rows = map (λ (r : BotMeeting). if r.id == m.id then m else r) rows

abbrev pub was_seen : List String → Option String → Bool
was_seen seen none = false
was_seen seen (some event_id) = contains event_id seen

-- What a pass leaves; `raised` is an exception of a check.
pub record Sweep : Type 0 where
  pub rows : List BotMeeting
  pub counters : Table
  pub calls : List BotCall
  pub booked : ℕ
  pub cancelled : ℕ
  pub raised : Bool

module _ (provider : Provider) (subs : List Subscription) (user : ℕ) (bot_name : String)
    (now : DateTime) where
  abbrev pub booking : BotMeeting → Bool × BotMeeting → Sweep → Sweep
  booking m (done, m') s = record {
    rows = put m' s.rows;
    counters = s.counters;
    calls = s.calls ++ (scheduling m.id (join_time m.starts_at now.instant) ∷ []);
    booked = if done then suc s.booked else s.booked;
    cancelled = s.cancelled;
    raised = s.raised;
  }

  abbrev pub if_allowed : BotMeeting → Result CheckError Decision → Sweep → (Sweep → Sweep) → Sweep
  if_allowed m (err raised) s rest = record s { raised = true }
  if_allowed m (ok decision) s rest =
      if decision.allowed then rest (booking m (book_bot provider m bot_name now.instant) s) else s

  -- The bots of the meetings that await one, up to the first that is withheld.
  unfoldable pub book_each : List BotMeeting → Sweep → Sweep
  book_each [] s = s
  book_each (m ∷ ms) s =
      let (answer, counters) = check subs user feature_meeting_bot none now s.counters in
      if_allowed m answer (record s { counters = counters }) (λ s'. book_each ms s')

  abbrev pub recall_each : List String → List BotMeeting → Sweep → Sweep
  recall_each seen [] s = s
  recall_each seen (m ∷ ms) s =
      let gone = record s {
        rows = put (recalled m) s.rows;
        calls = s.calls ++ recall_calls m.bot_id;
        cancelled = suc s.cancelled;
      } in
      if was_seen seen m.calendar_event_id then recall_each seen ms s else recall_each seen ms gone

  abbrev pub recalling : List String → Sweep → Sweep
  recalling seen s =
      if s.raised then s else recall_each seen (list_scheduled_upcoming user now.instant s.rows) s

-- What the user's pass leaves, and the id of the next row.
module _ (texts : Texts) (provider : Provider) (subs : List Subscription) (now : DateTime) where
  -- `_sweep_user`, with the events that the calendar gave.
  unfoldable pub sweep_user :
      MeetingSettings → List Event → Meetings → Table → List BotCall → Sweep × ℕ
  sweep_user settings events db counters calls =
      let user = settings.user_id in
      let tracked = track texts events settings now.instant db in
      let booked =
        book_each provider subs user settings.bot_name now
          (list_awaiting_bots user now.instant tracked.rows)
          (record {
            rows = tracked.rows;
            counters = counters;
            calls = calls;
            booked = 0;
            cancelled = 0;
            raised = false;
          }) in
      (recalling provider subs user settings.bot_name now (seen_ids events) booked, tracked.next_id)

  abbrev pub withheld : Option Reason → Option String
  withheld none = some "bot withheld: None"
  withheld (some Reason.locked) = some "bot withheld: locked"
  withheld (some Reason.quota_exhausted) = some "bot withheld: quota_exhausted"
  withheld (some Reason.not_in_plan) = some "bot withheld: not_in_plan"

  -- `_join_now` on a row, with what the check said and the bot's name in the user's settings.
  abbrev pub joined_with :
      String → Result CheckError Decision → BotMeeting → BotMeeting × List BotCall
  joined_with bot_name (err raised) m = (m, [])
  joined_with bot_name (ok decision) m =
      if decision.allowed
      then (
        (book_bot provider m bot_name now.instant).1,
        scheduling m.id (join_time m.starts_at now.instant) ∷ [],
      )
      else (record m { status_detail = withheld decision.reason }, [])

  abbrev pub joined_row :
      BotMeeting
      → BotMeeting × List BotCall
      → List BotMeeting
      → Table
      → List BotMeeting × Table × List BotCall
  joined_row m (m', calls) rows counters = (put m' rows, counters, calls)

  abbrev pub join_found :
      String → Option BotMeeting → List BotMeeting → Table → List BotMeeting × Table × List BotCall
  join_found bot_name none rows counters = (rows, counters, [])
  join_found bot_name (some m) rows counters =
      let (answer, counters') = check subs m.user_id feature_meeting_bot none now counters in
      if truthy m.bot_id
      then (rows, counters, [])
      else joined_row m (joined_with bot_name answer m) rows counters'

  unfoldable pub join_now :
      String → ℕ → List BotMeeting → Table → List BotMeeting × Table × List BotCall
  join_now bot_name meeting_id rows counters =
      join_found bot_name (find? (λ (m : BotMeeting). m.id == meeting_id) rows) rows counters

-- `_expire_abandoned_media`: the row fails whether its object could be deleted or not.
unfoldable pub expire_abandoned_media : ℕ → List BotMeeting → List BotMeeting
expire_abandoned_media now rows =
    map
      (λ m.
        if is_abandoned now m
        then record m {
          status = MeetingStatus.failed;
          status_detail = some "upload never completed";
        }
        else m)
      rows
