-- ===== src/Meetings/Bots/Store.antt =====
-- Rows of meetings: `upsert_from_event` and the lists of src/services/meetings/store.py. A row
-- that is new gets the id that the table hands out.
use inbox_pilot.Prelude.{
  ℕ, suc, ◌+◌, ◌*◌, minutes, ltb, ◌==◌, ◌&&◌, ◌||◌, not, String, str_eq, Bool, true, false, Option,
  none, some, List, [], ◌∷◌, ◌++◌, map, filter, any, is_some, truthy, if◌then◌else◌,
}
use inbox_pilot.Meetings.Bots.{
  MeetingStatus, Source, BotMeeting, MeetingSettings, Event, Texts, Link, link_from_event,
  event_bounds, attendee_emails,
}

pub record Meetings : Type 0 where
  pub rows : List BotMeeting
  pub next_id : ℕ

abbrev pub is_enabled : MeetingSettings → Bool
is_enabled settings = settings.enabled && settings.auto_join

unfoldable pub list_enabled_settings : List MeetingSettings → List MeetingSettings
list_enabled_settings all_settings = filter is_enabled all_settings

abbrev pub is_pending : MeetingStatus → Bool
is_pending MeetingStatus.pending = true
is_pending other = false

abbrev pub was_cancelled : MeetingStatus → Bool
was_cancelled MeetingStatus.cancelled = true
was_cancelled other = false

abbrev pub is_active : MeetingStatus → Bool
is_active MeetingStatus.scheduled = true
is_active MeetingStatus.joining = true
is_active MeetingStatus.recording = true
is_active MeetingStatus.ended = true
is_active other = false

abbrev pub is_over : MeetingStatus → Bool
is_over MeetingStatus.failed = true
is_over MeetingStatus.cancelled = true
is_over other = false

abbrev pub is_adhoc : Source → Bool
is_adhoc Source.adhoc = true
is_adhoc other = false

abbrev pub is_id : Option String → String → Bool
is_id none event_id = false
is_id (some e) event_id = str_eq e event_id

-- The row of a user's event.
abbrev pub of_event : ℕ → String → BotMeeting → Bool
of_event user event_id m = m.user_id == user && is_id m.calendar_event_id event_id

abbrev pub url_of : Link → Option String
url_of none = none
url_of (some (url, platform)) = some url

abbrev pub platform_of : Link → Option String
platform_of none = none
platform_of (some (url, platform)) = some platform

abbrev pub text_or_empty : Option String → String
text_or_empty none = ""
text_or_empty (some t) = t

abbrev pub new_meeting : ℕ → ℕ → String → Link → ℕ → BotMeeting
new_meeting id user event_id link now = record {
  id = id;
  user_id = user;
  source = Source.calendar;
  calendar_event_id = some event_id;
  title = none;
  meeting_url = some (text_or_empty (url_of link));
  platform = platform_of link;
  starts_at = none;
  ends_at = none;
  attendees = [];
  status = MeetingStatus.pending;
  status_detail = none;
  bot_id = none;
  media_key = none;
  media_confirmed_at = none;
  created_at = now;
}

abbrev pub with_link : Link → BotMeeting → BotMeeting
with_link none m = m
with_link (some (url, platform)) m =
    if str_eq url "" then m else record m { meeting_url = some url; platform = some platform }

abbrev pub with_bounds : Option (ℕ × ℕ) → BotMeeting → BotMeeting
with_bounds none m = m
with_bounds (some (start, end)) m = record m { starts_at = some start; ends_at = some end }

abbrev pub still_ahead : Option (ℕ × ℕ) → ℕ → Bool
still_ahead none now = false
still_ahead (some (start, end)) now = ltb now start

-- A meeting that was cancelled comes back.
abbrev pub put_back : Option (ℕ × ℕ) → ℕ → BotMeeting → BotMeeting
put_back bounds now m =
    if was_cancelled m.status && still_ahead bounds now
    then record m { status = MeetingStatus.pending; bot_id = none; status_detail = none }
    else m

module _ (texts : Texts) where
  abbrev pub refreshed : Event → BotMeeting → BotMeeting
  refreshed event m = with_bounds (event_bounds texts event) (
      with_link (link_from_event texts event)
        (record m { title = event.summary; attendees = attendee_emails texts event }))

  unfoldable pub upsert_from_event : ℕ → String → Event → ℕ → Meetings → Meetings
  upsert_from_event user event_id event now db =
      if any (of_event user event_id) db.rows
      then record db {
        rows =
            map
              (λ m.
                if of_event user event_id m
                then put_back (event_bounds texts event) now (refreshed event m)
                else m)
              db.rows;
      }
      else record {
        rows =
            db.rows
            ++ (refreshed event
                  (new_meeting db.next_id user event_id (link_from_event texts event) now)
                ∷ []);
        next_id = suc db.next_id;
      }

abbrev pub not_too_late : Option ℕ → ℕ → Bool
not_too_late none now = true
not_too_late (some start) now = ltb now (start + minutes 5)

abbrev pub awaits_bot : ℕ → ℕ → BotMeeting → Bool
awaits_bot user now m =
    m.user_id == user
    && (is_pending m.status
        && (not (is_some m.bot_id)
            && ((not_too_late m.starts_at now || is_adhoc m.source) && truthy m.meeting_url)))

unfoldable pub list_awaiting_bots : ℕ → ℕ → List BotMeeting → List BotMeeting
list_awaiting_bots user now rows = filter (awaits_bot user now) rows

abbrev pub is_after : Option ℕ → ℕ → Bool
is_after none now = false
is_after (some start) now = ltb now start

abbrev pub is_upcoming : ℕ → ℕ → BotMeeting → Bool
is_upcoming user now m =
    m.user_id == user
    && (is_active m.status && (is_some m.calendar_event_id && is_after m.starts_at now))

unfoldable pub list_scheduled_upcoming : ℕ → ℕ → List BotMeeting → List BotMeeting
list_scheduled_upcoming user now rows = filter (is_upcoming user now) rows

abbrev pub abandoned_media_hours : ℕ
abandoned_media_hours = 24

abbrev pub is_abandoned : ℕ → BotMeeting → Bool
is_abandoned now m =
    is_some m.media_key
    && (not (is_some m.media_confirmed_at)
        && (ltb (m.created_at + minutes (60 * abandoned_media_hours)) now
            && not (is_over m.status)))
