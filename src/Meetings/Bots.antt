-- ===== src/Meetings/Bots.antt =====
-- Which meetings the notetaker attends: src/services/meetings/rules.py, with the link of an event
-- (src/services/meetings/links.py), and the columns of src/models/meetings.py that it goes by.
-- The patterns of the links, `datetime.fromisoformat` and `str.casefold` are an argument.
pub mod Store
pub mod Sweep
pub mod Job
pub mod Tracked
pub mod Sound
pub mod Booked
pub mod Cleared
use inbox_pilot.Prelude.{
  ℕ, ◌+◌, ◌-◌, minutes, ltb, ◌&&◌, ◌||◌, not, String, str_eq, Bool, true, false, Option, none, some,
  List, [], ◌∷◌, length, is_some, truthy, nonempty, if◌then◌else◌,
}

pub data MeetingStatus : Type 0 where
  pending scheduled joining recording ended recorded processed delivered failed cancelled :
      MeetingStatus

pub data Source : Type 0 where
  calendar adhoc upload live : Source

pub record BotMeeting : Type 0 where
  pub id : ℕ
  pub user_id : ℕ
  pub source : Source
  pub calendar_event_id : Option String
  pub title : Option String
  pub meeting_url : Option String
  pub platform : Option String
  pub starts_at : Option ℕ
  pub ends_at : Option ℕ
  pub attendees : List String
  pub status : MeetingStatus
  pub status_detail : Option String
  pub bot_id : Option String
  pub media_key : Option String
  pub media_confirmed_at : Option ℕ
  pub created_at : ℕ

pub record MeetingSettings : Type 0 where
  pub user_id : ℕ
  pub enabled : Bool
  pub auto_join : Bool
  pub bot_name : String
  pub min_attendees : ℕ
  pub skip_titles : List String
  pub lookahead_minutes : ℕ

pub record Attendee : Type 0 where
  pub email : Option String
  pub response_status : Option String
  pub resource : Bool

pub record EntryPoint : Type 0 where
  pub entry_point_type : Option String
  pub uri : Option String
  pub entry_label : Option String

-- A calendar event as Google gives it.
pub record Event : Type 0 where
  pub id : Option String
  pub status : Option String
  pub start : Option String
  pub end : Option String
  pub attendees : List Attendee
  pub summary : Option String
  pub location : Option String
  pub description : Option String
  pub hangout_link : Option String
  pub entry_points : List EntryPoint

-- `find_link` is the first link in a text that is not empty, with its platform; `instant` is what
-- `fromisoformat` makes of a text whose Z is an offset; `in_title` is whether the title, in case
-- folded, holds a text.
pub record Texts : Type 0 where
  pub find_link : String → Option (String × String)
  pub instant : String → Option ℕ
  pub in_title : String → String → Bool

abbrev pub Link : Type 0
Link = Option (String × String)

abbrev pub first_link : Link → Link → Link
first_link none other = other
first_link (some l) other = some l

-- Why the bot stays away.
pub data SkipReason : Type 0 where
  notetaker_disabled auto_join_off event_cancelled all_day already_started outside_window no_link :
      SkipReason
  too_few_attendees : ℕ → SkipReason
  skipped_title : String → SkipReason

module _ (texts : Texts) where
  unfoldable pub find_meeting_link : Option String → Link
  find_meeting_link none = none
  find_meeting_link (some t) = if str_eq t "" then none else texts.find_link t

  abbrev pub is_video : Option String → Bool
  is_video none = true
  is_video (some kind) = str_eq kind "video"

  abbrev pub uri_or_label : EntryPoint → Option String
  uri_or_label e = if truthy e.uri then e.uri else e.entry_label

  abbrev pub link_from_entries : List EntryPoint → Link
  link_from_entries [] = none
  link_from_entries (e ∷ es) =
      let rest = link_from_entries es in
      if is_video e.entry_point_type
      then first_link (find_meeting_link (uri_or_label e)) rest
      else rest

  unfoldable pub link_from_event : Event → Link
  link_from_event event = first_link (find_meeting_link event.hangout_link) (
      first_link (link_from_entries event.entry_points) (
        first_link (find_meeting_link event.location)
          (first_link (find_meeting_link event.description) (find_meeting_link event.summary))))

  abbrev pub both_instants : Option ℕ → Option ℕ → Option (ℕ × ℕ)
  both_instants none b = none
  both_instants (some a) none = none
  both_instants (some a) (some b) = some (a, b)

  -- What a text that may be missing or empty says.
  abbrev pub instant_of : Option String → Option ℕ
  instant_of none = none
  instant_of (some t) = if str_eq t "" then none else texts.instant t

  unfoldable pub event_bounds : Event → Option (ℕ × ℕ)
  event_bounds event = both_instants (instant_of event.start) (instant_of event.end)

  abbrev pub declined : Option String → Bool
  declined none = false
  declined (some s) = str_eq s "declined"

  abbrev pub with_email : Option String → List String → List String
  with_email none rest = rest
  with_email (some e) rest = if str_eq e "" then rest else e ∷ rest

  abbrev pub emails_of : List Attendee → List String
  emails_of [] = []
  emails_of (a ∷ more) =
      let rest = emails_of more in
      if declined a.response_status || a.resource then rest else with_email a.email rest

  unfoldable pub attendee_emails : Event → List String
  attendee_emails event = emails_of event.attendees

  abbrev pub title_of : Option String → String
  title_of none = ""
  title_of (some t) = t

  abbrev pub title_rule : String → List String → Option SkipReason
  title_rule title [] = none
  title_rule title (needle ∷ needles) =
      let rest = title_rule title needles in
      if not (str_eq needle "") && texts.in_title needle title
      then some (skipped_title needle)
      else rest

  abbrev pub is_cancelled : Option String → Bool
  is_cancelled none = false
  is_cancelled (some s) = str_eq s "cancelled"

  abbrev pub in_time : Event → MeetingSettings → ℕ → Option (ℕ × ℕ) → Option SkipReason
  in_time event settings now none = some all_day
  in_time event settings now (some (start, end)) =
      if ltb (start + minutes 5) now
      then some already_started
      else if ltb (now + minutes settings.lookahead_minutes) start
      then some outside_window
      else if not (is_some (link_from_event event))
      then some no_link
      else if ltb (length (attendee_emails event)) settings.min_attendees
      then some (too_few_attendees settings.min_attendees)
      else title_rule (title_of event.summary) settings.skip_titles

  unfoldable pub skip_reason : Event → MeetingSettings → ℕ → Option SkipReason
  skip_reason event settings now =
      if not settings.enabled
      then some notetaker_disabled
      else if not settings.auto_join
      then some auto_join_off
      else if is_cancelled event.status
      then some event_cancelled
      else in_time event settings now (event_bounds event)
