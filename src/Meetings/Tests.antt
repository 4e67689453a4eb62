-- ===== src/Meetings/Tests.antt =====
-- Recordings and retention on two meetings.
use inbox_pilot.Prelude.{
  ℕ, ◌+◌, ◌<◌, ◌≡◌, ◌≢◌, ◌⊎◌, refl, minutes, days, String, Bool, true, false, DateTime, ok, All,
  subst, sym, Option, none, some, List, [], ◌∷◌, contains,
}
use inbox_pilot.Billing.Plans.{get_plan}
use inbox_pilot.Billing.Rows.{Subscription, new_subscription, get_subscription}
use inbox_pilot.Billing.Access.{resolve_access, effective_plan_id}
use inbox_pilot.Meetings.Rows.{Meeting, media_ready_statuses}
use inbox_pilot.Meetings.Recording.{Media, resolve_recording_url, resolve_own_media}
use inbox_pilot.Meetings.Recording.Links.{link_source}
use inbox_pilot.Meetings.Retention.{
  pruned, prune_media, prune_transcript, prune_user, sweep_rows, sweep_retention,
}
use inbox_pilot.Meetings.Retention.Locked.{rows_of, sweep_retention-Spares}
use inbox_pilot.Billing.Usage.{
  Table, new_counter, get_or_create_counter, select_counter, insert_counter, is_for,
}
use inbox_pilot.Billing.Entitlements.{Decision, allow, check, feature_meeting_bot}
use inbox_pilot.Meetings.Bots.{MeetingStatus, Source, BotMeeting, MeetingSettings, Texts}
use inbox_pilot.Meetings.Bots.Store.{
  list_scheduled_upcoming, list_enabled_settings, list_awaiting_bots,
}
use inbox_pilot.Meetings.Bots.Job.{Outside, Job, sweep_all}
use inbox_pilot.Meetings.Bots.Sweep.{book_bot, Provider, Sweep, book_each, sweep_user, join_now}
use inbox_pilot.Meetings.Bots.Booked.{PrefixCalled, book_each-Prefix}
use inbox_pilot.Meetings.Bots.Cleared.{book_each-Clears}
use inbox_pilot.Meetings.Bots.Tracked.{IsSound}
use inbox_pilot.Meetings.Bots.Sound.{Step, Reach, Reach-IsSound}

abbrev meeting_of : ℕ → Meeting
meeting_of user_id = record {
  user_id = user_id;
  starts_at = some 0;
  created_at = 0;
  status = "delivered";
  bot_id = some "bot";
  recording_id = none;
  recording_url = none;
  recording_url_expires_at = none;
  recording_pruned_at = none;
  media_key = some "object";
  media_confirmed_at = some 0;
  retention_video_days = some 7;
  retention_transcript_days = none;
  transcript = some "words";
}

abbrev m : Meeting
m = meeting_of 1

abbrev active : Option Subscription
active = some (record (new_subscription 1) { status = "active" })

-- Four hundred days on.
abbrev late : ℕ
late = days 400

abbrev deletes : String → Bool
deletes key = true

abbrev provider : String → Option Media
provider bot = some (record {
  recording_id = some "r";
  video_url = some "https://v";
  expires_at = some (minutes 60);
})

abbrev bucket : String → Option (String × ℕ)
bucket key = some ("https://b", minutes 60)

link_source_example :
    (m.recording_pruned_at ≡ none)
    × (((m.recording_url ≡ some "https://b")
          × ((t : ℕ) × (m.recording_url_expires_at ≡ some t) × (0 + minutes 5 < t)))
        ⊎ ((m.media_confirmed_at ≢ none)
            × ((key : String) × (t : ℕ) × (m.media_key ≡ some key)
                × (bucket key ≡ some ("https://b", t))))
        ⊎ ((contains m.status media_ready_statuses ≡ true)
            × ((bot : String) × (media : Media) × (m.bot_id ≡ some bot)
                × (provider bot ≡ some media)
                × (media.video_url ≡ some "https://b"))))
unfolding resolve_recording_url resolve_own_media
link_source_example = link_source provider bucket m 0 "https://b" refl

abbrev gone : Meeting
gone = record (pruned late m) { transcript = none }

abbrev rows : List Meeting
rows = m ∷ meeting_of 2 ∷ []

abbrev rows_left : List Meeting
rows_left = gone ∷ meeting_of 2 ∷ []

abbrev paying : List Subscription
paying = record (new_subscription 1) { status = "active"; current_period_end = some (days 9) } ∷ []

swept_rows :
    sweep_retention deletes paying late (1 ∷ 2 ∷ []) rows
    ≡ (record { users = 2; videos = 1; transcripts = 1 }, rows_left)
unfolding sweep_retention prune_user prune_media prune_transcript sweep_rows resolve_access
    get_subscription effective_plan_id get_plan
swept_rows = refl

sweep_retention-Spares_example :
    rows_of 2 (sweep_retention deletes paying late (1 ∷ 2 ∷ []) rows).1 ≡ rows_of 2 rows
unfolding resolve_access get_subscription
sweep_retention-Spares_example = sweep_retention-Spares deletes paying late 2 (1 ∷ 2 ∷ []) rows refl

abbrev september : DateTime
september = record { instant = minutes 60; year = 2025; month = 9 }

abbrev unused : Table
unused = record { rows = new_counter 0 1 (2025, 9) ∷ []; next_id = 1 }

abbrev bot_provider : Provider
bot_provider = record { schedule_bot = λ meeting bot_name join_at. some "bot" }

abbrev waiting : ℕ → BotMeeting
waiting id = record {
  id = id;
  user_id = 1;
  source = Source.calendar;
  calendar_event_id = some "event";
  title = none;
  meeting_url = some "https://meet.google.com/abc";
  platform = some "google_meet";
  starts_at = some (minutes 70);
  ends_at = some (minutes 100);
  attendees = [];
  status = MeetingStatus.pending;
  status_detail = none;
  bot_id = none;
  media_key = none;
  media_confirmed_at = none;
  created_at = 0;
}

abbrev pass : Sweep
pass = record {
  rows = waiting 1 ∷ waiting 2 ∷ [];
  counters = unused;
  calls = [];
  booked = 0;
  cancelled = 0;
  raised = false;
}

book_each-Prefix_example :
    PrefixCalled bot_provider paying 1 "Notetaker" september
      (list_awaiting_bots 1 (minutes 60) pass.rows)
      pass
      (book_each bot_provider paying 1 "Notetaker" september
        (list_awaiting_bots 1 (minutes 60) pass.rows)
        pass)
book_each-Prefix_example = book_each-Prefix bot_provider paying 1 "Notetaker" september pass

-- The counter of the month is there, so that a check leaves the table as it is.
IsUnused : Table → Type 0
IsUnused t = t ≡ unused

IsUnused-allows :
    (t : Table)
    → IsUnused t
    → (d : Decision) × ((check paying 1 feature_meeting_bot none september t).0 ≡ ok d)
      × (d.allowed ≡ true)
      × IsUnused (check paying 1 feature_meeting_bot none september t).1
unfolding IsUnused check resolve_access get_subscription get_plan effective_plan_id
    get_or_create_counter select_counter insert_counter is_for
IsUnused-allows t e =
    subst
      (λ t'.
        (d : Decision) × ((check paying 1 feature_meeting_bot none september t').0 ≡ ok d)
        × (d.allowed ≡ true)
        × IsUnused (check paying 1 feature_meeting_bot none september t').1)
      (sym e) (allow, refl, refl, refl)

book_each-Clears_example :
    list_awaiting_bots 1
      (minutes 60)
      (book_each bot_provider paying 1 "Notetaker" september
        (list_awaiting_bots 1 (minutes 60) pass.rows)
        pass).rows
    ≡ []
unfolding IsUnused
book_each-Clears_example =
    book_each-Clears bot_provider paying 1 "Notetaker" september IsUnused pass
      (λ meeting join_at. ("bot", refl), IsUnused-allows) refl

abbrev no_texts : Texts
no_texts = record {
  find_link = λ text. none;
  instant = λ text. none;
  in_title = λ needle title. false;
}

abbrev notetaker : MeetingSettings
notetaker = record {
  user_id = 1;
  enabled = true;
  auto_join = true;
  bot_name = "Notetaker";
  min_attendees = 2;
  skip_titles = [];
  lookahead_minutes = 30;
}

abbrev outside : Outside
outside = record {
  has_user = λ user_id. true;
  list_events = λ user_id. some [];
  clock = λ user_id. september;
}

abbrev joined_rows : List BotMeeting
joined_rows =
    (join_now no_texts bot_provider paying september "Notetaker" 1 (waiting 1 ∷ []) unused).0

abbrev job : Job
job =
    sweep_all no_texts bot_provider paying outside (minutes 60) (notetaker ∷ [])
      (record { rows = joined_rows; next_id = 2 }) unused []

-- An immediate join, and a sweep with an empty calendar, which recalls the bot.
two_steps : Reach no_texts bot_provider paying (waiting 1 ∷ []) job.db.rows
two_steps =
    Reach.next (Reach.next Reach.here (Step.joined september "Notetaker" 1 (waiting 1 ∷ []) unused))
      (Step.swept outside (minutes 60) (notetaker ∷ []) (record { rows = joined_rows; next_id = 2 })
        unused [])

counted : (job.users ≡ 1) × (job.cancelled ≡ 1)
unfolding join_now book_bot sweep_all sweep_user book_each list_awaiting_bots
    list_scheduled_upcoming list_enabled_settings check resolve_access get_subscription get_plan
    effective_plan_id get_or_create_counter select_counter insert_counter is_for
counted = (refl, refl)

Reach-IsSound_example : All IsSound job.db.rows
Reach-IsSound_example = Reach-IsSound no_texts bot_provider paying (refl, tt) two_steps
