-- ===== src/Meetings/Bots/Job.antt =====
-- The pass over the users: `_sweep` of src/workers/jobs/meetings_sweep.py. What the table of users
-- and the calendar answer, and when a user's pass begins, are an argument.
use inbox_pilot.Prelude.{
  ℕ, suc, ◌+◌, Bool, Option, none, some, List, [], ◌∷◌, filter, length, DateTime, if◌then◌else◌,
}
use inbox_pilot.Billing.Rows.{Subscription}
use inbox_pilot.Billing.Usage.{Table}
use inbox_pilot.Meetings.Bots.{MeetingSettings, Event, Texts}
use inbox_pilot.Meetings.Bots.Store.{Meetings, list_enabled_settings, is_abandoned}
use inbox_pilot.Meetings.Bots.Sweep.{Provider, BotCall, Sweep, sweep_user, expire_abandoned_media}

-- `list_events` is `none` where the calendar raises.
pub record Outside : Type 0 where
  pub has_user : ℕ → Bool
  pub list_events : ℕ → Option (List Event)
  pub clock : ℕ → DateTime

-- The tables, what the provider was asked, and the counts that the job returns.
pub record Job : Type 0 where
  pub db : Meetings
  pub counters : Table
  pub calls : List BotCall
  pub users : ℕ
  pub scheduled : ℕ
  pub cancelled : ℕ
  pub abandoned : ℕ

-- A pass that raised counts for nothing, and what it wrote stays.
abbrev pub after_user : Sweep × ℕ → Job → Job
after_user (s, next_id) job = record {
  db = record { rows = s.rows; next_id = next_id };
  counters = s.counters;
  calls = s.calls;
  users = suc job.users;
  scheduled = if s.raised then job.scheduled else job.scheduled + s.booked;
  cancelled = if s.raised then job.cancelled else job.cancelled + s.cancelled;
  abandoned = job.abandoned;
}

module _ (texts : Texts) (provider : Provider) (subs : List Subscription) (outside : Outside) where
  abbrev pub swept_user : MeetingSettings → Option (List Event) → Job → Job
  swept_user settings none job = record job { users = suc job.users }
  swept_user settings (some events) job =
      after_user
        (sweep_user texts provider subs (outside.clock settings.user_id) settings events job.db
          job.counters job.calls)
        job

  abbrev pub sweep_each : List MeetingSettings → Job → Job
  sweep_each [] job = job
  sweep_each (settings ∷ more) job = sweep_each more (
      if outside.has_user settings.user_id
      then swept_user settings (outside.list_events settings.user_id) job
      else job)

  abbrev pub expired : ℕ → Job → Job
  expired now job = record job {
    db = record { rows = expire_abandoned_media now job.db.rows; next_id = job.db.next_id };
    abandoned = length (filter (is_abandoned now) job.db.rows);
  }

  -- `_sweep`, up to its commit.
  unfoldable pub sweep_all : ℕ → List MeetingSettings → Meetings → Table → List BotCall → Job
  sweep_all now all_settings db counters calls = expired now (
      sweep_each (list_enabled_settings all_settings) (record {
        db = db;
        counters = counters;
        calls = calls;
        users = 0;
        scheduled = 0;
        cancelled = 0;
        abandoned = 0;
      }))
