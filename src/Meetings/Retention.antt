-- ===== src/Meetings/Retention.antt =====
-- The retention windows: src/workers/jobs/retention_sweep.py, with `discard` of
-- src/services/meetings/media.py. Whether the storage deletes an object is an argument.
pub mod Windows
pub mod Locked
use inbox_pilot.Prelude.{
  ℕ, suc, ◌+◌, ◌==◌, ltb, ◌&&◌, ◌||◌, days, String, str_eq, Bool, true, false, not, Option, none,
  some, List, [], ◌∷◌, truthy, is_some, if◌then◌else◌,
}
use inbox_pilot.Billing.Plans.{Entitlements, Plan, get_plan}
use inbox_pilot.Billing.Rows.{Subscription, get_subscription}
use inbox_pilot.Billing.Access.{is_entitled, resolve_access, effective_plan_id}
use inbox_pilot.Meetings.Rows.{Meeting}

-- Whether the storage's `delete` of a key returns, and does not raise.
abbrev pub Storage : Type 0
Storage = String → Bool

-- Whether the bytes are now gone.
abbrev pub discard : Storage → Meeting → Bool
discard delete m = elim m.media_key [
  | none ↦ true
  | some key ↦ if str_eq key "" then true else delete key
]

abbrev pub captured_at : Meeting → ℕ
captured_at m = elim m.starts_at [ none ↦ m.created_at | some t ↦ t ]

-- `now - captured > timedelta(days=window_days)`
abbrev pub past_window : Meeting → ℕ → ℕ → Bool
past_window m window_days now = ltb (captured_at m + days window_days) now

abbrev pub window_for : Option ℕ → ℕ → ℕ
window_for none plan_days = plan_days
window_for (some own_days) plan_days = own_days

abbrev pub pruned : ℕ → Meeting → Meeting
pruned now m = record m {
  recording_id = none;
  recording_url = none;
  recording_url_expires_at = none;
  recording_pruned_at = some now;
  media_key = if truthy m.media_key then none else m.media_key;
  media_confirmed_at = if truthy m.media_key then none else m.media_confirmed_at;
}

-- The rows that the first query selects.
abbrev pub has_media : ℕ → Meeting → Bool
has_media user_id m = m.user_id == user_id && (is_some m.recording_id || is_some m.media_key)

-- One row of the first loop: whether it is counted, and the row after it.
unfoldable pub prune_media : Storage → Entitlements → ℕ → ℕ → Meeting → Bool × Meeting
prune_media delete e user_id now m =
    if not (has_media user_id m)
    then (false, m)
    else if not (past_window m (window_for m.retention_video_days e.video_retention_days) now)
    then (false, m)
    else if not (discard delete m)
    then (false, m)
    else (true, pruned now m)

-- One row of the second loop.
unfoldable pub prune_transcript : Entitlements → ℕ → ℕ → Meeting → Bool × Meeting
prune_transcript e user_id now m =
    if not (m.user_id == user_id && is_some m.transcript)
    then (false, m)
    else if not
        (past_window m (window_for m.retention_transcript_days e.transcript_retention_days) now)
    then (false, m)
    else (true, record m { transcript = none })

-- A loop over the rows: how many it counted, and the rows after it.
unfoldable pub sweep_rows : (Meeting → Bool × Meeting) → List Meeting → ℕ × List Meeting
sweep_rows f [] = (0, [])
sweep_rows f (m ∷ ms) =
    let (n, ms') = sweep_rows f ms in
    let (counted, m') = f m in (if counted then n + 1 else n, m' ∷ ms')

-- `{"videos": ..., "transcripts": ...}`
pub record Pruned : Type 0 where
  pub videos : ℕ
  pub transcripts : ℕ

prune_with : Storage → Entitlements → ℕ → ℕ → List Meeting → Pruned × List Meeting
prune_with delete e user_id now ms =
    let (videos, ms') = sweep_rows (prune_media delete e user_id now) ms in
    let (transcripts, ms'') = sweep_rows (prune_transcript e user_id now) ms' in
    (record { videos = videos; transcripts = transcripts }, ms'')

prune_plan : Storage → Option Plan → ℕ → ℕ → List Meeting → Option (Pruned × List Meeting)
unfolding prune_with
prune_plan delete none user_id now ms = none
prune_plan delete (some plan) user_id now ms =
    some (prune_with delete plan.entitlements user_id now ms)

-- `none` is the KeyError of a plan that is not in the catalogue.
unfoldable pub prune_user :
    Storage → Option Subscription → ℕ → ℕ → List Meeting → Option (Pruned × List Meeting)
unfolding prune_plan
prune_user delete sub user_id now ms =
    if is_entitled (resolve_access sub now)
    then prune_plan delete (get_plan (effective_plan_id sub)) user_id now ms
    else some (record { videos = 0; transcripts = 0 }, ms)

-- What the sweep returns: `{"users": ..., "videos": ..., "transcripts": ...}`
pub record Swept : Type 0 where
  pub users : ℕ
  pub videos : ℕ
  pub transcripts : ℕ

-- A prune that raises counts for nothing and leaves the rows.
abbrev pub after_prune :
    Option (Pruned × List Meeting) → Swept × List Meeting → Swept × List Meeting
after_prune none (n, ms) = (record n { users = suc n.users }, ms)
after_prune (some (p, ms')) (n, ms) = (
  record {
    users = suc n.users;
    videos = n.videos + p.videos;
    transcripts = n.transcripts + p.transcripts;
  },
  ms',
)

abbrev pub prune_each :
    Storage → List Subscription → ℕ → List ℕ → Swept × List Meeting → Swept × List Meeting
prune_each delete subs now [] st = st
prune_each delete subs now (u ∷ us) (n, ms) =
    prune_each delete subs now us
      (after_prune (prune_user delete (get_subscription subs u) u now ms) (n, ms))

-- `_sweep`, over the ids of all users.
unfoldable pub sweep_retention :
    Storage → List Subscription → ℕ → List ℕ → List Meeting → Swept × List Meeting
sweep_retention delete subs now users ms =
    prune_each delete subs now users (record { users = 0; videos = 0; transcripts = 0 }, ms)
