-- ===== src/Meetings/Recording.antt =====
-- A playable link to a meeting's video: src/services/meetings/recording.py. The meeting-bot
-- provider and the bucket are arguments; `none` from either is the error that the code catches.
pub mod Links
use inbox_pilot.Prelude.{
  ℕ, ◌+◌, ltb, ◌&&◌, ◌||◌, minutes, String, Bool, true, false, not, Option, none, some, contains,
  truthy, is_some, if◌then◌else◌,
}
use inbox_pilot.Meetings.Rows.{Meeting, media_ready_statuses}

-- What the provider knows of a recording.
pub record Media : Type 0 where
  pub recording_id : Option String
  pub video_url : Option String
  pub expires_at : Option ℕ

abbrev pub Provider : Type 0
Provider = String → Option Media

-- A signed link to an object, and when it dies.
abbrev pub Bucket : Type 0
Bucket = String → Option (String × ℕ)

abbrev pub freshness_margin : ℕ
freshness_margin = minutes 5

-- `expires_at - FRESHNESS_MARGIN > now`
abbrev pub is_fresh : Option ℕ → ℕ → Bool
is_fresh none now = false
is_fresh (some expires_at) now = ltb (now + freshness_margin) expires_at

cache_own : Meeting → Option (String × ℕ) → Option String × Meeting
cache_own m none = (none, m)
cache_own m (some (url, expires_at)) =
    (some url, record m { recording_url = some url; recording_url_expires_at = some expires_at })

-- `presign_get` on the meeting's key.
unfoldable pub resolve_own_media : Bucket → Meeting → Option String → Option String × Meeting
unfolding cache_own
resolve_own_media bucket m none = (none, m)
resolve_own_media bucket m (some key) = cache_own m (bucket key)

-- The recording id is written once; a link that came replaces the cached one.
unfoldable pub cache_media : Meeting → Option Media → Option String × Meeting
cache_media m none = (none, m)
cache_media m (some media) = (
  media.video_url,
  record m {
    recording_id =
        if truthy media.recording_id && not (truthy m.recording_id)
        then media.recording_id
        else m.recording_id;
    recording_url = if truthy media.video_url then media.video_url else m.recording_url;
    recording_url_expires_at =
        if truthy media.video_url then media.expires_at else m.recording_url_expires_at;
  },
)

unfoldable pub fetch_media : Provider → Meeting → Option String → Option String × Meeting
unfolding cache_media
fetch_media provider m none = (none, m)
fetch_media provider m (some bot_id) = cache_media m (provider bot_id)

unfoldable pub resolve_recording_url : Provider → Bucket → Meeting → ℕ → Option String × Meeting
resolve_recording_url provider bucket m now =
    if is_some m.recording_pruned_at
    then (none, m)
    else if truthy m.recording_url && is_fresh m.recording_url_expires_at now
    then (m.recording_url, m)
    else if is_some m.media_confirmed_at && truthy m.media_key
    then resolve_own_media bucket m m.media_key
    else if not (truthy m.bot_id) || not (contains m.status media_ready_statuses)
    then (none, m)
    else fetch_media provider m m.bot_id
