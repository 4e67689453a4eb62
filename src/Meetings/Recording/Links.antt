-- ===== src/Meetings/Recording/Links.antt =====
-- What src/services/meetings/recording.py hands out and what it writes.
use inbox_pilot.Prelude.{
  ℕ, ◌+◌, ◌<◌, ◌≡◌, ◌≢◌, ◌⊎◌, inl, inr, minutes, String, str_eq, true, false, none, some, contains,
  truthy, arith, Option-cases,
}
use inbox_pilot.Meetings.Rows.{Meeting, media_ready_statuses}
use inbox_pilot.Meetings.Recording.{
  Media, Provider, Bucket, resolve_own_media, fetch_media, resolve_recording_url,
}

module _ (provider : Provider) (bucket : Bucket) (m : Meeting) (now : ℕ) where
  -- The recording id, once set, is never overwritten.
  pub recording_id_durable :
      truthy m.recording_id ≡ true
      → (resolve_recording_url provider bucket m now).1.recording_id ≡ m.recording_id
  unfolding resolve_recording_url resolve_own_media fetch_media
  recording_id_durable h = ground arith

  own_source :
      (url : String)
      → (resolve_own_media bucket m m.media_key).0 ≡ some url
      → (key : String) × (t : ℕ) × (m.media_key ≡ some key) × (bucket key ≡ some (url, t))
  unfolding resolve_own_media
  own_source url h = elim (Option-cases m.media_key) [
    | inl none_set ↦ ground arith
    | inr (key, k) ↦ elim (Option-cases (bucket key)) [
      | inl refused ↦ ground arith
      | inr ((url', t), signed) ↦ (key, t, k, ground arith)
    ]
  ]

  fetched_source :
      (url : String)
      → (fetch_media provider m m.bot_id).0 ≡ some url
      → (bot : String) × (media : Media) × (m.bot_id ≡ some bot)
        × (provider bot ≡ some media)
        × (media.video_url ≡ some url)
  unfolding fetch_media
  fetched_source url h = elim (Option-cases m.bot_id) [
    | inl none_set ↦ ground arith
    | inr (bot, b) ↦ elim (Option-cases (provider bot)) [
      | inl refused ↦ ground arith
      | inr (media, known) ↦ (bot, media, b, known, ground arith)
    ]
  ]

  -- A link that is handed out is the cached one, with more than five minutes to live, or it was
  -- signed just now by the bucket for confirmed media, or it came just now from the provider of a
  -- meeting whose media is ready. None of them is of a pruned meeting.
  pub link_source :
      (url : String)
      → (resolve_recording_url provider bucket m now).0 ≡ some url
      → (m.recording_pruned_at ≡ none)
        × (((m.recording_url ≡ some url)
              × ((t : ℕ) × (m.recording_url_expires_at ≡ some t) × (now + minutes 5 < t)))
            ⊎ ((m.media_confirmed_at ≢ none)
                × ((key : String) × (t : ℕ) × (m.media_key ≡ some key)
                    × (bucket key ≡ some (url, t))))
            ⊎ ((contains m.status media_ready_statuses ≡ true)
                × ((bot : String) × (media : Media) × (m.bot_id ≡ some bot)
                    × (provider bot ≡ some media)
                    × (media.video_url ≡ some url))))
  unfolding resolve_recording_url
  link_source url h = (ground arith, ground (arith, own_source url, fetched_source url))

  link_cached :
      (url : String)
      → (resolve_recording_url provider bucket m now).0 ≡ some url
      → str_eq url "" ≡ false
      → ((resolve_recording_url provider bucket m now).1.recording_pruned_at ≡ none)
        × ((resolve_recording_url provider bucket m now).1.recording_url ≡ some url)
  unfolding resolve_recording_url resolve_own_media fetch_media
  link_cached url h full = (ground arith, ground arith)

module _ (provider : Provider) (bucket : Bucket) where
  cached_link :
      (m : Meeting) (url : String) (t later : ℕ)
      → m.recording_pruned_at ≡ none
      → m.recording_url ≡ some url
      → str_eq url "" ≡ false
      → m.recording_url_expires_at ≡ some t
      → later + minutes 5 < t
      → resolve_recording_url provider bucket m later ≡ (some url, m)
  unfolding resolve_recording_url
  cached_link m url t later kept link full expiry alive = ground arith

  -- Asking again while the link lives longer than the margin gives the same link and writes
  -- nothing.
  resolve_again :
      (m : Meeting) (url : String) (now t later : ℕ)
      → (resolve_recording_url provider bucket m now).0 ≡ some url
      → str_eq url "" ≡ false
      → (resolve_recording_url provider bucket m now).1.recording_url_expires_at ≡ some t
      → later + minutes 5 < t
      → resolve_recording_url provider bucket (resolve_recording_url provider bucket m now).1 later
        ≡ (some url, (resolve_recording_url provider bucket m now).1)
  resolve_again m url now t later found full expiry alive =
      let (kept, link) = link_cached provider bucket m now url found full in
      cached_link _ url t later kept link full expiry alive
