-- ===== src/Meetings/Retention/Windows.antt =====
-- What src/workers/jobs/retention_sweep.py prunes, when, and what it does not.
use inbox_pilot.Prelude.{
  ℕ, ◌+◌, ◌<◌, ◌==◌, ◌≡◌, ◌≢◌, ◌⊎◌, ◌↔◌, refl, inl, inr, days, String, str_eq, true, false, not,
  Option, none, some, List, [], ◌∷◌, if◌then◌else◌, arith, Option-cases, Bool-cases, ap, ◌∙◌,
  filter,
}
use inbox_pilot.Billing.Plans.{Entitlements, get_plan}
use inbox_pilot.Billing.Rows.{Subscription}
use inbox_pilot.Billing.Access.{locked, is_entitled, resolve_access, effective_plan_id}
use inbox_pilot.Meetings.Rows.{Meeting}
use inbox_pilot.Meetings.Recording.{Provider, Bucket, resolve_recording_url}
use inbox_pilot.Meetings.Retention.{
  Storage, discard, captured_at, window_for, pruned, prune_media, prune_transcript, sweep_rows,
  Pruned, prune_user,
}

-- A locked account loses nothing: no row changes and nothing is counted.
pub locked_keeps_everything :
    (delete : Storage) (sub : Option Subscription) (u now : ℕ) (ms : List Meeting)
    → resolve_access sub now ≡ locked
    → prune_user delete sub u now ms ≡ some (record { videos = 0; transcripts = 0 }, ms)
unfolding prune_user
locked_keeps_everything delete sub u now ms h = ground arith

module _ (delete : Storage) (e : Entitlements) (u now : ℕ) (m : Meeting) where
  -- The window of a meeting: its own if it has one, else the plan's.
  abbrev pub video_window : ℕ
  video_window = window_for m.retention_video_days e.video_retention_days

  -- A row of the sweep is pruned exactly when it is the user's, has media, is older than its
  -- window, and its object, if it names one, could be deleted; any other row stays as it is.
  prune_media_iff :
      let (counted, m') = prune_media delete e u now m in
      ((counted ≡ true) ↔ (
        (m.user_id ≡ u)
        × ((m.recording_id ≢ none) ⊎ (m.media_key ≢ none))
        × (captured_at m + days video_window < now)
        × (discard delete m ≡ true)))
      × (m' ≡ (if counted then pruned now m else m))
  unfolding prune_media
  prune_media_iff = ((λ h. ground arith, λ h. ground arith), ground arith)

  -- No page view brings a pruned video back: the resolver gives no link for it and writes nothing,
  -- at any time and whatever the provider and the bucket hold.
  pruned_stays_pruned :
      (provider : Provider) (bucket : Bucket) (later : ℕ)
      → (prune_media delete e u now m).0 ≡ true
      → resolve_recording_url provider bucket (prune_media delete e u now m).1 later
        ≡ (none, (prune_media delete e u now m).1)
  unfolding prune_media resolve_recording_url
  pruned_stays_pruned provider bucket later h = ground arith

  -- A key is forgotten only when the storage has deleted its object.
  pub key_outlives_object :
      (key : String)
      → m.media_key ≡ some key
      → str_eq key "" ≡ false
      → delete key ≡ false
      → prune_media delete e u now m ≡ (false, m)
  unfolding prune_media
  key_outlives_object key h full fails = ground arith

  media_again :
      (prune_media delete e u now (prune_media delete e u now m).1).1
      ≡ (prune_media delete e u now m).1
  unfolding prune_media
  media_again = ground arith

module _ (e : Entitlements) (u now : ℕ) where
  transcript_again :
      (m : Meeting)
      → prune_transcript e u now (prune_transcript e u now m).1
        ≡ (false, (prune_transcript e u now m).1)
  unfolding prune_transcript
  transcript_again m = ground arith

  -- The loops do not stand in each other's way.
  media_after_transcript :
      (delete : Storage) (m : Meeting)
      → (prune_media delete e u now (prune_transcript e u now m).1).1
        ≡ (prune_transcript e u now (prune_media delete e u now m).1).1
  unfolding prune_transcript prune_media
  media_after_transcript delete m = ground arith

  transcript_keeps_user : (m : Meeting) → (prune_transcript e u now m).1.user_id ≡ m.user_id
  unfolding prune_transcript
  transcript_keeps_user m = ground arith

  transcript_others : (m : Meeting) → (m.user_id == u) ≡ false → (prune_transcript e u now m).1 ≡ m
  unfolding prune_transcript
  transcript_others m h = ground arith

  module _ (delete : Storage) where
    media_keeps_user : (m : Meeting) → (prune_media delete e u now m).1.user_id ≡ m.user_id
    unfolding prune_media
    media_keeps_user m = ground arith

    media_others : (m : Meeting) → (m.user_id == u) ≡ false → (prune_media delete e u now m).1 ≡ m
    unfolding prune_media
    media_others m h = ground arith

    abbrev media_pass : List Meeting → List Meeting
    media_pass ms = (sweep_rows (prune_media delete e u now) ms).1

    abbrev transcript_pass : List Meeting → List Meeting
    transcript_pass ms = (sweep_rows (prune_transcript e u now) ms).1

    abbrev both : Meeting → Meeting
    both m = (prune_transcript e u now (prune_media delete e u now m).1).1

    both_again : (m : Meeting) → (prune_media delete e u now (both m)).1 ≡ both m
    both_again m =
        media_after_transcript delete (prune_media delete e u now m).1
        ∙ ap (λ q. (prune_transcript e u now q).1) (media_again delete e u now m)

    passes_again :
        (ms : List Meeting)
        → (media_pass (transcript_pass (media_pass ms)) ≡ transcript_pass (media_pass ms))
          × (sweep_rows (prune_transcript e u now) (transcript_pass (media_pass ms))
              ≡ (0, transcript_pass (media_pass ms)))
    unfolding sweep_rows
    passes_again [] = (refl, refl)
    passes_again (m ∷ ms) =
        ground
          (arith, passes_again ms, both_again m, transcript_again (prune_media delete e u now m).1)

    pass_others :
        (ms : List Meeting)
        → filter (λ m. not (m.user_id == u)) (transcript_pass (media_pass ms))
          ≡ filter (λ m. not (m.user_id == u)) ms
    unfolding sweep_rows
    pass_others [] = refl
    pass_others (m ∷ ms) = ground (
      arith,
      pass_others ms,
      media_keeps_user m,
      media_others m,
      transcript_keeps_user (prune_media delete e u now m).1,
      transcript_others (prune_media delete e u now m).1,
    )

module _ (delete : Storage) (sub : Option Subscription) (u now : ℕ) (ms : List Meeting) where
  -- The rows of other users are the same rows in the same order after a prune.
  pub prune_user_others :
      (p : Pruned) (ms' : List Meeting)
      → prune_user delete sub u now ms ≡ some (p, ms')
      → filter (λ m. not (m.user_id == u)) ms' ≡ filter (λ m. not (m.user_id == u)) ms
  unfolding prune_user
  prune_user_others p ms' h = elim (Option-cases (get_plan (effective_plan_id sub))) [
    | inl missing ↦ ground arith
    | inr (plan, found) ↦ ground (arith, pass_others plan.entitlements u now delete ms)
  ]

  -- A second prune at the same time, with a storage that behaves the same, changes no row and
  -- finds no transcript.
  prune_user_again :
      (p : Pruned) (ms' : List Meeting)
      → prune_user delete sub u now ms ≡ some (p, ms')
      → (p' : Pruned) × (prune_user delete sub u now ms' ≡ some (p', ms')) × (p'.transcripts ≡ 0)
  unfolding prune_user
  prune_user_again p ms' h = elim (Bool-cases (is_entitled (resolve_access sub now))) [
    | inr no_access ↦ (record { videos = 0; transcripts = 0 }, ground arith, refl)
    | inl access ↦ elim (Option-cases (get_plan (effective_plan_id sub))) [
      | inl missing ↦ ground arith
      | inr (plan, found) ↦ (
        record {
          videos = (sweep_rows (prune_media delete plan.entitlements u now) ms').0;
          transcripts = 0;
        },
        ground (arith, passes_again plan.entitlements u now delete ms),
        refl,
      )
    ]
  ]
