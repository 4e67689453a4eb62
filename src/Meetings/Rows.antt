-- ===== src/Meetings/Rows.antt =====
-- The columns of src/models/meetings.py that the modelled code reads or writes, and its statuses.
use inbox_pilot.Prelude.{ℕ, String, Option, List, [], ◌∷◌}

abbrev pub status_recorded : String
status_recorded = "recorded"

abbrev pub media_ready_statuses : List String
media_ready_statuses = status_recorded ∷ "processed" ∷ "delivered" ∷ []

pub record Meeting : Type 0 where
  pub user_id : ℕ
  pub starts_at : Option ℕ
  pub created_at : ℕ
  pub status : String
  pub bot_id : Option String
  pub recording_id : Option String
  pub recording_url : Option String
  pub recording_url_expires_at : Option ℕ
  pub recording_pruned_at : Option ℕ
  pub media_key : Option String
  pub media_confirmed_at : Option ℕ
  pub retention_video_days : Option ℕ
  pub retention_transcript_days : Option ℕ
  pub transcript : Option String
