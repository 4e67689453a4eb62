-- ===== src/Invites.antt =====
-- Who may sign up: src/services/auth/invites.py, over the rows of src/models/invites.py. `lower` is
-- `str.lower`.
pub mod First
use inbox_pilot.Prelude.{
  ℕ, ◌&&◌, Bool, not, Option, some, none, List, [], ◌∷◌, map, any, is_some, strip, text_eq,
  if◌then◌else◌,
}

pub record InvitedEmail : Type 0 where
  pub email : List ℕ
  pub claimed_at : Option ℕ
  pub claimed_by_user_id : Option ℕ

abbrev pub normalize_email : (List ℕ → List ℕ) → List ℕ → List ℕ
normalize_email lower raw = lower (strip raw)

unfoldable pub is_invited : (List ℕ → List ℕ) → List InvitedEmail → List ℕ → Bool
is_invited lower rows email =
    any (λ (r : InvitedEmail). text_eq r.email (normalize_email lower email)) rows

-- What the UPDATE does to a row.
abbrev pub claim_row : List ℕ → ℕ → ℕ → InvitedEmail → InvitedEmail
claim_row email user_id now r =
    if text_eq r.email email && not (is_some r.claimed_at)
    then record r { claimed_at = some now; claimed_by_user_id = some user_id }
    else r

unfoldable pub claim : (List ℕ → List ℕ) → List ℕ → ℕ → ℕ → List InvitedEmail → List InvitedEmail
claim lower email user_id now rows = map (claim_row (normalize_email lower email) user_id now) rows
