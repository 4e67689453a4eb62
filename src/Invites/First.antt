-- ===== src/Invites/First.antt =====
-- Claims that follow each other: src/services/auth/invites.py.
use inbox_pilot.Prelude.{ℕ, ◌≡◌, refl, List, [], ◌∷◌, arith}
use inbox_pilot.Invites.{InvitedEmail, is_invited, claim, claim_row, normalize_email}

row_again :
    (email : List ℕ) (u v now later : ℕ) (r : InvitedEmail)
    → claim_row email v later (claim_row email u now r) ≡ claim_row email u now r
row_again email u v now later r = ground arith

row_address :
    (email : List ℕ) (u now : ℕ) (r : InvitedEmail) → (claim_row email u now r).email ≡ r.email
row_address email u now r = ground arith

-- A second claim of an address, by whomever and whenever, leaves every row as the first left it,
-- and a claim makes no address more or less invited than it was.
first_claim_kept :
    (lower : List ℕ → List ℕ) (email other : List ℕ) (u v now later : ℕ) (rows : List InvitedEmail)
    → (claim lower email v later (claim lower email u now rows) ≡ claim lower email u now rows)
      × (is_invited lower (claim lower email u now rows) other ≡ is_invited lower rows other)
unfolding claim is_invited
first_claim_kept lower email other u v now later [] = (refl, refl)
first_claim_kept lower email other u v now later (r ∷ rows) =
    let (same, answer) = first_claim_kept lower email other u v now later rows in
    rw
      (
        row_again (normalize_email lower email) u v now later r,
        row_address (normalize_email lower email) u now r,
        same,
        answer,
      )
      (refl, refl)
