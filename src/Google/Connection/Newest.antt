-- ===== src/Google/Connection/Newest.antt =====
-- Refreshes that land in any order: `_persist_refreshed` of
-- src/integrations/google/credentials.py.
use inbox_pilot.Prelude.{
  ℕ, leb, ◌≡◌, refl, ◌∙◌, ap, ◌⊎◌, inl, inr, String, Bool, true, false, Option, none, some, List,
  [], ◌∷◌, find?, All, nonempty, Bool-cases, arith,
}
use inbox_pilot.Google.Crypto.{Cipher}
use inbox_pilot.Google.Connection.{
  GoogleConnection, RefreshedToken, of_user, at_user, is_older, refreshed_row, rotated_row,
  persist_refreshed,
}

-- What a process writes when its refresh returns.
pub record Refresh : Type 0 where
  pub token : RefreshedToken
  pub expiry : ℕ
  pub scopes : Option (List (List ℕ))

-- The refreshes of a user in the order in which they land.
abbrev pub persist_all :
    Cipher → String → List Refresh → List GoogleConnection → List GoogleConnection
persist_all cipher user [] rows = rows
persist_all cipher user (w ∷ ws) rows =
    persist_all cipher user ws (persist_refreshed cipher user w.token w.expiry w.scopes rows)

abbrev persisted_row : Cipher → Refresh → GoogleConnection → GoogleConnection
persisted_row cipher w r =
    rotated_row cipher w.token.refresh_token (refreshed_row cipher w.token w.expiry w.scopes r)

-- The row that a user's row became.
abbrev rows_after : Cipher → List Refresh → GoogleConnection → GoogleConnection
rows_after cipher [] r = r
rows_after cipher (w ∷ ws) r = rows_after cipher ws (persisted_row cipher w r)

refreshed-user :
    (cipher : Cipher) (w : Refresh) (r : GoogleConnection)
    → (refreshed_row cipher w.token w.expiry w.scopes r).user_id ≡ r.user_id
refreshed-user cipher w r = elim (Bool-cases (is_older w.expiry r.token_expiry)) [
  | inl older ↦ rw older refl
  | inr newer ↦ rw newer refl
]

rotated_user :
    (cipher : Cipher) (token : Option (List ℕ)) (r : GoogleConnection)
    → (rotated_row cipher token r).user_id ≡ r.user_id
rotated_user cipher none r = refl
rotated_user cipher (some t) r = elim (Bool-cases (nonempty t)) [
  | inl full ↦ rw full refl
  | inr empty ↦ rw empty refl
]

find?-at_user :
    (user : String) (f : GoogleConnection → GoogleConnection) (rows : List GoogleConnection)
    (r : GoogleConnection)
    → ((q : GoogleConnection) → (f q).user_id ≡ q.user_id)
    → find? (of_user user) rows ≡ some r
    → find? (of_user user) (at_user user f rows) ≡ some (f r)
find?-at_user user f [] r keeps e = absurd (ground arith)
find?-at_user user f (q ∷ rows) r keeps e = elim (Bool-cases (of_user user q)) [
  | inl mine ↦
      (let e' : some q ≡ some r = rw mine at e in
        let same : q ≡ r = cc in
        let here : of_user user (f q) ≡ true = rw (keeps q) mine in
        rw (mine, here) (ap (λ (x : GoogleConnection). some (f x)) same))
  | inr other ↦ rw (other, other) (find?-at_user user f rows r keeps (rw other at e))
]

persist_all-row :
    (cipher : Cipher) (user : String) (ws : List Refresh) (rows : List GoogleConnection)
    (r : GoogleConnection)
    → find? (of_user user) rows ≡ some r
    → find? (of_user user) (persist_all cipher user ws rows) ≡ some (rows_after cipher ws r)
unfolding persist_refreshed
persist_all-row cipher user [] rows r e = e
persist_all-row cipher user (w ∷ ws) rows r e =
    persist_all-row cipher user ws _ (persisted_row cipher w r) (
      find?-at_user user _ _ _ (rotated_user cipher w.token.refresh_token)
        (find?-at_user user _ rows r (refreshed-user cipher w) e))

-- A row's expiry is there, and not before an instant.
abbrev pub reaches : ℕ → Option ℕ → Bool
reaches expiry none = false
reaches expiry (some at) = leb expiry at

-- The token and the expiry of a row are those of one of the refreshes.
abbrev pub OneOf : Cipher → GoogleConnection → List Refresh → Type 0
OneOf cipher r [] = ⊥
OneOf cipher r (w ∷ ws) =
    ((r.access_token ≡ some (cipher.seal w.token.access_token)) × (r.token_expiry ≡ some w.expiry))
    ⊎ OneOf cipher r ws

-- What a rotation of the refresh token leaves.
rotated_rest :
    (cipher : Cipher) (token : Option (List ℕ)) (r : GoogleConnection)
    → ((rotated_row cipher token r).access_token ≡ r.access_token)
      × ((rotated_row cipher token r).token_expiry ≡ r.token_expiry)
rotated_rest cipher none r = (refl, refl)
rotated_rest cipher (some t) r = elim (Bool-cases (nonempty t)) [
  | inl full ↦ rw full (refl, refl)
  | inr empty ↦ rw empty (refl, refl)
]

-- A refresh is taken over, with its expiry, or the row has a later one already.
persisted_cases :
    (cipher : Cipher) (w : Refresh) (r : GoogleConnection)
    → (((persisted_row cipher w r).access_token ≡ some (cipher.seal w.token.access_token))
        × ((persisted_row cipher w r).token_expiry ≡ some w.expiry)
        × (is_older w.expiry r.token_expiry ≡ true))
      ⊎ (((persisted_row cipher w r).access_token ≡ r.access_token)
          × ((persisted_row cipher w r).token_expiry ≡ r.token_expiry)
          × (is_older w.expiry r.token_expiry ≡ false))
persisted_cases cipher w r =
    let (access, expiry) =
      rotated_rest cipher w.token.refresh_token
        (refreshed_row cipher w.token w.expiry w.scopes r) in
    elim (Bool-cases (is_older w.expiry r.token_expiry)) [
      | inl older ↦ inl (access ∙ rw older refl, expiry ∙ rw older refl, older)
      | inr newer ↦ inr (access ∙ rw newer refl, expiry ∙ rw newer refl, newer)
    ]

older_or_reaches : (e : ℕ) (at : Option ℕ) → is_older e at ≡ false → reaches e at ≡ true
older_or_reaches e none h = absurd (ground arith)
older_or_reaches e (some at) h = ground arith

older-reaches :
    (e e' : ℕ) (at : Option ℕ) → is_older e at ≡ true → reaches e' at ≡ true → leb e' e ≡ true
older-reaches e e' none h k = absurd (ground arith)
older-reaches e e' (some at) h k = ground arith

persisted-reaches :
    (cipher : Cipher) (w : Refresh) (r : GoogleConnection)
    → reaches w.expiry (persisted_row cipher w r).token_expiry ≡ true
persisted-reaches cipher w r = elim (persisted_cases cipher w r) [
  | inl (access, expiry, older) ↦ rw expiry (ground arith)
  | inr (access, expiry, newer) ↦ rw expiry (older_or_reaches w.expiry r.token_expiry newer)
]

persisted-keeps :
    (cipher : Cipher) (w : Refresh) (r : GoogleConnection) (e : ℕ)
    → reaches e r.token_expiry ≡ true
    → reaches e (persisted_row cipher w r).token_expiry ≡ true
persisted-keeps cipher w r e h = elim (persisted_cases cipher w r) [
  | inl (access, expiry, older) ↦ rw expiry (older-reaches w.expiry e r.token_expiry older h)
  | inr (access, expiry, newer) ↦ rw expiry h
]

rows_after-keeps :
    (cipher : Cipher) (ws : List Refresh) (r : GoogleConnection) (e : ℕ)
    → reaches e r.token_expiry ≡ true
    → reaches e (rows_after cipher ws r).token_expiry ≡ true
rows_after-keeps cipher [] r e h = h
rows_after-keeps cipher (w ∷ ws) r e h =
    rows_after-keeps cipher ws (persisted_row cipher w r) e (persisted-keeps cipher w r e h)

rows_after-reaches :
    (cipher : Cipher) (ws : List Refresh) (r : GoogleConnection)
    → All (λ (w : Refresh). reaches w.expiry (rows_after cipher ws r).token_expiry ≡ true) ws
rows_after-reaches cipher [] r = tt
rows_after-reaches cipher (w ∷ ws) r = (
  rows_after-keeps cipher ws (persisted_row cipher w r) w.expiry (persisted-reaches cipher w r),
  rows_after-reaches cipher ws (persisted_row cipher w r),
)

-- Where the token of a row comes from.
abbrev pub Origin : Cipher → GoogleConnection → List Refresh → GoogleConnection → Type 0
Origin cipher r ws r' =
    ((r'.access_token ≡ r.access_token) × (r'.token_expiry ≡ r.token_expiry)) ⊎ OneOf cipher r' ws

rows_after-Origin :
    (cipher : Cipher) (ws : List Refresh) (r : GoogleConnection)
    → Origin cipher r ws (rows_after cipher ws r)
rows_after-Origin cipher [] r = inl (refl, refl)
rows_after-Origin cipher (w ∷ ws) r =
    elim (rows_after-Origin cipher ws (persisted_row cipher w r)) [
      | inr one ↦ inr (inr one)
      | inl (access, expiry) ↦ elim (persisted_cases cipher w r) [
        | inl (new, at, older) ↦ inr (inl (access ∙ new, expiry ∙ at))
        | inr (old, at, newer) ↦ inl (access ∙ old, expiry ∙ at)
      ]
    ]

-- The one expiry is not before the other, if there was one.
abbrev pub NoEarlier : Option ℕ → Option ℕ → Type 0
NoEarlier before after =
    (before ≡ none) ⊎ ((at : ℕ) × (before ≡ some at) × (reaches at after ≡ true))

no_earlier :
    (before after : Option ℕ)
    → ((at : ℕ) → before ≡ some at → reaches at after ≡ true)
    → NoEarlier before after
no_earlier none after h = inl refl
no_earlier (some at) after h = inr (at, refl, h at refl)

-- Whatever refreshes of a user land, and in whatever order, the user's row ends with an expiry no
-- earlier than that of any of them, and no earlier than the one it had; and its access token is
-- the one that belongs to that expiry: what the row had before, or what one of the refreshes
-- brought.
pub newest_token_kept :
    (cipher : Cipher) (user : String) (ws : List Refresh) (rows : List GoogleConnection)
    (r : GoogleConnection)
    → find? (of_user user) rows ≡ some r
    → (r' : GoogleConnection) × (find? (of_user user) (persist_all cipher user ws rows) ≡ some r')
      × All (λ (w : Refresh). reaches w.expiry r'.token_expiry ≡ true) ws
      × NoEarlier r.token_expiry r'.token_expiry
      × Origin cipher r ws r'
newest_token_kept cipher user ws rows r e = (
  rows_after cipher ws r,
  persist_all-row cipher user ws rows r e,
  rows_after-reaches cipher ws r,
  no_earlier r.token_expiry (rows_after cipher ws r).token_expiry
      (λ at e. rows_after-keeps cipher ws r at (rw e (ground arith))),
  rows_after-Origin cipher ws r,
)
