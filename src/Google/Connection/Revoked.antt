-- ===== src/Google/Connection/Revoked.antt =====
-- What happens to a user whose grant was revoked: src/integrations/google/credentials.py.
use inbox_pilot.Prelude.{
  ℕ, ◌+◌, ◌*◌, second, ◌≡◌, refl, ◌≢◌, str_eq, eq_iff, ◌&&◌, ◌||◌, not, String, Bool, true, false,
  Option, none, some, List, [], ◌∷◌, ◌++◌, map, filter, any, contains, is_some, nonempty, All,
  text_eq, if◌then◌else◌, Bool-cases, inl, inr, arith,
}
use inbox_pilot.Google.Crypto.{Cipher}
use inbox_pilot.Google.Connection.{
  GoogleConnection, TokenGrant, RefreshedToken, of_user, is_older, rotated_row, persist_refreshed,
  new_row, store_grant, mark_revoked, set_history_id, moves, advance_history_id, set_watch_expiry,
  disconnect, user_ids, is_pollable, list_pollable_user_ids, list_watches_needing_renewal,
  find_user_id_by_mailbox,
}

-- The writes of any process, one after the other, in which `user` does not reconnect.
pub data Write (cipher : Cipher) (user : String)
    : List GoogleConnection → List GoogleConnection → Type 0 where
  refreshed :
      (rows : List GoogleConnection) (whose : String) (token : RefreshedToken) (expiry : ℕ)
      (scopes : Option (List (List ℕ)))
      → Write cipher user rows (persist_refreshed cipher whose token expiry scopes rows)
  granted :
      (rows : List GoogleConnection) (whose : String) (grant : TokenGrant) (now : ℕ)
      → str_eq whose user ≡ false
      → Write cipher user rows (store_grant cipher whose grant now rows)
  revoked :
      (rows : List GoogleConnection) (whose : String) (reason : List ℕ) (now : ℕ)
      → Write cipher user rows (mark_revoked whose reason now rows)
  seeded :
      (rows : List GoogleConnection) (whose : String) (history_id : List ℕ) (unset : Bool)
      → Write cipher user rows (set_history_id whose history_id unset rows)
  advanced :
      (rows : List GoogleConnection) (whose : String) (previous : Option (List ℕ)) (new : List ℕ)
      (now : ℕ)
      → Write cipher user rows (advance_history_id whose previous new now rows).1
  watched :
      (rows : List GoogleConnection) (whose : String) (expires_at : Option ℕ)
      → Write cipher user rows (set_watch_expiry whose expires_at rows)
  disconnected :
      (rows : List GoogleConnection) (whose : String)
      → Write cipher user rows (disconnect whose rows)

pub data Writes (cipher : Cipher) (user : String) (rows : List GoogleConnection)
    : List GoogleConnection → Type 0 where
  here : Writes cipher user rows rows
  next :
      {mid last : List GoogleConnection}
      → Writes cipher user rows mid
      → Write cipher user mid last
      → Writes cipher user rows last

-- The row is not a live one of the user.
abbrev pub IsDead : String → GoogleConnection → Type 0
IsDead user r = (not (of_user user r) || is_some r.revoked_at) ≡ true

-- An update of rows that leaves their owner, and never clears the mark.
map-IsDead :
    (user : String) (f : GoogleConnection → GoogleConnection) (rows : List GoogleConnection)
    → ((r : GoogleConnection) → IsDead user r → IsDead user (f r))
    → All (IsDead user) rows
    → All (IsDead user) (map f rows)
map-IsDead user f [] keeps h = tt
map-IsDead user f (r ∷ rows) keeps (d, h) = (keeps r d, map-IsDead user f rows keeps h)

if-IsDead :
    (user : String) (b : Bool) (r s : GoogleConnection)
    → IsDead user r
    → (b ≡ true → IsDead user s)
    → IsDead user (if b then s else r)
if-IsDead user true r s d e = e refl
if-IsDead user false r s d e = d

rotated-IsDead :
    (user : String) (cipher : Cipher) (token : Option (List ℕ)) (r : GoogleConnection)
    → IsDead user r
    → IsDead user (rotated_row cipher token r)
rotated-IsDead user cipher none r d = d
rotated-IsDead user cipher (some t) r d = if-IsDead user (nonempty t) r _ d (λ e. d)

-- A row of somebody else is no live row of the user, whatever it is marked with.
others-dead :
    (user whose : String) (r : GoogleConnection) (b : Bool)
    → str_eq whose user ≡ false
    → of_user whose r ≡ true
    → (not (of_user user r) || b) ≡ true
others-dead user whose r b ne mine =
    let e : r.user_id ≡ whose = (eq_iff r.user_id whose).0 mine in rw (e, ne) refl

filter-IsDead :
    (user whose : String) (rows : List GoogleConnection)
    → All (IsDead user) rows
    → All (IsDead user) (filter (λ r. not (of_user whose r)) rows)
filter-IsDead user whose [] h = tt
filter-IsDead user whose (r ∷ rows) (d, h) = elim (Bool-cases (of_user whose r)) [
  | inl mine ↦ rw mine (filter-IsDead user whose rows h)
  | inr other ↦ rw other (d, filter-IsDead user whose rows h)
]

append-IsDead :
    (user : String) (rows : List GoogleConnection) (r : GoogleConnection)
    → All (IsDead user) rows
    → IsDead user r
    → All (IsDead user) (rows ++ (r ∷ []))
append-IsDead user [] r h d = (d, tt)
append-IsDead user (q ∷ rows) r (e, h) d = (e, append-IsDead user rows r h d)

granted-IsDead :
    (user : String) (cipher : Cipher) (whose : String) (grant : TokenGrant) (now : ℕ)
    (rows : List GoogleConnection)
    → str_eq whose user ≡ false
    → All (IsDead user) rows
    → All (IsDead user) (store_grant cipher whose grant now rows)
unfolding store_grant
granted-IsDead user cipher whose grant now rows ne h =
    let expiry = now + grant.expires_in * second in
    elim (Bool-cases (any (of_user whose) rows)) [
      | inl there ↦ rw there (
          map-IsDead user _ rows
            (λ r d. if-IsDead user (of_user whose r) r _ d (λ mine.
              rotated-IsDead user cipher grant.refresh_token _
                (others-dead user whose r false ne mine)))
            h)
      | inr new ↦
          rw new (append-IsDead user rows (new_row cipher whose grant expiry) h (rw ne refl))
    ]

persisted-IsDead :
    (user : String) (cipher : Cipher) (whose : String) (token : RefreshedToken) (expiry : ℕ)
    (scopes : Option (List (List ℕ))) (rows : List GoogleConnection)
    → All (IsDead user) rows
    → All (IsDead user) (persist_refreshed cipher whose token expiry scopes rows)
unfolding persist_refreshed
persisted-IsDead user cipher whose token expiry scopes rows h =
    map-IsDead user _ _
      (λ r d.
        if-IsDead user (of_user whose r) r _ d
          (λ mine. rotated-IsDead user cipher token.refresh_token r d))
      (map-IsDead user _ rows
        (λ r d.
          if-IsDead user (of_user whose r) r _ d
            (λ mine. if-IsDead user (is_older expiry r.token_expiry) r _ d (λ older. d)))
        h)

or_true : (b : Bool) → (b || true) ≡ true
or_true true = refl
or_true false = refl

Write-IsDead :
    {cipher : Cipher} {user : String} {rows last : List GoogleConnection}
    → Write cipher user rows last
    → All (IsDead user) rows
    → All (IsDead user) last
unfolding mark_revoked set_history_id advance_history_id set_watch_expiry disconnect
Write-IsDead {cipher} {user} (refreshed rows whose token expiry scopes) h =
    persisted-IsDead user cipher whose token expiry scopes rows h
Write-IsDead {cipher} {user} (granted rows whose grant now ne) h =
    granted-IsDead user cipher whose grant now rows ne h
Write-IsDead {cipher} {user} (revoked rows whose reason now) h =
    map-IsDead user _ rows
      (λ r d. if-IsDead user (of_user whose r) r _ d (λ mine. or_true (not (of_user user r)))) h
Write-IsDead {cipher} {user} (seeded rows whose history_id unset) h =
    map-IsDead user _ rows (λ r d. if-IsDead user _ r _ d (λ mine. d)) h
Write-IsDead {cipher} {user} (advanced rows whose previous new now) h =
    map-IsDead user _ rows (λ r d. if-IsDead user (moves whose previous r) r _ d (λ mine. d)) h
Write-IsDead {cipher} {user} (watched rows whose expires_at) h =
    map-IsDead user _ rows (λ r d. if-IsDead user (of_user whose r) r _ d (λ mine. d)) h
Write-IsDead {cipher} {user} (disconnected rows whose) h = filter-IsDead user whose rows h

Writes-IsDead :
    {cipher : Cipher} {user : String} {rows last : List GoogleConnection}
    → All (IsDead user) rows
    → Writes cipher user rows last
    → All (IsDead user) last
Writes-IsDead h here = h
Writes-IsDead h (next before w) = Write-IsDead w (Writes-IsDead h before)

revoked-IsDead :
    (user : String) (reason : List ℕ) (now : ℕ) (rows : List GoogleConnection)
    → All (IsDead user) (mark_revoked user reason now rows)
unfolding mark_revoked
revoked-IsDead user reason now [] = tt
revoked-IsDead user reason now (r ∷ rows) = elim (Bool-cases (of_user user r)) [
  | inl mine ↦ rw mine (rw mine refl, revoked-IsDead user reason now rows)
  | inr other ↦ rw other (rw other refl, revoked-IsDead user reason now rows)
]

str_eq_swap : (s t : String) → str_eq s t ≡ str_eq t s
str_eq_swap s t = ground (arith, eq_iff s t, eq_iff t s)

-- A user with no live row is in no list of the users of pollable rows.
unlisted :
    (user : String) (p : GoogleConnection → Bool) (rows : List GoogleConnection)
    → ((r : GoogleConnection) → p r ≡ true → is_some r.revoked_at ≡ false)
    → All (IsDead user) rows
    → contains user (user_ids (filter p rows)) ≡ false
unlisted user p [] live h = refl
unlisted user p (r ∷ rows) live (d, h) = elim (Bool-cases (p r)) [
  | inl listed ↦
      (let alive : is_some r.revoked_at ≡ false = live r listed in
        let other : of_user user r ≡ false = ground arith in
        rw (listed, str_eq_swap user r.user_id, other) (unlisted user p rows live h))
  | inr skipped ↦ rw skipped (unlisted user p rows live h)
]

unfound :
    (lower : List ℕ → List ℕ) (user : String) (email : List ℕ) (rows : List GoogleConnection)
    → All (IsDead user) rows
    → find_user_id_by_mailbox lower email rows ≢ some user
unfolding find_user_id_by_mailbox
unfound lower user email [] h e = absurd (ground arith)
unfound lower user email (r ∷ rows) (d, h) e =
    elim (Bool-cases (text_eq (lower r.email) (lower email) && not (is_some r.revoked_at))) [
      | inl found ↦
          (let e' : some r.user_id ≡ some user = rw found at e in
            let same : r.user_id ≡ user = cc in
            let mine : of_user user r ≡ true = (eq_iff r.user_id user).1 same in
            absurd (ground arith))
      | inr other ↦ unfound lower user email rows h (rw other at e)
    ]

-- Once a user's grant is marked revoked, and for as long as that user does not reconnect, no
-- sequence of writes of any processes brings the user back: not a refresh that was still in
-- flight, nor the reset of the cursor, nor other users' grants. The user is not polled, no watch
-- is renewed, and no notification finds the mailbox.
pub revoked_stays :
    (cipher : Cipher) (lower : List ℕ → List ℕ) (user : String) (reason : List ℕ) (now : ℕ)
    (rows last : List GoogleConnection)
    → Writes cipher user (mark_revoked user reason now rows) last
    → (contains user (list_pollable_user_ids last) ≡ false)
      × ((before : ℕ) → contains user (list_watches_needing_renewal before last) ≡ false)
      × ((email : List ℕ) → find_user_id_by_mailbox lower email last ≢ some user)
unfolding list_pollable_user_ids list_watches_needing_renewal
revoked_stays cipher lower user reason now rows last writes =
    let dead = Writes-IsDead (revoked-IsDead user reason now rows) writes in
    (
      unlisted user is_pollable last (λ r p. ground arith) dead,
      λ before. unlisted user _ last (λ r p. ground arith) dead,
      λ email. unfound lower user email last dead,
    )
