-- ===== src/Google/Connection.antt =====
-- The rows of src/models/google.py, and what src/integrations/google/credentials.py writes to them
-- and lists of them. The snapshots that a process keeps of the rows are left to Snapshots and
-- Writes. A user id is a UUID's text; the database answers.
pub mod Revoked
pub mod Newest
use inbox_pilot.Prelude.{
  ℕ, ◌+◌, ◌*◌, second, ltb, ◌&&◌, ◌||◌, not, String, str_eq, Bool, true, false, Option, none, some,
  List, [], ◌∷◌, ◌++◌, map, filter, find?, any, take, is_some, nonempty, text_eq, if◌then◌else◌,
}
use inbox_pilot.Google.Scopes.{scope_column}
use inbox_pilot.Google.Crypto.{Cipher}

-- The tokens are kept encrypted.
pub record GoogleConnection : Type 0 where
  pub user_id : String
  pub google_sub : List ℕ
  pub email : List ℕ
  pub access_token : Option (List ℕ)
  pub refresh_token : List ℕ
  pub token_expiry : Option ℕ
  pub scopes : List ℕ
  pub history_id : Option (List ℕ)
  pub last_polled_at : Option ℕ
  pub watch_expires_at : Option ℕ
  pub last_error : Option (List ℕ)
  pub revoked_at : Option ℕ

pub record TokenGrant : Type 0 where
  pub access_token : List ℕ
  pub refresh_token : Option (List ℕ)
  pub expires_in : ℕ
  pub scopes : List (List ℕ)
  pub google_sub : List ℕ
  pub email : List ℕ

pub record RefreshedToken : Type 0 where
  pub access_token : List ℕ
  pub expires_in : ℕ
  pub refresh_token : Option (List ℕ)
  pub scopes : List (List ℕ)

abbrev pub of_user : String → GoogleConnection → Bool
of_user user r = str_eq r.user_id user

-- An UPDATE of the user's row.
abbrev pub at_user :
    String → (GoogleConnection → GoogleConnection) → List GoogleConnection → List GoogleConnection
at_user user f rows = map (λ r. if of_user user r then f r else r) rows

-- The token that a row of an earlier expiry, or of none, takes over.
abbrev pub is_older : ℕ → Option ℕ → Bool
is_older expiry none = true
is_older expiry (some at) = ltb at expiry

abbrev pub column_or : Option (List (List ℕ)) → List ℕ → List ℕ
column_or none kept = kept
column_or (some scopes) kept = scope_column scopes

abbrev pub refreshed_row :
    Cipher → RefreshedToken → ℕ → Option (List (List ℕ)) → GoogleConnection → GoogleConnection
refreshed_row cipher token expiry scopes r =
    if is_older expiry r.token_expiry
    then record r {
      access_token = some (cipher.seal token.access_token);
      token_expiry = some expiry;
      last_error = none;
      scopes = column_or scopes r.scopes;
    }
    else r

-- A refresh token that is there and not empty.
abbrev pub rotated_row : Cipher → Option (List ℕ) → GoogleConnection → GoogleConnection
rotated_row cipher none r = r
rotated_row cipher (some token) r =
    if nonempty token then record r { refresh_token = cipher.seal token } else r

-- `_persist_refreshed`: two updates in one transaction.
unfoldable pub persist_refreshed :
    Cipher
    → String
    → RefreshedToken
    → ℕ
    → Option (List (List ℕ))
    → List GoogleConnection
    → List GoogleConnection
persist_refreshed cipher user token expiry scopes rows =
    at_user user (rotated_row cipher token.refresh_token)
      (at_user user (refreshed_row cipher token expiry scopes) rows)

abbrev pub or_empty : Option (List ℕ) → List ℕ
or_empty none = []
or_empty (some t) = t

abbrev pub new_row : Cipher → String → TokenGrant → ℕ → GoogleConnection
new_row cipher user grant expiry = record {
  user_id = user;
  google_sub = grant.google_sub;
  email = grant.email;
  access_token = some (cipher.seal grant.access_token);
  refresh_token = cipher.seal (or_empty grant.refresh_token);
  token_expiry = some expiry;
  scopes = scope_column grant.scopes;
  history_id = none;
  last_polled_at = none;
  watch_expires_at = none;
  last_error = none;
  revoked_at = none;
}

abbrev pub granted_row : Cipher → TokenGrant → ℕ → GoogleConnection → GoogleConnection
granted_row cipher grant expiry r = rotated_row cipher grant.refresh_token (record r {
  google_sub = grant.google_sub;
  email = grant.email;
  access_token = some (cipher.seal grant.access_token);
  token_expiry = some expiry;
  scopes = scope_column grant.scopes;
  last_error = none;
  revoked_at = none;
})

-- Expiries are counted from the instant of the call.
unfoldable pub store_grant :
    Cipher → String → TokenGrant → ℕ → List GoogleConnection → List GoogleConnection
store_grant cipher user grant now rows =
    let expiry = now + grant.expires_in * second in
    if any (of_user user) rows
    then at_user user (granted_row cipher grant expiry) rows
    else rows ++ (new_row cipher user grant expiry ∷ [])

abbrev pub revoked_row : List ℕ → ℕ → GoogleConnection → GoogleConnection
revoked_row reason now r = record r {
  revoked_at = some now;
  last_error = some (take 500 reason);
  access_token = none;
}

unfoldable pub mark_revoked : String → List ℕ → ℕ → List GoogleConnection → List GoogleConnection
mark_revoked user reason now rows = at_user user (revoked_row reason now) rows

unfoldable pub set_history_id :
    String → List ℕ → Bool → List GoogleConnection → List GoogleConnection
set_history_id user history_id only_if_unset rows =
    map
      (λ (r : GoogleConnection).
        if of_user user r && not (only_if_unset && is_some r.history_id)
        then record r { history_id = some history_id }
        else r)
      rows

-- Whether a cursor is where it was left.
abbrev pub same_cursor : Option (List ℕ) → Option (List ℕ) → Bool
same_cursor none none = true
same_cursor none (some b) = false
same_cursor (some a) none = false
same_cursor (some a) (some b) = text_eq a b

abbrev pub moves : String → Option (List ℕ) → GoogleConnection → Bool
moves user previous r = of_user user r && same_cursor previous r.history_id

unfoldable pub advance_history_id :
    String → Option (List ℕ) → List ℕ → ℕ → List GoogleConnection → Bool × List GoogleConnection
advance_history_id user previous new now rows = (
  any (moves user previous) rows,
  map
      (λ r.
        if moves user previous r
        then record r { history_id = some new; last_polled_at = some now }
        else r)
      rows,
)

unfoldable pub set_watch_expiry : String → Option ℕ → List GoogleConnection → List GoogleConnection
set_watch_expiry user expires_at rows =
    at_user user (λ r. record r { watch_expires_at = expires_at }) rows

unfoldable pub disconnect : String → List GoogleConnection → List GoogleConnection
disconnect user rows = filter (λ r. not (of_user user r)) rows

abbrev pub user_ids : List GoogleConnection → List String
user_ids rows = map (λ (r : GoogleConnection). r.user_id) rows

abbrev pub is_pollable : GoogleConnection → Bool
is_pollable r = not (is_some r.revoked_at) && is_some r.history_id

unfoldable pub list_pollable_user_ids : List GoogleConnection → List String
list_pollable_user_ids rows = user_ids (filter is_pollable rows)

abbrev pub lapses : ℕ → Option ℕ → Bool
lapses before none = true
lapses before (some at) = ltb at before

unfoldable pub list_watches_needing_renewal : ℕ → List GoogleConnection → List String
list_watches_needing_renewal before rows =
    user_ids
      (filter (λ (r : GoogleConnection). is_pollable r && lapses before r.watch_expires_at) rows)

-- `lower` is the lower case of texts, of the language and of the database.
unfoldable pub find_user_id_by_mailbox :
    (List ℕ → List ℕ) → List ℕ → List GoogleConnection → Option String
find_user_id_by_mailbox lower email rows = owner (
    find?
      (λ (r : GoogleConnection).
        text_eq (lower r.email) (lower email) && not (is_some r.revoked_at))
      rows)
  where
    owner : Option GoogleConnection → Option String
    owner none = none
    owner (some r) = some r.user_id
