-- ===== src/Google/Snapshots.antt =====
-- What a process reads of a connection: `_load`, the snapshots it keeps for a minute, and the
-- checks on them in src/integrations/google/credentials.py. `monotonic` is the process's clock, in
-- microseconds, when a call begins, and `stamp` when it has loaded the row.
pub mod Staleness
use inbox_pilot.Prelude.{
  ℕ, ◌+◌, ◌-◌, ◌*◌, second, ltb, ◌&&◌, not, String, str_eq, Bool, true, false, Option, none, some,
  List, [], ◌∷◌, filter, find?, is_some, nonempty, if◌then◌else◌,
}
use inbox_pilot.Google.Scopes.{
  expand_legacy_scopes, split_words, covers, gmail_required_scopes, calendar_required_scopes,
}
use inbox_pilot.Google.Crypto.{Cipher}
use inbox_pilot.Google.Connection.{GoogleConnection, of_user}

-- The tokens are in clear.
pub record ConnectionState : Type 0 where
  pub user_id : String
  pub email : List ℕ
  pub google_sub : List ℕ
  pub scopes : List (List ℕ)
  pub history_id : Option (List ℕ)
  pub watch_expires_at : Option ℕ
  pub revoked : Bool
  pub access_token : Option (List ℕ)
  pub refresh_token : List ℕ
  pub token_expiry : Option ℕ

abbrev pub expiry_margin : ℕ
expiry_margin = 120 * second

abbrev pub live_until : Option ℕ → ℕ → Bool
live_until none now = false
live_until (some at) now = ltb (now + expiry_margin) at

-- `if self.access_token`
abbrev pub holds_token : Option (List ℕ) → Bool
holds_token none = false
holds_token (some t) = nonempty t

unfoldable pub token_is_live : ConnectionState → ℕ → Bool
token_is_live state now = holds_token state.access_token && live_until state.token_expiry now

-- A row whose tokens do not decrypt counts as revoked.
abbrev pub unreadable : GoogleConnection → String → ConnectionState
unreadable r user = record {
  user_id = user;
  email = r.email;
  google_sub = r.google_sub;
  scopes = [];
  history_id = r.history_id;
  watch_expires_at = r.watch_expires_at;
  revoked = true;
  access_token = none;
  refresh_token = [];
  token_expiry = none;
}

abbrev pub readable : GoogleConnection → String → List ℕ → Option (List ℕ) → ConnectionState
readable r user refresh_token access_token = record {
  user_id = user;
  email = r.email;
  google_sub = r.google_sub;
  scopes = expand_legacy_scopes (split_words r.scopes);
  history_id = r.history_id;
  watch_expires_at = r.watch_expires_at;
  revoked = is_some r.revoked_at;
  access_token = access_token;
  refresh_token = refresh_token;
  token_expiry = r.token_expiry;
}

module _ (cipher : Cipher) where
  -- What a column that may be empty holds; `none` is DecryptionFailed.
  abbrev pub opened_refresh : List ℕ → Option (List ℕ)
  opened_refresh [] = some []
  opened_refresh (c ∷ cs) = cipher.unseal (c ∷ cs)

  abbrev pub wrapped : Option (List ℕ) → Option (Option (List ℕ))
  wrapped none = none
  wrapped (some t) = some (some t)

  abbrev pub opened_access : Option (List ℕ) → Option (Option (List ℕ))
  opened_access none = some none
  opened_access (some []) = some none
  opened_access (some (c ∷ cs)) = wrapped (cipher.unseal (c ∷ cs))

  abbrev pub loaded :
      GoogleConnection → String → Option (List ℕ) → Option (Option (List ℕ)) → ConnectionState
  loaded r user none access = unreadable r user
  loaded r user (some refresh) none = unreadable r user
  loaded r user (some refresh) (some access) = readable r user refresh access

  abbrev pub loaded_row : String → Option GoogleConnection → Option ConnectionState
  loaded_row user none = none
  loaded_row user (some r) =
      some (loaded r user (opened_refresh r.refresh_token) (opened_access r.access_token))

  -- `_load`
  unfoldable pub load : List GoogleConnection → String → Option ConnectionState
  load rows user = loaded_row user (find? (of_user user) rows)

-- user id ↦ when it was read, and what
abbrev pub Snapshots : Type 0
Snapshots = List (String × ℕ × Option ConnectionState)

abbrev pub snapshot_ttl : ℕ
snapshot_ttl = 60 * second

abbrev pub is_of : String → String × ℕ × Option ConnectionState → Bool
is_of user entry = str_eq entry.0 user

unfoldable pub invalidate : String → Snapshots → Snapshots
invalidate user snapshots = filter (λ entry. not (is_of user entry)) snapshots

abbrev pub invalidate_all : Snapshots → Snapshots
invalidate_all snapshots = []

-- The snapshot that still serves.
abbrev pub served :
    ℕ → Option (String × ℕ × Option ConnectionState) → Option (Option ConnectionState)
served monotonic none = none
served monotonic (some (user, at, state)) =
    if ltb (monotonic - at) snapshot_ttl then some state else none

abbrev pub read_or :
    String
    → ℕ
    → Option ConnectionState
    → Option (Option ConnectionState)
    → Snapshots
    → Option ConnectionState × Snapshots
read_or user stamp current none snapshots =
    (current, (user, stamp, current) ∷ invalidate user snapshots)
read_or user stamp current (some state) snapshots = (state, snapshots)

module _ (cipher : Cipher) where
  unfoldable pub get_connection :
      String → Bool → ℕ → ℕ → List GoogleConnection → Snapshots → Option ConnectionState × Snapshots
  get_connection user fresh monotonic stamp rows snapshots =
      let cached = if fresh then none else served monotonic (find? (is_of user) snapshots) in
      read_or user stamp (load cipher rows user) cached snapshots

-- What `is_connected` says of the connection that it reads.
unfoldable pub connection_covers : List (List ℕ) → Option ConnectionState → Bool
connection_covers required none = false
connection_covers required (some state) = not state.revoked && covers state.scopes required

module _ (cipher : Cipher) where
  abbrev pub is_connected :
      String → List (List ℕ) → ℕ → ℕ → List GoogleConnection → Snapshots → Bool × Snapshots
  is_connected user required monotonic stamp rows snapshots =
      let (state, snapshots') = get_connection cipher user false monotonic stamp rows snapshots in
      (connection_covers required state, snapshots')

  abbrev pub gmail_connected : String → ℕ → ℕ → List GoogleConnection → Snapshots → Bool × Snapshots
  gmail_connected user = is_connected user gmail_required_scopes

  abbrev pub calendar_connected :
      String → ℕ → ℕ → List GoogleConnection → Snapshots → Bool × Snapshots
  calendar_connected user = is_connected user calendar_required_scopes
