-- ===== src/Google/Refresh.antt =====
-- A live access token: `get_credentials`, `force_refresh` and the refresh behind them, of
-- src/integrations/google/credentials.py. Redis' answer to the lock's `SET NX` and Google's answer
-- are arguments, and so are the polls of a process that waits: one every 0.2 s of the 3 s, with
-- the table that other processes have left at that moment.
pub mod Credentials
use inbox_pilot.Prelude.{
  ℕ, ◌+◌, ◌*◌, ◌==◌, second, ◌&&◌, ◌||◌, not, String, Bool, true, false, Option, none, some, List,
  [], ◌∷◌, filter, text_in, Result, err, ok, if◌then◌else◌,
}
use inbox_pilot.Google.Scopes.{expand_legacy_scopes, covers}
use inbox_pilot.Google.Crypto.{Cipher}
use inbox_pilot.Google.Connection.{
  GoogleConnection, RefreshedToken, persist_refreshed, mark_revoked,
}
use inbox_pilot.Google.Oauth.{OauthError}
use inbox_pilot.Google.Snapshots.{
  ConnectionState, Snapshots, token_is_live, get_connection, invalidate,
}

pub record GoogleCredentials : Type 0 where
  pub user_id : String
  pub access_token : List ℕ
  pub email : List ℕ
  pub scopes : List (List ℕ)

-- What the calls raise. A connection that is known to be revoked raises GrantRevoked, and so does
-- a refresh token that Google rejects.
pub data Raised : Type 0 where
  not_connected must_reconnect : Raised
  scope_missing : List (List ℕ) → Raised
  oauth : OauthError → Raised

abbrev pub Table : Type 0
Table = List GoogleConnection

-- What a call gives back, and what it leaves: the table, the snapshots, and whether it deleted the
-- lock.
pub record Outcome : Type 0 where
  pub result : Result Raised GoogleCredentials
  pub rows : Table
  pub snapshots : Snapshots
  pub unlocked : Bool

-- The clocks at a moment, the table then, and the clock when it has been read.
pub record Moment : Type 0 where
  pub now : ℕ
  pub monotonic : ℕ
  pub stamp : ℕ
  pub table : Table

abbrev pub access_or_empty : Option (List ℕ) → List ℕ
access_or_empty none = []
access_or_empty (some t) = t

abbrev pub credentials_of : String → ConnectionState → GoogleCredentials
credentials_of user state = record {
  user_id = user;
  access_token = access_or_empty state.access_token;
  email = state.email;
  scopes = state.scopes;
}

abbrev pub same_expiry : Option ℕ → Option ℕ → Bool
same_expiry none none = true
same_expiry none (some b) = false
same_expiry (some a) none = false
same_expiry (some a) (some b) = a == b

-- What a poll finds: nothing to wait for, nothing yet, or the token of another process.
pub data PollVerdict : Type 0 where
  give_up wait : PollVerdict
  winner : GoogleCredentials → PollVerdict

abbrev pub judged : String → Bool → Option ℕ → ℕ → Option ConnectionState → PollVerdict
judged user force before now none = give_up
judged user force before now (some fresh) =
    if fresh.revoked
    then give_up
    else if force && same_expiry fresh.token_expiry before
    then wait
    else if token_is_live fresh now
    then winner (credentials_of user fresh)
    else wait

abbrev pub nonempty_scopes : List (List ℕ) → Option (List (List ℕ))
nonempty_scopes [] = none
nonempty_scopes (s ∷ ss) = some (s ∷ ss)

abbrev pub scopes_or : List (List ℕ) → List (List ℕ) → List (List ℕ)
scopes_or [] fallback = fallback
scopes_or (s ∷ ss) fallback = s ∷ ss

module _ (cipher : Cipher) where
  abbrev pub continue_with :
      PollVerdict
      → Option GoogleCredentials × Snapshots
      → Snapshots
      → Option GoogleCredentials × Snapshots
  continue_with give_up rest snapshots = (none, snapshots)
  continue_with wait rest snapshots = rest
  continue_with (winner c) rest snapshots = (some c, snapshots)

  -- `_await_refresh`, over the polls up to its deadline.
  unfoldable pub await_refresh :
      String
      → Bool
      → ConnectionState
      → List Moment
      → Snapshots
      → Option GoogleCredentials × Snapshots
  await_refresh user force state [] snapshots = (none, snapshots)
  await_refresh user force state (m ∷ ms) snapshots =
      let (fresh, snapshots') =
        get_connection cipher user true m.monotonic m.stamp m.table snapshots in
      let rest = await_refresh user force state ms snapshots' in
      continue_with (judged user force state.token_expiry m.now fresh) rest snapshots'

  -- `_do_refresh`, with what `refresh_access_token` gave.
  unfoldable pub do_refresh :
      String → ConnectionState → Result OauthError RefreshedToken → ℕ → Table → Snapshots → Outcome
  do_refresh user state (err (OauthError.grant_revoked reason)) now rows snapshots = record {
    result = err (oauth (OauthError.grant_revoked reason));
    rows = mark_revoked user reason now rows;
    snapshots = invalidate user snapshots;
    unlocked = false;
  }
  do_refresh user state (err OauthError.google_oauth_error) now rows snapshots = record {
    result = err (oauth OauthError.google_oauth_error);
    rows = rows;
    snapshots = snapshots;
    unlocked = false;
  }
  do_refresh user state (err OauthError.key_error) now rows snapshots = record {
    result = err (oauth OauthError.key_error);
    rows = rows;
    snapshots = snapshots;
    unlocked = false;
  }
  do_refresh user state (ok token) now rows snapshots = record {
    result = ok (record {
      user_id = user;
      access_token = token.access_token;
      email = state.email;
      scopes = expand_legacy_scopes (scopes_or token.scopes state.scopes);
    });
    rows =
        persist_refreshed cipher user token (now + token.expires_in * second)
          (nonempty_scopes token.scopes) rows;
    snapshots = invalidate user snapshots;
    unlocked = false;
  }

  abbrev pub after_wait :
      String
      → ConnectionState
      → Result OauthError RefreshedToken
      → Moment
      → Option GoogleCredentials × Snapshots
      → Outcome
  after_wait user state answer m (some c, snapshots) = record {
    result = ok c;
    rows = m.table;
    snapshots = snapshots;
    unlocked = false;
  }
  after_wait user state answer m (none, snapshots) =
      do_refresh user state answer m.now m.table snapshots

  -- `_refresh`. The lock's answer is `none` when Redis does not answer; the refresh itself, if
  -- there is one, happens at the moment `m`.
  unfoldable pub refresh :
      String
      → Bool
      → ConnectionState
      → Option Bool
      → List Moment
      → (List ℕ → Result OauthError RefreshedToken)
      → Moment
      → Snapshots
      → Outcome
  refresh user force state (some true) polls answer m snapshots =
      let done = do_refresh user state (answer state.refresh_token) m.now m.table snapshots in
      record done { unlocked = true }
  refresh user force state (some false) polls answer m snapshots =
      after_wait user state (answer state.refresh_token) m
        (await_refresh user force state polls snapshots)
  refresh user force state none polls answer m snapshots =
      after_wait user state (answer state.refresh_token) m
        (await_refresh user force state polls snapshots)

  abbrev pub raising : Raised → Table → Snapshots → Outcome
  raising raised rows snapshots = record {
    result = err raised;
    rows = rows;
    snapshots = snapshots;
    unlocked = false;
  }

  -- The scopes that a grant misses, of those that are required, if any are.
  abbrev pub missing : Option (List (List ℕ)) → List (List ℕ) → List (List ℕ)
  missing none scopes = []
  missing (some required) scopes = filter (λ (s : List ℕ). not (text_in s scopes)) required

  abbrev pub none_missing : List (List ℕ) → Bool
  none_missing [] = true
  none_missing (s ∷ ss) = false

  abbrev pub credentials_from :
      String
      → Option (List (List ℕ))
      → Moment
      → Option ConnectionState
      → Snapshots
      → (ConnectionState → Outcome)
      → Outcome
  credentials_from user required m none snapshots refreshing =
      raising not_connected m.table snapshots
  credentials_from user required m (some state) snapshots refreshing =
      if state.revoked
      then raising must_reconnect m.table snapshots
      else if none_missing (missing required state.scopes)
      then (if token_is_live state m.now
          then record {
            result = ok (credentials_of user state);
            rows = m.table;
            snapshots = snapshots;
            unlocked = false;
          }
          else refreshing state)
      else raising (scope_missing (missing required state.scopes)) m.table snapshots

  -- `m` is the moment of the call, and `later` that of the refresh.
  unfoldable pub get_credentials :
      String
      → Option (List (List ℕ))
      → Option Bool
      → List Moment
      → (List ℕ → Result OauthError RefreshedToken)
      → Moment
      → Moment
      → Snapshots
      → Outcome
  get_credentials user required lock polls answer m later snapshots =
      let (state, snapshots') =
        get_connection cipher user false m.monotonic m.stamp m.table snapshots in
      credentials_from user required m state snapshots'
        (λ s. refresh user false s lock polls answer later snapshots')

  abbrev pub forced :
      Moment → Option ConnectionState → Snapshots → (ConnectionState → Outcome) → Outcome
  forced m none snapshots refreshing = raising not_connected m.table snapshots
  forced m (some state) snapshots refreshing =
      if state.revoked then raising must_reconnect m.table snapshots else refreshing state

  unfoldable pub force_refresh :
      String
      → Option Bool
      → List Moment
      → (List ℕ → Result OauthError RefreshedToken)
      → Moment
      → Moment
      → Snapshots
      → Outcome
  force_refresh user lock polls answer m later snapshots =
      let (state, snapshots') =
        get_connection cipher user true m.monotonic m.stamp m.table (invalidate user snapshots) in
      forced m state snapshots' (λ s. refresh user true s lock polls answer later snapshots')
