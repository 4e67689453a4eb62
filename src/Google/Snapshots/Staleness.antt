-- ===== src/Google/Snapshots/Staleness.antt =====
-- How old the connection is that a process goes by: `get_connection` and `invalidate` of
-- src/integrations/google/credentials.py.
use inbox_pilot.Prelude.{ℕ, ◌+◌, ◌≤◌, ◌<◌, ◌≡◌, String, Bool, Option, List, [], ◌∷◌}
use inbox_pilot.Google.Crypto.{Cipher}
use inbox_pilot.Google.Connection.{GoogleConnection, TokenGrant}
use inbox_pilot.Google.Snapshots.{
  ConnectionState, load, Snapshots, snapshot_ttl, invalidate, get_connection,
}
use inbox_pilot.Google.Writes.{
  Process, store_grant, mark_revoked, set_history_id, advance_history_id, set_watch_expiry,
  disconnect,
}

-- The writes of a process.
pub data OwnWrite : Type 0 where
  granting : (user : String) (grant : TokenGrant) (now : ℕ) → OwnWrite
  revoking : (taken : Bool) (user : String) (reason : List ℕ) (now : ℕ) → OwnWrite
  seeding : (user : String) (history_id : List ℕ) (only_if_unset : Bool) → OwnWrite
  advancing : (user : String) (previous : Option (List ℕ)) (new : List ℕ) (now : ℕ) → OwnWrite
  watching : (user : String) (expires_at : Option ℕ) → OwnWrite
  disconnecting : (user : String) → OwnWrite

abbrev pub written_of : OwnWrite → String
written_of (granting user grant now) = user
written_of (revoking taken user reason now) = user
written_of (seeding user history_id only_if_unset) = user
written_of (advancing user previous new now) = user
written_of (watching user expires_at) = user
written_of (disconnecting user) = user

abbrev pub carry_out : Cipher → OwnWrite → Process → Process
carry_out cipher (granting user grant now) p = store_grant cipher user grant now p
carry_out cipher (revoking taken user reason now) p = mark_revoked taken user reason now p
carry_out cipher (seeding user history_id unset) p = set_history_id user history_id unset p
carry_out cipher (advancing user previous new now) p =
    (advance_history_id user previous new now p).1
carry_out cipher (watching user expires_at) p = set_watch_expiry user expires_at p
carry_out cipher (disconnecting user) p = disconnect user p

-- What a process does, and when: a read begins, loads the row if it has to, and is done.
pub data CacheEvent : Type 0 where
  read : (user : String) (fresh : Bool) (begun loaded done : ℕ) → CacheEvent
  forget : (user : String) (at : ℕ) → CacheEvent
  write : (w : OwnWrite) (at : ℕ) → CacheEvent

-- The clock does not go back, and a row is stamped at most `lag` after it was loaded.
abbrev pub IsTimed : ℕ → ℕ → List CacheEvent → Type 0
IsTimed lag now [] = Unit {0}
IsTimed lag now (read user fresh begun loaded done ∷ es) =
    (now ≤ begun) × (begun ≤ loaded) × (loaded ≤ done) × (done ≤ loaded + lag) × IsTimed lag done es
IsTimed lag now (forget user at ∷ es) = (now ≤ at) × IsTimed lag at es
IsTimed lag now (write w at ∷ es) = (now ≤ at) × IsTimed lag at es

-- An answer: whose connection, when it was asked for and when it was given, and what.
pub record Answer : Type 0 where
  pub user : String
  pub begun : ℕ
  pub done : ℕ
  pub state : Option ConnectionState

module _ (cipher : Cipher) (history : ℕ → List GoogleConnection) (lag : ℕ) where
  -- The answers of a process, while the table goes through `history`.
  abbrev pub answers : List CacheEvent → Snapshots → List Answer
  answers [] snapshots = []
  answers (read user fresh begun loaded done ∷ es) snapshots =
      let (state, snapshots') =
        get_connection cipher user fresh begun done (history loaded) snapshots in
      record { user = user; begun = begun; done = done; state = state } ∷ answers es snapshots'
  answers (forget user at ∷ es) snapshots = answers es (invalidate user snapshots)
  answers (write w at ∷ es) snapshots =
      answers es
        (carry_out cipher w (record { rows = history at; snapshots = snapshots })).snapshots

  -- What the table held at an instant from which the call began less than a minute and the lag on.
  abbrev pub IsRecent : Answer → Type 0
  IsRecent a =
      (at : ℕ) × (at ≤ a.done)
      × (a.begun < at + (lag + snapshot_ttl))
      × (a.state ≡ load cipher (history at) a.user)

  abbrev pub IsKept : ℕ → String × ℕ × Option ConnectionState → Type 0
  IsKept now (user, stamp, state) =
      (at : ℕ) × (at ≤ stamp)
      × (stamp ≤ now)
      × (stamp ≤ at + lag)
      × (state ≡ load cipher (history at) user)

  abbrev answer_of : String → ℕ → ℕ → Option ConnectionState → Answer
  answer_of user begun done state = record {
    user = user;
    begun = begun;
    done = done;
    state = state;
  }
