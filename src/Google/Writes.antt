-- ===== src/Google/Writes.antt =====
-- The writes of a process to the user's grant: those functions of
-- src/integrations/google/credentials.py that change the row and then forget the snapshot that the
-- process keeps of it. The database answers, but where the code goes on without it.
use inbox_pilot.Prelude.{ℕ, String, Bool, Option, List, if◌then◌else◌}
use inbox_pilot.Google.Crypto.{Cipher}
use inbox_pilot.Google.Connection.{
  GoogleConnection, TokenGrant, store_grant as granted, mark_revoked as marked,
  set_history_id as seeded, advance_history_id as advanced, set_watch_expiry as watched,
  disconnect as deleted,
}
use inbox_pilot.Google.Snapshots.{Snapshots, invalidate}

-- The table, and what a process keeps of it.
pub record Process : Type 0 where
  pub rows : List GoogleConnection
  pub snapshots : Snapshots

unfoldable pub store_grant : Cipher → String → TokenGrant → ℕ → Process → Process
store_grant cipher user grant now p = record {
  rows = granted cipher user grant now p.rows;
  snapshots = invalidate user p.snapshots;
}

-- Whether the database takes the write is an argument: the snapshot goes in either case.
unfoldable pub mark_revoked : Bool → String → List ℕ → ℕ → Process → Process
mark_revoked taken user reason now p = record {
  rows = if taken then marked user reason now p.rows else p.rows;
  snapshots = invalidate user p.snapshots;
}

unfoldable pub set_history_id : String → List ℕ → Bool → Process → Process
set_history_id user history_id only_if_unset p = record {
  rows = seeded user history_id only_if_unset p.rows;
  snapshots = invalidate user p.snapshots;
}

unfoldable pub advance_history_id : String → Option (List ℕ) → List ℕ → ℕ → Process → Bool × Process
advance_history_id user previous new now p =
    let (moved, rows) = advanced user previous new now p.rows in
    (moved, record { rows = rows; snapshots = invalidate user p.snapshots })

unfoldable pub set_watch_expiry : String → Option ℕ → Process → Process
set_watch_expiry user expires_at p = record {
  rows = watched user expires_at p.rows;
  snapshots = invalidate user p.snapshots;
}

unfoldable pub disconnect : String → Process → Process
disconnect user p = record { rows = deleted user p.rows; snapshots = invalidate user p.snapshots }
