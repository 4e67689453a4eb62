-- ===== src/Billing/MailGate.antt =====
-- The mail pipeline's switch: src/services/billing/gate.py. `uuid.UUID` is an argument, which fails
-- on a text that is no UUID. The sync task is queued; the task itself stamps `initial_sync_at`
-- later.
pub mod Opens
use inbox_pilot.Prelude.{
  ℕ, ◌==◌, String, Bool, true, false, Option, none, some, List, [], ◌∷◌, ◌++◌, find?, is_some,
  if◌then◌else◌,
}
use inbox_pilot.Billing.Rows.{Subscription, User, get_subscription}
use inbox_pilot.Billing.Access.{may_process_mail}

-- The rows of the users and the subscriptions, and the queue of the users to sync.
pub record Db : Type 0 where
  pub users : List User
  pub subs : List Subscription
  pub sync_queue : List ℕ

abbrev pub get_user : Db → ℕ → Option User
get_user db id = find? (λ u. u.id == id) db.users

gate_for : Db → Option ℕ → ℕ → Bool
gate_for db none now = false
gate_for db (some uid) now = elim (get_user db uid) [
  | none ↦ false
  | some user ↦ may_process_mail user (get_subscription db.subs uid) now
]

unfoldable pub mail_gate_open : (String → Option ℕ) → Db → String → ℕ → Bool
unfolding gate_for
mail_gate_open parse_uuid db user_id now = gate_for db (parse_uuid user_id) now

-- Whether it queued, and the queue after it.
unfoldable pub maybe_start_mail_sync : Db → User → ℕ → Bool × Db
maybe_start_mail_sync db user now =
    if is_some user.initial_sync_at
    then (false, db)
    else if may_process_mail user (get_subscription db.subs user.id) now
    then (true, record db { sync_queue = db.sync_queue ++ user.id ∷ [] })
    else (false, db)
