-- ===== src/Billing/Rows.antt =====
-- The rows that the billing code reads and writes: src/models/billing.py, the two columns of
-- src/models/users.py that decide when a mailbox may be worked on, and
-- src/services/billing/store.py. Ids (UUIDs in the database) are only compared, so they are numbers
-- here.
pub mod Store
use inbox_pilot.Prelude.{
  ℕ, ◌+◌, ◌==◌, days, String, Bool, true, false, Option, none, some, List, [], ◌∷◌, ◌++◌, find?,
  if◌then◌else◌,
}
use inbox_pilot.Billing.Plans.{plan_pro, interval_monthly}

abbrev pub status_authenticated : String
status_authenticated = "authenticated"

abbrev pub status_active : String
status_active = "active"

abbrev pub status_pending : String
status_pending = "pending"

abbrev pub entitled_statuses : List String
entitled_statuses = status_authenticated ∷ status_active ∷ status_pending ∷ []

pub record Subscription : Type 0 where
  pub user_id : ℕ
  pub razorpay_customer_id : Option String
  pub razorpay_subscription_id : Option String
  pub plan_id : String
  pub interval : String
  pub currency : String
  pub status : String
  pub trial_ends_at : Option ℕ
  pub current_period_end : Option ℕ
  pub cancel_at_period_end : Bool
  pub trial_consumed : Bool
  pub comped : Bool

pub record User : Type 0 where
  pub id : ℕ
  pub onboarded_at : Option ℕ
  pub initial_sync_at : Option ℕ

-- `Subscription(user_id=...)`: the column defaults.
abbrev pub new_subscription : ℕ → Subscription
new_subscription user_id = record {
  user_id = user_id;
  razorpay_customer_id = none;
  razorpay_subscription_id = none;
  plan_id = plan_pro;
  interval = interval_monthly;
  currency = "USD";
  status = "created";
  trial_ends_at = none;
  current_period_end = none;
  cancel_at_period_end = false;
  trial_consumed = false;
  comped = false;
}

unfoldable pub get_subscription : List Subscription → ℕ → Option Subscription
get_subscription rows user_id = find? (λ s. s.user_id == user_id) rows

abbrev pub trial_row : ℕ → ℕ → ℕ → Subscription
trial_row user_id trial_days now = record (new_subscription user_id) {
  status = status_authenticated;
  trial_ends_at = some (now + days trial_days);
  trial_consumed = true;
}

-- What was read or made, and the rows after it.
start_trial : Option Subscription → List Subscription → ℕ → ℕ → ℕ → Subscription × List Subscription
start_trial (some existing) rows user_id trial_days now = (existing, rows)
start_trial none rows user_id trial_days now =
    let sub = trial_row user_id trial_days now in (sub, rows ++ sub ∷ [])

unfoldable pub get_or_create_subscription :
    List Subscription → ℕ → ℕ → ℕ → Subscription × List Subscription
unfolding start_trial
get_or_create_subscription rows user_id trial_days now =
    start_trial (get_subscription rows user_id) rows user_id trial_days now
