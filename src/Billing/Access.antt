-- ===== src/Billing/Access.antt =====
-- Who may use the product: src/services/billing/access.py.
pub mod Laws
use inbox_pilot.Prelude.{
  ℕ, ◌&&◌, leb, String, str_eq, Bool, true, false, Option, none, some, contains, is_some,
  if◌then◌else◌,
}
use inbox_pilot.Billing.Plans.{plan_starter, plan_pro}
use inbox_pilot.Billing.Rows.{Subscription, User, entitled_statuses, status_authenticated}

pub data Access : Type 0 where
  entitled locked : Access

-- `sub.trial_ends_at is None or sub.trial_ends_at <= now`
abbrev trial_over : Option ℕ → ℕ → Bool
trial_over none now = true
trial_over (some t) now = leb t now

unfoldable pub resolve_access : Option Subscription → ℕ → Access
resolve_access none now = locked
resolve_access (some sub) now =
    if sub.comped
    then entitled
    else if contains sub.status entitled_statuses
    then (if str_eq sub.status status_authenticated
        then (if trial_over sub.trial_ends_at now then locked else entitled)
        else entitled)
    else locked

abbrev pub is_entitled : Access → Bool
is_entitled entitled = true
is_entitled locked = false

unfoldable pub may_process_mail : User → Option Subscription → ℕ → Bool
unfolding resolve_access
may_process_mail user sub now = is_some user.onboarded_at && is_entitled (resolve_access sub now)

unfoldable pub effective_plan_id : Option Subscription → String
effective_plan_id none = plan_starter
effective_plan_id (some sub) = if sub.comped then plan_pro else sub.plan_id
