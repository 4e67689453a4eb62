-- ===== src/Billing/Entitlements.antt =====
-- May this user do this billable thing now: src/services/billing/entitlements.py.
pub mod Decisions
use inbox_pilot.Prelude.{
  ℕ, leb, String, str_eq, Bool, true, false, not, Option, none, some, List, contains, DateTime,
  Result, ok, err, if◌then◌else◌,
}
use inbox_pilot.Billing.Plans.{Entitlements, Plan, bot_seconds_per_month, get_plan}
use inbox_pilot.Billing.Rows.{Subscription, get_subscription}
use inbox_pilot.Billing.Access.{is_entitled, resolve_access, effective_plan_id}
use inbox_pilot.Billing.Usage.{Counter, Table, get_or_create_counter}

abbrev pub feature_meeting_bot : String
feature_meeting_bot = "meetings.bot"

abbrev pub feature_draft : String
feature_draft = "drafts.generate"

abbrev pub feature_routine : String
feature_routine = "routines.run"

abbrev pub feature_custom_categories : String
feature_custom_categories = "categorization.custom"

pub data Reason : Type 0 where
  locked quota_exhausted not_in_plan : Reason

pub record Decision : Type 0 where
  pub allowed : Bool
  pub reason : Option Reason

abbrev pub allow : Decision
allow = record { allowed = true; reason = none }

abbrev pub deny : Reason → Decision
deny r = record { allowed = false; reason = some r }

pub data CheckError : Type 0 where
  unknown_plan unknown_feature no_counter : CheckError

abbrev pub Checked : Type 0
Checked = Result CheckError Decision × Table

-- `counter.bot_seconds_used >= entitlements.bot_seconds_per_month`
check_bot : Entitlements → Option Counter × Table → Checked
check_bot e (none, t) = (err no_counter, t)
check_bot e (some c, t) = (
  ok (if leb (bot_seconds_per_month e) c.bot_seconds_used then deny quota_exhausted else allow),
  t,
)

check_drafts : ℕ → Option Counter × Table → Checked
check_drafts cap (none, t) = (err no_counter, t)
check_drafts cap (some c, t) =
    (ok (if leb cap c.drafts_generated then deny quota_exhausted else allow), t)

-- A plan with no cap on drafts reads no counter.
check_draft : Option ℕ → ℕ → DateTime → Table → Checked
unfolding check_drafts
check_draft none user_id now t = (ok allow, t)
check_draft (some cap) user_id now t = check_drafts cap (get_or_create_counter user_id now t)

-- `routine_type not in entitlements.allowed_routines`
abbrev includes : Option String → List String → Bool
includes none routines = false
includes (some r) routines = contains r routines

check_feature : Entitlements → ℕ → String → Option String → DateTime → Table → Checked
unfolding check_bot check_draft
check_feature e user_id feature routine_type now t =
    if str_eq feature feature_meeting_bot
    then check_bot e (get_or_create_counter user_id now t)
    else if str_eq feature feature_draft
    then check_draft e.drafts_per_month user_id now t
    else if str_eq feature feature_routine
    then (if includes routine_type e.allowed_routines
        then (ok allow, t)
        else (ok (deny not_in_plan), t))
    else if str_eq feature feature_custom_categories
    then (if not e.custom_categories then (ok (deny not_in_plan), t) else (ok allow, t))
    else (err unknown_feature, t)

-- `get_plan` raises KeyError for a plan that is not in the catalogue.
check_plan : Option Plan → ℕ → String → Option String → DateTime → Table → Checked
unfolding check_feature
check_plan none user_id feature routine_type now t = (err unknown_plan, t)
check_plan (some plan) user_id feature routine_type now t =
    check_feature plan.entitlements user_id feature routine_type now t

unfoldable pub check : List Subscription → ℕ → String → Option String → DateTime → Table → Checked
unfolding check_plan
check subs user_id feature routine_type now t =
    let sub = get_subscription subs user_id in
    if not (is_entitled (resolve_access sub now.instant))
    then (ok (deny locked), t)
    else check_plan (get_plan (effective_plan_id sub)) user_id feature routine_type now t
