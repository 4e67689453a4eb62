-- ===== src/Billing/Tests.antt =====
-- Billing on a few rows.
use inbox_pilot.Prelude.{
  ℕ, ◌+◌, ◌≡◌, ◌↔◌, refl, String, Option, none, some, List, [], ◌∷◌, DateTime, ok, arith,
}
use inbox_pilot.Billing.Plans.{Plan, get_plan}
use inbox_pilot.Billing.Rows.{Subscription, User, new_subscription, get_subscription}
use inbox_pilot.Billing.Access.{entitled, resolve_access, effective_plan_id}
use inbox_pilot.Billing.Usage.{Table, new_counter, period_start_for}
use inbox_pilot.Billing.Usage.Counts.{usage, IsKeyed}
use inbox_pilot.Billing.Usage.Credits.{Call, bot, drafts, calls, credits, calls-usage}
use inbox_pilot.Billing.Entitlements.{check, allow, feature_draft}
use inbox_pilot.Billing.Entitlements.Decisions.{Permits, check_allows_iff}
use inbox_pilot.Billing.MailGate.{Db}
use inbox_pilot.Billing.Webhooks.{Event, applied, handle_event, find_by_razorpay_id}
use inbox_pilot.Billing.Webhooks.Rows.{Unique}
use inbox_pilot.Billing.Webhooks.Order.{NotBefore, period_end, period_never_moves_back}
use inbox_pilot.Billing.Webhooks.Redelivery.{redelivery}

abbrev paying : Subscription
paying = record (new_subscription 1) {
  razorpay_subscription_id = some "sub_1";
  status = "active";
  current_period_end = some 5;
}

abbrev user : User
user = record { id = 1; onboarded_at = some 3; initial_sync_at = none }

abbrev db : Db
db = record { users = user ∷ []; subs = paying ∷ new_subscription 2 ∷ []; sync_queue = [] }

abbrev september : DateTime
september = record { instant = 100; year = 2025; month = 9 }

abbrev table : Table
table = record { rows = new_counter 0 1 (2025, 9) ∷ []; next_id = 1 }

table-IsKeyed : IsKeyed table
table-IsKeyed = record { below = (omega arith, tt); distinct = (tt, tt) }

abbrev parse_uuid : String → Option ℕ
parse_uuid s = some 1

check_allows_iff_example : ((check db.subs 1 feature_draft none september table).0 ≡ ok allow) ↔ (
    (resolve_access (get_subscription db.subs 1) 100 ≡ entitled)
    × ((plan : Plan) × (get_plan (effective_plan_id (get_subscription db.subs 1)) ≡ some plan)
        × Permits plan.entitlements feature_draft none
            (usage 1 (period_start_for september) table)))
check_allows_iff_example = check_allows_iff db.subs 1 feature_draft none september table

abbrev run : List Call
run = bot 1 60 september ∷ drafts 2 3 september ∷ bot 1 30 september ∷ []

calls-usage_example :
    (usage 1 (2025, 9) (calls run table) ≡ (
      let (b, d) = usage 1 (2025, 9) table in
      let (b', d') = credits 1 (2025, 9) run in (b + b', d + d')))
    × IsKeyed (calls run table)
calls-usage_example = calls-usage 1 (2025, 9) run table table-IsKeyed

abbrev charged : Event
charged = record {
  event = some "subscription.charged";
  id = some "sub_1";
  current_end = some 63072000000;
  status = some "active";
  customer_id = some "cust";
  notes_user_id = none;
}

rows-Unique : Unique db.subs
rows-Unique = ((omega arith, tt), (tt, tt))

period_never_moves_back_example :
    let (_, db') = handle_event parse_uuid db charged 100 in
    NotBefore (period_end db 1) (period_end db' 1) × Unique db'.subs
period_never_moves_back_example = period_never_moves_back parse_uuid db charged 100 1 rows-Unique

redelivery_example :
    let (_, db') = handle_event parse_uuid db charged 100 in
    let (reply, db'') = handle_event parse_uuid db' charged 200 in
    (reply ≡ applied) × (db''.subs ≡ db'.subs)
unfolding handle_event find_by_razorpay_id
redelivery_example = redelivery parse_uuid db charged 100 200 rows-Unique refl
