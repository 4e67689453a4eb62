-- ===== src/Billing/Webhooks.antt =====
-- The payment provider's subscription events: src/services/billing/webhooks.py. An event is kept by
-- the parts of its payload that the handler reads. A subscription row is the one of its user, a
-- unique column; the write of a row that the session holds is `put_subscription`.
pub mod Rows
pub mod Order
pub mod Redelivery
use inbox_pilot.Prelude.{
  ℕ, ◌+◌, ◌*◌, ◌==◌, ltb, second, unix_epoch, String, str_eq, Bool, true, false, Option, none, some,
  List, [], ◌∷◌, find?, contains, truthy, if◌then◌else◌,
}
use inbox_pilot.Billing.Rows.{Subscription, User, new_subscription, get_subscription}
use inbox_pilot.Billing.MailGate.{Db, get_user, maybe_start_mail_sync}

pub data Reply : Type 0 where
  applied ignored stale : Reply

abbrev pub handled_events : List String
handled_events =
    "subscription.authenticated" ∷ "subscription.activated" ∷ "subscription.charged"
    ∷ "subscription.pending" ∷ "subscription.halted" ∷ "subscription.paused"
    ∷ "subscription.resumed" ∷ "subscription.cancelled" ∷ "subscription.completed"
    ∷ "subscription.updated" ∷ []

pub record Event : Type 0 where
  pub event : Option String
  pub id : Option String
  pub current_end : Option ℕ
  pub status : Option String
  pub customer_id : Option String
  pub notes_user_id : Option String

-- `event_type in HANDLED_EVENTS`
abbrev pub is_handled : Option String → Bool
is_handled none = false
is_handled (some e) = contains e handled_events

-- `datetime.fromtimestamp`
abbrev pub ts : Option ℕ → Option ℕ
ts none = none
ts (some value) = some (unix_epoch + value * second)

abbrev has_razorpay_id : String → Subscription → Bool
has_razorpay_id id s = elim s.razorpay_subscription_id [ none ↦ false | some j ↦ str_eq j id ]

unfoldable pub find_by_razorpay_id : String → List Subscription → Option Subscription
find_by_razorpay_id id rows = find? (has_razorpay_id id) rows

unfoldable pub put_subscription : Subscription → List Subscription → List Subscription
put_subscription s [] = s ∷ []
put_subscription s (r ∷ rows) =
    if r.user_id == s.user_id then s ∷ rows else r ∷ put_subscription s rows

abbrev or_new : Option Subscription → ℕ → Subscription
or_new none user_id = new_subscription user_id
or_new (some s) user_id = s

abbrev linked : Db → String → ℕ → Subscription
linked db subscription_id user_id = record (or_new (get_subscription db.subs user_id) user_id) {
  razorpay_subscription_id = some subscription_id;
}

link_user : Db → String → ℕ → Option User → Option Subscription × Db
link_user db subscription_id user_id none = (none, db)
link_user db subscription_id user_id (some user) =
    let sub = linked db subscription_id user_id in
    (some sub, record db { subs = put_subscription sub db.subs })

link_id : Db → String → Option ℕ → Option Subscription × Db
unfolding link_user
link_id db subscription_id none = (none, db)
link_id db subscription_id (some user_id) =
    link_user db subscription_id user_id (get_user db user_id)

unfoldable pub link_by_notes :
    (String → Option ℕ) → Db → Option String → String → Option Subscription × Db
unfolding link_id
link_by_notes parse_uuid db none subscription_id = (none, db)
link_by_notes parse_uuid db (some raw_user_id) subscription_id =
    if str_eq raw_user_id ""
    then (none, db)
    else link_id db subscription_id (parse_uuid raw_user_id)

-- An event from before the period that the row already holds.
abbrev pub is_stale : Option ℕ → Option ℕ → Bool
is_stale (some period_end) (some held) = ltb period_end held
is_stale _ _ = false

abbrev or_keep : Option String → String → String
or_keep none held = held
or_keep (some status) held = if str_eq status "" then held else status

abbrev or_keep_id : Option String → Option String → Option String
or_keep_id new held = if truthy new then new else held

abbrev or_keep_end : Option ℕ → Option ℕ → Option ℕ
or_keep_end none held = held
or_keep_end (some period_end) held = some period_end

unfoldable pub apply_event : Event → Subscription → Subscription
apply_event e s = record s {
  status = or_keep e.status s.status;
  current_period_end = or_keep_end (ts e.current_end) s.current_period_end;
  razorpay_customer_id = or_keep_id e.customer_id s.razorpay_customer_id;
}

unfoldable pub start_sync : Db → ℕ → Option User → Db
start_sync db now none = db
start_sync db now (some user) = (maybe_start_mail_sync db user now).1

settle : Event → ℕ → Option Subscription × Db → Reply × Db
settle e now (none, db) = (ignored, db)
settle e now (some sub, db) =
    if is_stale (ts e.current_end) sub.current_period_end
    then (stale, db)
    else (let db' = record db { subs = put_subscription (apply_event e sub) db.subs } in
        (applied, start_sync db' now (get_user db' sub.user_id)))

abbrev locate :
    (String → Option ℕ) → Db → Event → String → Option Subscription → Option Subscription × Db
locate parse_uuid db e id none = link_by_notes parse_uuid db e.notes_user_id id
locate parse_uuid db e id (some sub) = (some sub, db)

handle_id : (String → Option ℕ) → Db → Event → ℕ → Option String → Reply × Db
unfolding settle
handle_id parse_uuid db e now none = (ignored, db)
handle_id parse_uuid db e now (some id) =
    if str_eq id ""
    then (ignored, db)
    else settle e now (locate parse_uuid db e id (find_by_razorpay_id id db.subs))

unfoldable pub handle_event : (String → Option ℕ) → Db → Event → ℕ → Reply × Db
unfolding handle_id
handle_event parse_uuid db e now =
    if is_handled e.event then handle_id parse_uuid db e now e.id else (ignored, db)
