-- ===== src/Billing/MailGate/Opens.antt =====
-- When the switch of src/services/billing/gate.py is on.
use inbox_pilot.Prelude.{
  ℕ, ◌≡◌, refl, ◌≢◌, ◌↔◌, String, true, Option, none, some, [], ◌∷◌, ◌++◌, if◌then◌else◌, arith,
  Option-cases, inl, inr,
}
use inbox_pilot.Billing.Rows.{Subscription, User, get_subscription}
use inbox_pilot.Billing.Access.{may_process_mail}
use inbox_pilot.Billing.Access.Laws.{Pays, entitled_iff}
use inbox_pilot.Billing.MailGate.{Db, get_user, mail_gate_open, maybe_start_mail_sync}

-- Mail may be processed only for a user who has finished onboarding and has a subscription that
-- pays now.
pub may_process_mail-Pays :
    (user : User) (sub : Option Subscription) (now : ℕ)
    → may_process_mail user sub now ≡ true
    → (user.onboarded_at ≢ none) × ((s : Subscription) × (sub ≡ some s) × Pays s now)
unfolding may_process_mail
may_process_mail-Pays user none now h = ground arith
may_process_mail-Pays user (some s) now h =
    (ground arith, (s, refl, (entitled_iff s now).0 (unfold may_process_mail in ground arith)))

-- The switch is on only for an id that names an existing user, who has finished onboarding, and
-- whose subscription pays now.
mail_gate_open-Pays :
    (parse_uuid : String → Option ℕ) (db : Db) (user_id : String) (now : ℕ)
    → mail_gate_open parse_uuid db user_id now ≡ true
    → (uid : ℕ) × (user : User) × (s : Subscription) × (parse_uuid user_id ≡ some uid)
      × (get_user db uid ≡ some user)
      × (user.onboarded_at ≢ none)
      × (get_subscription db.subs uid ≡ some s)
      × Pays s now
unfolding mail_gate_open
mail_gate_open-Pays parse_uuid db user_id now h = elim (Option-cases (parse_uuid user_id)) [
  | inl bad ↦ ground arith
  | inr (uid, named) ↦ elim (Option-cases (get_user db uid)) [
    | inl absent ↦ ground arith
    | inr (user, there) ↦
        let (onboarded, known) =
          may_process_mail-Pays user (get_subscription db.subs uid) now (ground arith) in
        let (s, found, pays) = known in (uid, user, s, named, there, onboarded, found, pays)
  ]
]

-- A sync is queued exactly when the user was never synced and may be processed now; the queue
-- grows by that user alone, and the rows stay as they are.
maybe_start_mail_sync_queues :
    (db : Db) (user : User) (now : ℕ)
    → let (started, db') = maybe_start_mail_sync db user now in
      ((started ≡ true) ↔ (
        (user.initial_sync_at ≡ none)
        × (may_process_mail user (get_subscription db.subs user.id) now ≡ true)))
      × (db'.sync_queue ≡ (if started then db.sync_queue ++ user.id ∷ [] else db.sync_queue))
      × (db'.users ≡ db.users)
      × (db'.subs ≡ db.subs)
unfolding maybe_start_mail_sync
maybe_start_mail_sync_queues db user now =
    ((λ h. ground arith, λ h. ground arith), ground arith, ground arith, ground arith)
