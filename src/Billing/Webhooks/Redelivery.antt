-- ===== src/Billing/Webhooks/Redelivery.antt =====
-- An event that is delivered again: src/services/billing/webhooks.py.
use inbox_pilot.Prelude.{
  ℕ, ◌≡◌, refl, String, str_eq, true, false, Option, none, some, arith, Option-cases, Bool-cases,
  inl, inr, ◌∙◌, ap,
}
use inbox_pilot.Billing.Rows.{Subscription}
use inbox_pilot.Billing.MailGate.{Db}
use inbox_pilot.Billing.Webhooks.{
  Reply, applied, ignored, stale, Event, is_handled, ts, find_by_razorpay_id, put_subscription,
  apply_event, settle, locate, handle_id, handle_event, is_stale, or_keep_end,
}
use inbox_pilot.Billing.Webhooks.Rows.{Unique, put-put, find-put_old}
use inbox_pilot.Billing.Webhooks.Order.{
  IsLocated, written, written-subs, apply-keeps_user, locate-IsLocated,
}

not_stale_again :
    (new held : Option ℕ) → is_stale new held ≡ false → is_stale new (or_keep_end new held) ≡ false
not_stale_again none held h = h
not_stale_again (some t) none h = ground arith
not_stale_again (some t) (some t') h = ground arith

apply-apply : (e : Event) (s : Subscription) → apply_event e (apply_event e s) ≡ apply_event e s
unfolding apply_event
apply-apply e s = ground arith

settle-none : (e : Event) (now : ℕ) (db : Db) → settle e now (none, db) ≡ (ignored, db)
unfolding settle
settle-none e now db = refl

settle_stale :
    (e : Event) (now : ℕ) (sub : Subscription) (db : Db)
    → is_stale (ts e.current_end) sub.current_period_end ≡ true
    → settle e now (some sub, db) ≡ (stale, db)
unfolding settle
settle_stale e now sub db old = rw old

settle_fresh :
    (e : Event) (now : ℕ) (sub : Subscription) (db : Db)
    → is_stale (ts e.current_end) sub.current_period_end ≡ false
    → settle e now (some sub, db) ≡ (applied, written e now sub db)
unfolding settle
settle_fresh e now sub db fresh = rw fresh

module _ (parse_uuid : String → Option ℕ) (e : Event) (now later : ℕ) (id : String) where
  abbrev again : Db → Reply × Db
  again db = settle e later (locate parse_uuid db e id (find_by_razorpay_id id db.subs))

  again-settled :
      (s : Subscription) (db : Db)
      → find_by_razorpay_id id db.subs ≡ some s
      → is_stale (ts e.current_end) s.current_period_end ≡ false
      → put_subscription (apply_event e s) db.subs ≡ db.subs
      → ((again db).0 ≡ applied) × ((again db).1.subs ≡ db.subs)
  again-settled s db found fresh same =
      rw found (rw (settle_fresh e later s db fresh) (refl, written-subs e later s db ∙ same))

  apply-fresh :
      (s : Subscription)
      → is_stale (ts e.current_end) s.current_period_end ≡ false
      → is_stale (ts e.current_end) (apply_event e s).current_period_end ≡ false
  unfolding apply_event
  apply-fresh s h = not_stale_again (ts e.current_end) s.current_period_end h

  apply-keeps_id :
      (s : Subscription) → (apply_event e s).razorpay_subscription_id ≡ s.razorpay_subscription_id
  unfolding apply_event
  apply-keeps_id s = refl

  settle-again :
      {db : Db} (r : Option Subscription × Db)
      → IsLocated db id r
      → (settle e now r).0 ≡ applied
      → ((again (settle e now r).1).0 ≡ applied)
        × ((again (settle e now r).1).1.subs ≡ (settle e now r).1.subs)
  settle-again (none, db) l h = cc (settle-none e now db)
  settle-again (some sub, db) l h =
      elim (Bool-cases (is_stale (ts e.current_end) sub.current_period_end)) [
        | inl old ↦ ground (arith, settle_stale e now sub db old)
        | inr fresh ↦
            let s = apply_event e sub in
            rw (settle_fresh e now sub db fresh) (
              again-settled s (written e now sub db)
                (ap (find_by_razorpay_id id) (written-subs e now sub db)
                  ∙ find-put_old id sub s db.subs l.unique (l.found sub refl)
                      (apply-keeps_user e now sub) (apply-keeps_id sub ∙ l.has_id sub refl))
                (apply-fresh sub fresh)
                (cc (written-subs e now sub db, apply-apply e sub, put-put s db.subs)))
      ]

module _ (parse_uuid : String → Option ℕ) (e : Event) where
  -- What an event that is not turned away at the door comes to.
  handled_settles :
      (db : Db) (now : ℕ) (id : String)
      → is_handled e.event ≡ true
      → e.id ≡ some id
      → str_eq id "" ≡ false
      → handle_event parse_uuid db e now
        ≡ settle e now (locate parse_uuid db e id (find_by_razorpay_id id db.subs))
  unfolding handle_event handle_id
  handled_settles db now id handled there full =
      rw handled (ap (handle_id parse_uuid db e now) there ∙ rw full)

  applied-handled :
      (db : Db) (now : ℕ)
      → (handle_event parse_uuid db e now).0 ≡ applied
      → (id : String) × (is_handled e.event ≡ true) × (e.id ≡ some id) × (str_eq id "" ≡ false)
  unfolding handle_event handle_id
  applied-handled db now h = elim (Option-cases e.id) [
    | inl missing ↦ ground arith
    | inr (id, there) ↦ (id, ground arith, there, ground arith)
  ]

module _ (parse_uuid : String → Option ℕ) (db : Db) (e : Event) (now later : ℕ) where
  -- From a table with one row for each user: an event that was applied is, when it is delivered
  -- again at any later time, applied again and leaves every subscription row as the first
  -- delivery left it.
  pub redelivery :
      Unique db.subs
      → (handle_event parse_uuid db e now).0 ≡ applied
      → let (_, db') = handle_event parse_uuid db e now in
        let (reply, db'') = handle_event parse_uuid db' e later in
        (reply ≡ applied) × (db''.subs ≡ db'.subs)
  redelivery k h =
      let (id, handled, there, full) = applied-handled parse_uuid e db now h in
      let first = handled_settles parse_uuid e db now id handled there full in
      rw first (
        rw (handled_settles parse_uuid e _ later id handled there full) (
          settle-again parse_uuid e now later id
            (locate parse_uuid db e id (find_by_razorpay_id id db.subs))
            (locate-IsLocated db id k parse_uuid e) (rw first at h)))
