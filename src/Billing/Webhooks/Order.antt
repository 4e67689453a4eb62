-- ===== src/Billing/Webhooks/Order.antt =====
-- Events in any order: src/services/billing/webhooks.py.
use inbox_pilot.Prelude.{
  ℕ, ◌≤◌, ◌==◌, ◌≡◌, refl, String, str_eq, false, Option, none, some, List, arith, Option-cases,
  Bool-cases, inl, inr,
}
use inbox_pilot.Billing.Rows.{Subscription, User, get_subscription}
use inbox_pilot.Billing.MailGate.{Db, get_user, maybe_start_mail_sync}
use inbox_pilot.Billing.Webhooks.{
  Event, is_handled, ts, find_by_razorpay_id, put_subscription, linked, link_user, link_id,
  link_by_notes, apply_event, start_sync, settle, locate, handle_id, handle_event, is_stale,
  or_keep_end,
}
use inbox_pilot.Billing.Webhooks.Rows.{
  find-has_id, get-user_id, Unique, get-put, find-get, put-Unique, find-put_new,
}

abbrev end_of : Option Subscription → Option ℕ
end_of none = none
end_of (some s) = s.current_period_end

-- The end of the period that a user has paid for.
abbrev pub period_end : Db → ℕ → Option ℕ
period_end db u = end_of (get_subscription db.subs u)

-- What is held is still held, or something later is.
abbrev pub NotBefore : Option ℕ → Option ℕ → Type 0
NotBefore none _ = Unit
NotBefore (some t) none = ⊥
NotBefore (some t) (some t') = t ≤ t'

NotBefore-refl : (o : Option ℕ) → NotBefore o o
NotBefore-refl none = tt
NotBefore-refl (some t) = omega arith

-- What the search for an event's row hands on: the row is in the table under its user, it has the
-- event's id, which is found there, no period has moved, and no user has two rows.
pub record IsLocated (db : Db) (id : String) (r : Option Subscription × Db) : Type 0 where
  pub unique : Unique r.1.subs
  pub there : (s : Subscription) → r.0 ≡ some s → get_subscription r.1.subs s.user_id ≡ some s
  pub has_id : (s : Subscription) → r.0 ≡ some s → s.razorpay_subscription_id ≡ some id
  pub found : (s : Subscription) → r.0 ≡ some s → find_by_razorpay_id id r.1.subs ≡ some s
  pub kept : (u : ℕ) → period_end r.1 u ≡ period_end db u
  pub users : r.1.users ≡ db.users

start_sync-subs : (db : Db) (now : ℕ) (u : Option User) → (start_sync db now u).subs ≡ db.subs
unfolding start_sync maybe_start_mail_sync
start_sync-subs db now none = refl
start_sync-subs db now (some u) = ground arith

put-period :
    (s : Subscription) (u : ℕ) (rows : List Subscription)
    → NotBefore (end_of (get_subscription rows s.user_id)) s.current_period_end
    → NotBefore
        (end_of (get_subscription rows u))
        (end_of (get_subscription (put_subscription s rows) u))
put-period s u rows h = elim (Bool-cases (s.user_id == u)) [
  | inl e ↦ rw (get-put s u rows) (rw e (ground arith))
  | inr e ↦ rw (get-put s u rows) (rw e (NotBefore-refl _))
]

keep_end-NotBefore :
    (new held : Option ℕ) → is_stale new held ≡ false → NotBefore held (or_keep_end new held)
keep_end-NotBefore none held h = NotBefore-refl held
keep_end-NotBefore (some t) none h = tt
keep_end-NotBefore (some t) (some t') h = ground arith

linked_row :
    (db : Db) (id : String) (uid : ℕ)
    → ((linked db id uid).user_id ≡ uid)
      × ((linked db id uid).current_period_end ≡ period_end db uid)
linked_row db id uid = elim (Option-cases (get_subscription db.subs uid)) [
  | inl e ↦ rw e (refl, refl)
  | inr (s, e) ↦ rw e (get-user_id uid s db.subs e, refl)
]

module _ (db : Db) (id : String) (k : Unique db.subs) where
  absent-IsLocated : IsLocated db id (none, db)
  absent-IsLocated = record {
    unique = k;
    there = λ s e. cc;
    has_id = λ s e. cc;
    found = λ s e. cc;
    kept = λ u. refl;
    users = refl;
  }

  module _ (new_id : find_by_razorpay_id id db.subs ≡ none) where
    link_user-IsLocated : (uid : ℕ) (u : Option User) → IsLocated db id (link_user db id uid u)
    unfolding link_user
    link_user-IsLocated uid none = absent-IsLocated
    link_user-IsLocated uid (some user) = record {
      unique = put-Unique (linked db id uid) db.subs k;
      there = λ s e. ground (arith, get-put (linked db id uid) s.user_id db.subs);
      has_id = λ s e. ground arith;
      found = λ s e. ground (arith, find-put_new id (linked db id uid) db.subs refl new_id);
      kept = λ u. ground (arith, get-put (linked db id uid) u db.subs, linked_row db id uid);
      users = refl;
    }

    link-IsLocated :
        (parse_uuid : String → Option ℕ) (notes : Option String)
        → IsLocated db id (link_by_notes parse_uuid db notes id)
    unfolding link_by_notes
    link-IsLocated parse_uuid none = absent-IsLocated
    link-IsLocated parse_uuid (some raw) = elim (Bool-cases (str_eq raw "")) [
      | inl e ↦ rw e absent-IsLocated
      | inr e ↦ rw e (elim (Option-cases (parse_uuid raw)) [
        | inl bad ↦ rw (bad, link_id) absent-IsLocated
        | inr (uid, named) ↦ rw (named, link_id) (link_user-IsLocated uid (get_user db uid))
      ])
    ]

  pub locate-IsLocated :
      (parse_uuid : String → Option ℕ) (e : Event)
      → IsLocated db id (locate parse_uuid db e id (find_by_razorpay_id id db.subs))
  locate-IsLocated parse_uuid e = elim (Option-cases (find_by_razorpay_id id db.subs)) [
    | inl new ↦ rw new (link-IsLocated new parse_uuid e.notes_user_id)
    | inr (s, old) ↦ rw old (record {
      unique = k;
      there = λ s' q. ground (arith, find-get id s db.subs k old);
      has_id = λ s' q. ground (arith, find-has_id id s db.subs old);
      found = λ s' q. ground arith;
      kept = λ u. refl;
      users = refl;
    })
  ]

module _ (e : Event) (now : ℕ) where
  -- The table after an event has been applied to a row.
  abbrev pub written : Subscription → Db → Db
  written sub db =
      let db' = record db { subs = put_subscription (apply_event e sub) db.subs } in
      start_sync db' now (get_user db' sub.user_id)

  pub written-subs :
      (sub : Subscription) (db : Db)
      → (written sub db).subs ≡ put_subscription (apply_event e sub) db.subs
  written-subs sub db = start_sync-subs _ now _

  pub apply-keeps_user : (sub : Subscription) → (apply_event e sub).user_id ≡ sub.user_id
  unfolding apply_event
  apply-keeps_user sub = refl

  apply-NotBefore :
      (sub : Subscription)
      → is_stale (ts e.current_end) sub.current_period_end ≡ false
      → NotBefore sub.current_period_end (apply_event e sub).current_period_end
  unfolding apply_event
  apply-NotBefore sub fresh = keep_end-NotBefore (ts e.current_end) sub.current_period_end fresh

  settle_period :
      {db : Db} {id : String} (r : Option Subscription × Db) (u : ℕ)
      → IsLocated db id r
      → NotBefore (period_end db u) (period_end (settle e now r).1 u)
        × Unique (settle e now r).1.subs
  unfolding settle
  settle_period (none, db') u l = (rw (l.kept u) (NotBefore-refl _), l.unique)
  settle_period {db} (some sub, db') u l =
      elim (Bool-cases (is_stale (ts e.current_end) sub.current_period_end)) [
        | inl old ↦ rw old (rw (l.kept u) (NotBefore-refl _), l.unique)
        | inr fresh ↦ rw fresh (
          rw (written-subs sub db') (
              rw (← l.kept u) (
                put-period (apply_event e sub) u db'.subs
                  (rw (apply-keeps_user sub) (rw (l.there sub refl) (apply-NotBefore sub fresh))))),
          rw (written-subs sub db') (put-Unique (apply_event e sub) db'.subs l.unique),
        )
      ]

module _ (parse_uuid : String → Option ℕ) (db : Db) (e : Event) (now : ℕ) where
  -- From a table with one row for each user, no event moves the end of any user's paid period
  -- back, and no user gets a second row: not on an ignored event, nor on a stale or an applied one.
  pub period_never_moves_back :
      (u : ℕ)
      → Unique db.subs
      → let (_, db') = handle_event parse_uuid db e now in
        NotBefore (period_end db u) (period_end db' u) × Unique db'.subs
  unfolding handle_event handle_id
  period_never_moves_back u k = elim (Bool-cases (is_handled e.event)) [
    | inl h ↦ rw h (elim (Option-cases e.id) [
      | inl missing ↦ rw missing (NotBefore-refl _, k)
      | inr (id, there) ↦
          rw (there, handle_id)
            (elim (Bool-cases (str_eq id "")) [
              | inl empty ↦ rw empty (NotBefore-refl _, k)
              | inr full ↦ rw full (settle_period e now _ u (locate-IsLocated db id k parse_uuid e))
            ])
    ])
    | inr h ↦ rw h (NotBefore-refl _, k)
  ]
