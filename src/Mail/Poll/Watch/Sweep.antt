-- ===== src/Mail/Poll/Watch/Sweep.antt =====
-- What a sweep over the watches achieves: src/workers/jobs/gmail_poll.py.
use inbox_pilot.Prelude.{
  ℕ, suc, ◌+◌, ◌*◌, ◌≤◌, ltb, ◌≡◌, refl, sym, ap, subst, ◌∙◌, unix_epoch, ◌&&◌, ◌||◌, not, String,
  str_eq, eq_iff, contains, Bool, true, false, some, List, [], ◌∷◌, nonempty, length, All, ok,
  if◌then◌else◌, Bool-cases, inl, inr, arith,
}
use inbox_pilot.Google.Connection.{
  GoogleConnection, of_user, set_watch_expiry, is_pollable, lapses, list_watches_needing_renewal,
}
use inbox_pilot.Mail.Mime.{Text}
use inbox_pilot.Mail.Poll.{Rows, int_of}
use inbox_pilot.Mail.Poll.Watch.{
  watch_renew_margin, PushSettings, Gate, install_watch, Renewals, counted, renew_each, renew_due,
  SweepOutcome, renew_watches,
}

abbrev watch_due : ℕ → GoogleConnection → Bool
watch_due cutoff r = is_pollable r && lapses cutoff r.watch_expires_at

-- A row that is due is one of some users'.
abbrev IsListed : ℕ → List String → GoogleConnection → Type 0
IsListed cutoff users r = (not (watch_due cutoff r) || contains r.user_id users) ≡ true

-- The mailbox is let through, and Gmail gives it a watch beyond the cutoff.
abbrev pub Grants : Gate → ℕ → String → Type 0
Grants gate cutoff user =
    (gate.lets_through user ≡ true)
    × ((t : Text) × (ms : ℕ) × (gate.watch user ≡ ok (some t))
        × (nonempty t ≡ true)
        × (int_of t ≡ some ms)
        × (cutoff ≤ unix_epoch + ms * 1000))

abbrev IsOn : PushSettings → Type 0
IsOn settings =
    (settings.gmail_push_enabled ≡ true) × (nonempty settings.google_pubsub_topic ≡ true)

install_watch-granted :
    (settings : PushSettings) (gate : Gate) (cutoff : ℕ) (user : String) (rows : Rows)
    → IsOn settings
    → Grants gate cutoff user
    → (at : ℕ) × (cutoff ≤ at)
      × (install_watch settings gate user rows ≡ (true, set_watch_expiry user (some at) rows))
unfolding install_watch
install_watch-granted settings gate cutoff user rows (on, topic)
      (opened, (t, ms, given, full, number, far)) =
    (unix_epoch + ms * 1000, far, rw (on, topic, opened, given, full, number) refl)

-- A row whose watch reaches beyond the cutoff is not due.
set-IsListed :
    (cutoff at : ℕ) (user : String) (users : List String) (rows : Rows)
    → cutoff ≤ at
    → All (IsListed cutoff (user ∷ users)) rows
    → All (IsListed cutoff users) (set_watch_expiry user (some at) rows)
unfolding set_watch_expiry
set-IsListed cutoff at user users [] far h = tt
set-IsListed cutoff at user users (r ∷ rows) far (l, h) = elim (Bool-cases (of_user user r)) [
  | inl mine ↦
      (let later : ltb at cutoff ≡ false = ground arith in
        rw mine (
          rw later (undue (is_pollable r) (contains r.user_id users)),
          set-IsListed cutoff at user users rows far h,
        ))
  | inr other ↦ rw other (rw other at l, set-IsListed cutoff at user users rows far h)
]
  where
    undue : (b c : Bool) → (not (b && false) || c) ≡ true
    undue true c = refl
    undue false c = refl

-- Every mailbox of the list gets its watch, and is counted.
renew_each-IsListed :
    (settings : PushSettings) (gate : Gate) (cutoff : ℕ) (users : List String) (r : Renewals)
    → IsOn settings
    → All (Grants gate cutoff) users
    → All (IsListed cutoff users) r.rows
    → ((renew_each settings gate users r).renewed ≡ r.renewed + length users)
      × ((renew_each settings gate users r).failed ≡ r.failed)
      × All (IsListed cutoff []) (renew_each settings gate users r).rows
renew_each-IsListed settings gate cutoff [] r on grants h = (omega arith, refl, h)
renew_each-IsListed settings gate cutoff (user ∷ users) r on (grant, grants) h =
    let (at, far, given) = install_watch-granted settings gate cutoff user r.rows on grant in
    let next : Renewals = record {
      renewed = suc r.renewed;
      failed = r.failed;
      rows = set_watch_expiry user (some at) r.rows;
    } in
    let step : counted (install_watch settings gate user r.rows) r ≡ next =
      ap (λ x. counted x r) given in
    let (renewed, failed, rest) =
      renew_each-IsListed settings gate cutoff users next on grants
        (set-IsListed cutoff at user users r.rows far h) in
    let same = sym (ap (renew_each settings gate users) step) in
    (
      sym (ap (λ (x : Renewals). x.renewed) same) ∙ renewed ∙ omega arith,
      sym (ap (λ (x : Renewals). x.failed) same) ∙ failed,
      subst (λ (x : Renewals). All (IsListed cutoff []) x.rows) same rest,
    )

or_more : (a b c : Bool) → (a || b) ≡ true → (a || (c || b)) ≡ true
or_more true b c h = refl
or_more false true true h = refl
or_more false true false h = refl
or_more false false c h = absurd (ground arith)

IsListed-more :
    (cutoff : ℕ) (user : String) (users : List String) (rows : Rows)
    → All (IsListed cutoff users) rows
    → All (IsListed cutoff (user ∷ users)) rows
IsListed-more cutoff user users [] h = tt
IsListed-more cutoff user users (r ∷ rows) (l, h) = (
  or_more (not (watch_due cutoff r)) (contains r.user_id users) (str_eq r.user_id user) l,
  IsListed-more cutoff user users rows h,
)

list-due :
    (cutoff : ℕ) (r : GoogleConnection) (rows : Rows)
    → watch_due cutoff r ≡ true
    → list_watches_needing_renewal cutoff (r ∷ rows)
      ≡ r.user_id ∷ list_watches_needing_renewal cutoff rows
unfolding list_watches_needing_renewal
list-due cutoff r rows due = rw due refl

list-idle :
    (cutoff : ℕ) (r : GoogleConnection) (rows : Rows)
    → watch_due cutoff r ≡ false
    → list_watches_needing_renewal cutoff (r ∷ rows) ≡ list_watches_needing_renewal cutoff rows
unfolding list_watches_needing_renewal
list-idle cutoff r rows idle = rw idle refl

listed_self : (a c s : Bool) → s ≡ true → (not a || (s || c)) ≡ true
listed_self true c s e = rw e refl
listed_self false c s e = refl

listed_idle : (a c : Bool) → a ≡ false → (not a || c) ≡ true
listed_idle true c e = absurd (ground arith)
listed_idle false c e = refl

-- At first the rows that are due are those of the list.
due-IsListed :
    (cutoff : ℕ) (rows : Rows)
    → All (IsListed cutoff (list_watches_needing_renewal cutoff rows)) rows
due-IsListed cutoff [] = tt
due-IsListed cutoff (r ∷ rows) =
    let users = list_watches_needing_renewal cutoff rows in
    elim (Bool-cases (watch_due cutoff r)) [
      | inl due ↦
          (let self : str_eq r.user_id r.user_id ≡ true = (eq_iff r.user_id r.user_id).1 refl in
            subst (λ l. All (IsListed cutoff l) (r ∷ rows)) (sym (list-due cutoff r rows due))
              (
                listed_self (watch_due cutoff r) (contains r.user_id users) _ self,
                IsListed-more cutoff r.user_id users rows (due-IsListed cutoff rows),
              ))
      | inr idle ↦
          subst (λ l. All (IsListed cutoff l) (r ∷ rows)) (sym (list-idle cutoff r rows idle))
            (
              listed_idle (watch_due cutoff r) (contains r.user_id users) idle,
              due-IsListed cutoff rows,
            )
    ]

none-due :
    (cutoff : ℕ) (rows : Rows)
    → All (IsListed cutoff []) rows
    → list_watches_needing_renewal cutoff rows ≡ []
unfolding list_watches_needing_renewal
none-due cutoff [] h = refl
none-due cutoff (r ∷ rows) (l, h) =
    let idle : watch_due cutoff r ≡ false = ground arith in rw idle (none-due cutoff rows h)

both_on :
    (a b : Bool) (x y z : SweepOutcome × Rows)
    → a ≡ true
    → b ≡ true
    → (if not a then x else if not b then y else z) ≡ z
both_on true true x y z h k = refl
both_on true false x y z h k = absurd (ground arith)
both_on false b x y z h k = absurd (ground arith)

renew_watches-on :
    (settings : PushSettings) (gate : Gate) (now : ℕ) (rows : Rows)
    → settings.gmail_push_enabled ≡ true
    → nonempty settings.google_pubsub_topic ≡ true
    → renew_watches settings gate now rows
      ≡ renew_due settings gate (list_watches_needing_renewal (now + watch_renew_margin) rows) rows
unfolding renew_watches
renew_watches-on settings gate now rows on topic = both_on _ _ _ _ _ on topic

-- After a sweep in which the mail gate and Gmail let every mailbox that is due have a watch beyond
-- the margin, no mailbox is due: each of them was renewed and none failed. Push is on, and a topic
-- is set.
pub renew_watches-Renews :
    (settings : PushSettings) (gate : Gate) (now : ℕ) (rows : Rows)
    → settings.gmail_push_enabled ≡ true
    → nonempty settings.google_pubsub_topic ≡ true
    → All
        (Grants gate (now + watch_renew_margin))
        (list_watches_needing_renewal (now + watch_renew_margin) rows)
    → ((renew_watches settings gate now rows).0
        ≡ SweepOutcome.renewals
            (length (list_watches_needing_renewal (now + watch_renew_margin) rows))
            0)
      × (list_watches_needing_renewal
            (now + watch_renew_margin)
            (renew_watches settings gate now rows).1
          ≡ [])
renew_watches-Renews settings gate now rows on topic grants =
    let cutoff = now + watch_renew_margin in
    let due = list_watches_needing_renewal cutoff rows in
    let start : Renewals = record { renewed = 0; failed = 0; rows = rows } in
    let (renewed, failed, rest) =
      renew_each-IsListed settings gate cutoff due start (on, topic) grants
        (due-IsListed cutoff rows) in
    let all_renewed : (renew_each settings gate due start).renewed ≡ length due =
      omega (arith, renewed) in
    let runs = renew_watches-on settings gate now rows on topic in
    (
      ap (λ (x : SweepOutcome × Rows). x.0) runs
          ∙ ap (λ n. SweepOutcome.renewals n (renew_each settings gate due start).failed)
              all_renewed
          ∙ ap (SweepOutcome.renewals (length due)) failed,
      ap (λ (x : SweepOutcome × Rows). list_watches_needing_renewal cutoff x.1) runs
          ∙ none-due cutoff (renew_each settings gate due start).rows rest,
    )
