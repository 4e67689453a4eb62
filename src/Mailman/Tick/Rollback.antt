-- ===== src/Mailman/Tick/Rollback.antt =====
-- A clock time that does not parse: src/workers/jobs/mailman_tick.py.
use inbox_pilot.Prelude.{
  ℕ, ◌≡◌, refl, ap, Bool, true, false, not, ◌&&◌, List, [], ◌∷◌, ◌++◌, any, is_some, Bool-cases,
  Option-cases, inl, inr, arith,
}
use inbox_pilot.Mailman.Scheduler.{MailmanSettings, is_delivery_due}
use inbox_pilot.Mailman.Tick.{
  Mailbox, just_delivered, tick_row, append_batches, after_row, tick_rows, list_active_settings,
  tick,
}

-- The row's turn comes to a clock time that does not parse.
abbrev pub raises : Mailbox → ℕ → MailmanSettings → Bool
raises mail now s =
    not (just_delivered s now) && not (is_some (is_delivery_due s (mail.local s.timezone now) now))

tick_row-raises :
    (mail : Mailbox) (now : ℕ) (s : MailmanSettings)
    → is_some (tick_row mail now s) ≡ not (raises mail now s)
unfolding tick_row
tick_row-raises mail now s = elim (Bool-cases (just_delivered s now)) [
  | inl fresh ↦ rw fresh refl
  | inr old ↦ elim (Option-cases (is_delivery_due s (mail.local s.timezone now) now)) [
    | inl bad ↦ rw (old, bad) refl
    | inr (true, due) ↦ rw (old, due) refl
    | inr (false, due) ↦ rw (old, due) refl
  ]
]

rows-raises :
    (mail : Mailbox) (now : ℕ) (ss : List MailmanSettings)
    → is_some (tick_rows mail now ss).rows ≡ not (any (raises mail now) ss)
unfolding tick_rows after_row
rows-raises mail now [] = refl
rows-raises mail now (s ∷ ss) = elim (Option-cases (tick_row mail now s)) [
  | inl bad ↦
      rw (tick_rows, bad, after_row)
        (let q : is_some (tick_row mail now s) ≡ false = rw bad refl in
          ground (arith, tick_row-raises mail now s))
  | inr (r, e) ↦
      (let q : is_some (tick_row mail now s) ≡ true = rw e refl in
        elim (Option-cases (tick_rows mail now ss).rows) [
          | inl raised ↦
              rw (tick_rows, e, after_row, raised)
                (let q' : is_some (tick_rows mail now ss).rows ≡ false = rw raised refl in
                  ground (arith, tick_row-raises mail now s, rows-raises mail now ss))
          | inr (rows, kept) ↦
              rw (tick_rows, e, after_row, kept)
                (let q' : is_some (tick_rows mail now ss).rows ≡ true = rw kept refl in
                  ground (arith, tick_row-raises mail now s, rows-raises mail now ss))
        ])
]

released-front :
    (mail : Mailbox) (now : ℕ) (front back : List MailmanSettings) (s : MailmanSettings)
    → any (raises mail now) front ≡ false
    → raises mail now s ≡ true
    → (tick_rows mail now (front ++ s ∷ back)).released ≡ (tick_rows mail now front).released
unfolding tick_rows after_row append_batches
released-front mail now [] back s quiet bad = elim (Option-cases (tick_row mail now s)) [
  | inl e ↦ rw (tick_rows, e, after_row) refl
  | inr (r, e) ↦ absurd (
      let q : is_some (tick_row mail now s) ≡ true = rw e refl in
      ground (arith, tick_row-raises mail now s))
]
released-front mail now (f ∷ front) back s quiet bad = elim (Option-cases (tick_row mail now f)) [
  | inl e ↦ absurd (
      let q : is_some (tick_row mail now f) ≡ false = rw e refl in
      ground (arith, tick_row-raises mail now f))
  | inr (r, e) ↦
      rw (tick_rows, e, after_row)
        (ap (append_batches r.1) (released-front mail now front back s (ground arith) bad))
]

any-append :
    (p : MailmanSettings → Bool) (front back : List MailmanSettings) (s : MailmanSettings)
    → p s ≡ true
    → any p (front ++ s ∷ back) ≡ true
any-append p [] back s h = ground arith
any-append p (f ∷ front) back s h = ground (arith, any-append p front back s h)

-- If the turn of an active row comes to a clock time that does not parse, and none of the rows
-- before it does, then a tick releases the batches of the rows before it and no others, and leaves
-- every row as it was: none of those batches is on record.
pub tick_rollback :
    (mail : Mailbox) (now : ℕ) (table front back : List MailmanSettings) (s : MailmanSettings)
    → list_active_settings table ≡ front ++ s ∷ back
    → any (raises mail now) front ≡ false
    → raises mail now s ≡ true
    → tick mail now table ≡ (table, (tick_rows mail now front).released)
unfolding tick
tick_rollback mail now table front back s active quiet bad =
    elim (Option-cases (tick_rows mail now (front ++ s ∷ back)).rows) [
      | inl raised ↦ rw (active, raised, released-front mail now front back s quiet bad) refl
      | inr (rows, kept) ↦ absurd (
          let q : is_some (tick_rows mail now (front ++ s ∷ back)).rows ≡ true = rw kept refl in
          ground (
            arith,
            rows-raises mail now (front ++ s ∷ back),
            any-append (raises mail now) front back s bad,
          ))
    ]

-- A tick keeps what it did to the rows exactly if the turn of no active row comes to a clock time
-- that does not parse.
pub tick_rows_kept_iff :
    (mail : Mailbox) (now : ℕ) (table : List MailmanSettings)
    → is_some (tick_rows mail now (list_active_settings table)).rows
      ≡ not (any (raises mail now) (list_active_settings table))
tick_rows_kept_iff mail now table = rows-raises mail now (list_active_settings table)
