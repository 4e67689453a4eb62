-- ===== src/Mailman/Tick/Once.antt =====
-- Ticks that follow each other: src/workers/jobs/mailman_tick.py.
use inbox_pilot.Prelude.{
  ℕ, ◌+◌, ◌*◌, ◌<◌, ◌==◌, second, ◌≡◌, subst, refl, ◌∙◌, sym, ap, Bool, true, false, ◌||◌, Option,
  none, some, List, [], ◌∷◌, any, Bool-cases, Option-cases, inl, inr, arith, String,
}
use inbox_pilot.Mailman.Scheduler.{MailmanSettings, is_delivery_due}
use inbox_pilot.Mailman.Tick.{
  Mailbox, Batch, just_delivered, deliver, batch_of, tick_row, append_batches, after_row, tick_rows,
}

abbrev pub is_row_of : ℕ → MailmanSettings → Bool
is_row_of u s = s.user_id == u

abbrev pub released_to : ℕ → List Batch → Bool
released_to u batches = any (λ (b : Batch). b.user_id == u) batches

-- The table's unique index on `user_id`.
abbrev pub UniqueUsers : List MailmanSettings → Type 0
UniqueUsers [] = Unit
UniqueUsers (s ∷ rest) = (any (is_row_of s.user_id) rest ≡ false) × UniqueUsers rest

released-append :
    (u : ℕ) (k l : List Batch)
    → released_to u (append_batches k l) ≡ (released_to u k || released_to u l)
unfolding append_batches
released-append u [] l = refl
released-append u (b ∷ k) l = ground (arith, released-append u k l)

batch-to :
    (mail : Mailbox) (u v : ℕ) (ms : List String)
    → released_to u (batch_of mail v ms) ≡ true
    → v ≡ u
batch-to mail u v [] h = ground arith
batch-to mail u v (m ∷ ms) h = elim (Bool-cases (mail.release v (m ∷ ms))) [
  | inl sent ↦ (let h' : ((v == u) || false) ≡ true = rw sent at h in ground arith)
  | inr kept ↦ absurd (let h' : false ≡ true = rw kept at h in ground arith)
]

-- What a turn of the loop leaves: the row is its user's, and a batch is to that user and stamps it.
abbrev Turned : ℕ → MailmanSettings → Option (MailmanSettings × List Batch) → Type 0
Turned now s none = Unit
Turned now s (some r) =
    (r.0.user_id ≡ s.user_id)
    × ((u : ℕ) → released_to u r.1 ≡ true → (s.user_id ≡ u) × (r.0.last_delivery_at ≡ some now))

unmoved : (now : ℕ) (s : MailmanSettings) → Turned now s (some (s, []))
unmoved now s = (refl, λ u h. absurd (ground arith))

delivered :
    (mail : Mailbox) (now : ℕ) (s : MailmanSettings) (held : Option (List String))
    → Turned now s (some (deliver mail now s held))
delivered mail now s none = unmoved now s
delivered mail now s (some ms) = (refl, λ u h. (batch-to mail u s.user_id ms h, refl))

tick_row-Turned :
    (mail : Mailbox) (now : ℕ) (s : MailmanSettings) → Turned now s (tick_row mail now s)
unfolding tick_row
tick_row-Turned mail now s = elim (Bool-cases (just_delivered s now)) [
  | inl fresh ↦ rw fresh (unmoved now s)
  | inr old ↦ elim (Option-cases (is_delivery_due s (mail.local s.timezone now) now)) [
    | inl bad ↦ rw (old, bad) tt
    | inr (true, due) ↦ rw (old, due) (delivered mail now s (mail.held_message_ids s.user_id))
    | inr (false, due) ↦ rw (old, due) (unmoved now s)
  ]
]

-- The same of a pass over several rows.
released_to-rows :
    (mail : Mailbox) (now u : ℕ) (ss : List MailmanSettings)
    → released_to u (tick_rows mail now ss).released ≡ true
    → any (is_row_of u) ss ≡ true
unfolding tick_rows after_row append_batches
released_to-rows mail now u [] h = h
released_to-rows mail now u (s ∷ ss) h = elim (Option-cases (tick_row mail now s)) [
  | inl bad ↦ absurd (let h' : false ≡ true = rw (tick_rows, bad, after_row) at h in ground arith)
  | inr (r, e) ↦
      (let h' : released_to u (append_batches r.1 (tick_rows mail now ss).released) ≡ true =
          rw (tick_rows, e, after_row) at h in
        let turned : Turned now s (some r) = subst (Turned now s) e (tick_row-Turned mail now s) in
        ground (
          arith,
          released-append u r.1 (tick_rows mail now ss).released,
          turned.1 u,
          released_to-rows mail now u ss,
        ))
]

-- What the rows of a pass keep.
abbrev SameUsers : List MailmanSettings → Option (List MailmanSettings) → Type 0
SameUsers ss none = Unit
SameUsers ss (some rows) = (u : ℕ) → any (is_row_of u) rows ≡ any (is_row_of u) ss

-- The pass over the rest.
rest-some :
    (mail : Mailbox) (now : ℕ) (s : MailmanSettings) (ss rows : List MailmanSettings)
    → (tick_rows mail now (s ∷ ss)).rows ≡ some rows
    → (r : MailmanSettings × List Batch) × (rows0 : List MailmanSettings) × (tick_row mail now s
        ≡ some r)
      × ((tick_rows mail now ss).rows ≡ some rows0)
      × (rows ≡ r.0 ∷ rows0)
unfolding tick_rows after_row append_batches
rest-some mail now s ss rows h = elim (Option-cases (tick_row mail now s)) [
  | inl bad ↦
      absurd (let h' : some rows ≡ none = sym (rw (tick_rows, bad, after_row) at h) in ground arith)
  | inr (r, e) ↦ elim (Option-cases (tick_rows mail now ss).rows) [
    | inl raised ↦ absurd (
        let h' : some rows ≡ none = sym (rw (tick_rows, e, after_row, raised) at h) in ground arith)
    | inr (rows0, e0) ↦ (
      r,
      rows0,
      e,
      e0,
      (let h' : some (r.0 ∷ rows0) ≡ some rows = rw (tick_rows, e, after_row, e0) at h in cc),
    )
  ]
]

same_users :
    (mail : Mailbox) (now u : ℕ) (ss rows : List MailmanSettings)
    → (tick_rows mail now ss).rows ≡ some rows
    → any (is_row_of u) rows ≡ any (is_row_of u) ss
unfolding tick_rows
same_users mail now u [] rows h = (let q : [] ≡ rows = cc in ap (any (is_row_of u)) (sym q))
same_users mail now u (s ∷ ss) rows h =
    let (r, rows0, e, e0, q) = rest-some mail now s ss rows h in
    let turned : Turned now s (some r) = subst (Turned now s) e (tick_row-Turned mail now s) in
    rw (q, same_users mail now u ss rows0 e0, turned.0) refl

-- A row with a fresh stamp is passed over.
stamped-waits :
    (mail : Mailbox) (now later : ℕ) (s : MailmanSettings)
    → s.last_delivery_at ≡ some now
    → later < now + second * 90
    → tick_row mail later s ≡ some (s, [])
unfolding tick_row
stamped-waits mail now later s e soon =
    let fresh : just_delivered s later ≡ true = rw e (ground arith) in rw fresh refl

-- The pass over a row and the rest, if none of the rest is the user's.
first-waits :
    (mail : Mailbox) (now later u : ℕ) (s : MailmanSettings) (ss : List MailmanSettings)
    → s.last_delivery_at ≡ some now
    → later < now + second * 90
    → any (is_row_of u) ss ≡ false
    → released_to u (tick_rows mail later (s ∷ ss)).released ≡ false
unfolding tick_rows after_row append_batches
first-waits mail now later u s ss stamped soon absent =
    rw (tick_rows, stamped-waits mail now later s stamped soon, after_row, append_batches)
      (elim (Bool-cases (released_to u (tick_rows mail later ss).released)) [
        | inl sent ↦ absurd (ground (arith, released_to-rows mail later u ss sent))
        | inr none_sent ↦ none_sent
      ])

-- The same, if the row is not the user's.
first_other :
    (mail : Mailbox) (later u : ℕ) (s : MailmanSettings) (ss : List MailmanSettings)
    → is_row_of u s ≡ false
    → released_to u (tick_rows mail later ss).released ≡ false
    → released_to u (tick_rows mail later (s ∷ ss)).released ≡ false
unfolding tick_rows after_row append_batches
first_other mail later u s ss other h = elim (Option-cases (tick_row mail later s)) [
  | inl bad ↦ rw (tick_rows, bad, after_row) refl
  | inr (r, e) ↦
      (let turned : Turned later s (some r) =
          subst (Turned later s) e (tick_row-Turned mail later s) in
        rw (tick_rows, e, after_row, released-append u r.1 (tick_rows mail later ss).released)
          (elim (Bool-cases (released_to u r.1)) [
            | inl sent ↦ absurd (ground (arith, turned.1 u sent))
            | inr none_sent ↦ ground arith
          ]))
]

other_user :
    (u : ℕ) (s r : MailmanSettings) (ss : List MailmanSettings)
    → any (is_row_of s.user_id) ss ≡ false
    → any (is_row_of u) ss ≡ true
    → r.user_id ≡ s.user_id
    → is_row_of u r ≡ false
other_user u s r ss absent row same = elim (Bool-cases (is_row_of u r)) [
  | inl mine ↦ absurd (
      let q : u ≡ s.user_id = ground arith in
      let row' : any (is_row_of s.user_id) ss ≡ true =
        subst (λ v. any (is_row_of v) ss ≡ true) q row in
      ground arith)
  | inr not_mine ↦ not_mine
]

-- If each user has one row, a pass ends without an exception, and another begins over the rows it
-- left before 90 seconds have gone by, then a user whose mail the first released has none released
-- by the second, whatever the two find in the mailboxes.
pub released_once :
    (mail mail' : Mailbox) (now later u : ℕ) (ss rows : List MailmanSettings)
    → UniqueUsers ss
    → (tick_rows mail now ss).rows ≡ some rows
    → later < now + second * 90
    → released_to u (tick_rows mail now ss).released ≡ true
    → released_to u (tick_rows mail' later rows).released ≡ false
unfolding tick_rows after_row append_batches
released_once mail mail' now later u [] rows unique h soon sent = absurd (ground arith)
released_once mail mail' now later u (s ∷ ss) rows unique h soon sent =
    let (r, rows0, e, e0, q) = rest-some mail now s ss rows h in
    let turned : Turned now s (some r) = subst (Turned now s) e (tick_row-Turned mail now s) in
    let sent' : (released_to u r.1 || released_to u (tick_rows mail now ss).released) ≡ true =
      sym (released-append u r.1 (tick_rows mail now ss).released)
      ∙ (rw (tick_rows, e, after_row) at sent) in
    subst (λ l. released_to u (tick_rows mail' later l).released ≡ false) (sym q)
      (elim (Bool-cases (released_to u r.1)) [
        | inl here ↦
            (let (mine, stamped) = turned.1 u here in
              let absent : any (is_row_of u) ss ≡ false =
                subst (λ v. any (is_row_of v) ss ≡ false) mine unique.0 in
              first-waits mail' now later u r.0 rows0 stamped soon
                (same_users mail now u ss rows0 e0 ∙ absent))
        | inr elsewhere ↦
            (let there : released_to u (tick_rows mail now ss).released ≡ true = ground arith in
              let row : any (is_row_of u) ss ≡ true = released_to-rows mail now u ss there in
              first_other mail' later u r.0 rows0 (other_user u s r.0 ss unique.0 row turned.0)
                (released_once mail mail' now later u ss rows0 unique.1 e0 soon there))
      ])
