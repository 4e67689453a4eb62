-- ===== src/Mail/Dispatch/Once.antt =====
-- How often a message is handed over: src/workers/jobs/gmail_poll.py, over the claims of
-- src/core/idempotency.py.
use inbox_pilot.Prelude.{
  ℕ, suc, ◌+◌, ◌≤◌, ◌<◌, ◌≡◌, refl, sym, ap, subst, ◌∙◌, ◌⊎◌, String, str_eq, eq_iff, Bool, true,
  false, Option, none, some, List, [], ◌∷◌, ◌++◌, contains, All, Result, err, ok, if◌then◌else◌,
  Bool-cases, inl, inr, arith,
}
use inbox_pilot.Guards.{Redis, claim_event, is_ours, event_ttl}
use inbox_pilot.Mail.Dispatch.Claims.{IsTaken, claim_of, claim_keeps, claim_fresh, claim_apart}
use inbox_pilot.Mail.Dispatch.{
  GmailError, Partial, Message, Readers, Task, Guarded, is_claimed, enqueue, guard, Pass, Call,
  queueing, handed, after_guard, guarded_one, dispatch_id, dispatch_one, dispatch_from,
}
use inbox_pilot.Mail.Dispatch.Filtered.{chosen}

abbrev pub task_id : Task → String
task_id (Task.handle_command_email user id subject body thread labels recipients) = id
task_id (Task.classify_new_email user id sender subject snippet thread) = id

-- How many of the tasks are about a message.
abbrev pub count_of : String → List Task → ℕ
count_of id [] = 0
count_of id (t ∷ ts) = let rest = count_of id ts in if str_eq (task_id t) id then suc rest else rest

count_of-snoc :
    (id : String) (ts : List Task) (t : Task)
    → count_of id (ts ++ (t ∷ []))
      ≡ (if str_eq (task_id t) id then suc (count_of id ts) else count_of id ts)
count_of-snoc id [] t = refl
count_of-snoc id (u ∷ ts) t = elim (Bool-cases (str_eq (task_id u) id)) [
  | inl one ↦ rw (one, count_of-snoc id ts t) (suc_if (str_eq (task_id t) id) (count_of id ts))
  | inr other ↦ rw (other, count_of-snoc id ts t) refl
]
  where
    suc_if : (b : Bool) (n : ℕ) → suc (if b then suc n else n) ≡ (if b then suc (suc n) else suc n)
    suc_if true n = refl
    suc_if false n = refl

enqueue-id :
    (readers : Readers) (user : String) (m : Message) (account : Option (List ℕ)) (t : Task)
    → enqueue readers user m account ≡ some t
    → task_id t ≡ m.id
unfolding enqueue
enqueue-id readers user m account t e = elim (chosen _ _ _ _ t e) [
  | inl (sent, addressed, same) ↦ sym (ap task_id same)
  | inr (received, same) ↦ sym (ap task_id same)
]

module _ {S : Type 0} (redis : Redis S) (readers : Readers) (user : String) (start : ℕ) where
  -- Nothing was handed over of the message, or it was once and is taken.
  abbrev IsOnce : String → Pass S → Type 0
  IsOnce id p =
      (count_of id p.queue ≡ 0) ⊎ ((count_of id p.queue ≡ 1) × IsTaken redis user start p.store id)

  -- What Gmail's answer about a message adds: nothing, or a task about the message.
  abbrev Adds : String → Pass S → Pass S → Type 0
  Adds id before after =
      (after.store ≡ before.store)
      × ((after.queue ≡ before.queue)
          ⊎ ((t : Task) × (after.queue ≡ before.queue ++ (t ∷ [])) × (task_id t ≡ id)))

  -- The calls of a day for the user, with Redis up; Gmail gives the message that was asked for.
  abbrev pub OfDay : Call → Type 0
  OfDay call =
      (call.user ≡ user)
      × (start ≤ call.now)
      × (call.now < start + event_ttl)
      × ((id : String) → call.up id ≡ true)
      × ((id : String) (m : Message) → call.get_message id ≡ ok m → m.id ≡ id)

  module _ (call : Call) where
    Adds-unless :
        (id : String) (before after : Pass S) (b : Bool)
        → Adds id before after
        → Adds id before (if b then before else after)
    Adds-unless id before after true h = (refl, inl refl)
    Adds-unless id before after false h = h

    queueing-Adds :
        (id : String) (m : Message) (o : Option Task) (before : Pass S)
        → m.id ≡ id
        → enqueue readers call.user m call.account_email ≡ o
        → Adds id before (queueing redis readers call o before)
    queueing-Adds id m none before i e = (refl, inl refl)
    queueing-Adds id m (some t) before i e =
        (refl, inr (t, refl, enqueue-id readers call.user m call.account_email t e ∙ i))

    handed-Adds :
        (id : String) (answer : Result GmailError Message) (before : Pass S)
        → ((m : Message) → answer ≡ ok m → m.id ≡ id)
        → Adds id before (handed redis readers call answer before)
    handed-Adds id (err GmailError.not_found) before same = (refl, inl refl)
    handed-Adds id (err GmailError.api_error) before same = (refl, inl refl)
    handed-Adds id (err GmailError.grant_revoked) before same = (refl, inl refl)
    handed-Adds id (err GmailError.not_connected) before same = (refl, inl refl)
    handed-Adds id (ok m) before same =
        Adds-unless id before _ _ (queueing-Adds id m _ before (same m refl) refl)

    Adds-IsOnce :
        (id other : String) (mid after : Pass S)
        → Adds other mid after
        → IsOnce id mid
        → IsTaken redis user start mid.store other
        → (id ≡ other → count_of id mid.queue ≡ 0)
        → IsOnce id after
    Adds-IsOnce id other mid after (store, inl same) (inl zero_so_far) taken new =
        inl (ap (count_of id) same ∙ zero_so_far)
    Adds-IsOnce id other mid after (store, inl same) (inr (one, taken_id)) taken new = inr (
      ap (count_of id) same ∙ one,
      subst (λ s. IsTaken redis user start s id) (sym store) taken_id,
    )
    Adds-IsOnce id other mid after (store, inr (t, more, about)) h taken new =
        let counted = ap (count_of id) more ∙ count_of-snoc id mid.queue t in
        elim (Bool-cases (str_eq (task_id t) id)) [
          | inl hit ↦
              (let q : id ≡ other = sym ((eq_iff (task_id t) id).0 hit) ∙ about in
                let one : count_of id after.queue ≡ 1 = counted ∙ rw (hit, new q) refl in
                inr (
                  one,
                  subst (λ s. IsTaken redis user start s id) (sym store)
                      (subst (λ x. IsTaken redis user start mid.store x) (sym q) taken),
                ))
          | inr miss ↦ spared store (counted ∙ rw miss refl) h
        ]
      where
        spared :
            after.store ≡ mid.store
            → count_of id after.queue ≡ count_of id mid.queue
            → IsOnce id mid
            → IsOnce id after
        spared st c (inl none_so_far) = inl (c ∙ none_so_far)
        spared st c (inr (one, held)) =
            inr (c ∙ one, subst (λ s. IsTaken redis user start s id) (sym st) held)

    IsOnce-kept :
        (id other : String) (before : Pass S)
        → OfDay call
        → IsOnce id before
        → IsOnce id
            (record before { store = (claim_of redis user start other call.now before.store).1 })
    IsOnce-kept id other before day (inl c) = inl c
    IsOnce-kept id other before (who, from, soon, up, gives) (inr (c, taken)) =
        inr (c, claim_keeps redis user start before.store id other call.now soon taken)

    -- A message that was not claimed leaves the queue; one that was adds what is handed over.
    claimed-IsOnce :
        (id other : String) (got is_command : Bool) (before : Pass S)
        → OfDay call
        → (claim_of redis user start other call.now before.store).0 ≡ got
        → IsOnce id before
        → IsOnce id (
            after_guard redis readers call
              (is_claimed got)
              is_command
              other
              (record before { store = (claim_of redis user start other call.now before.store).1 }))
    claimed-IsOnce id other false is_command before day g h = IsOnce-kept id other before day h
    claimed-IsOnce id other true is_command before day g h =
        let (who, from, soon, up, gives) = day in
        let mid = record before {
          store = (claim_of redis user start other call.now before.store).1;
        } in
        Adds-IsOnce id other mid (handed redis readers call (call.get_message other) mid)
          (handed-Adds other _ mid (gives other)) (IsOnce-kept id other before day h)
          (claim_fresh redis user start before.store other call.now from g)
          (λ q. unclaimed q soon h)
      where
        unclaimed :
            id ≡ other
            → call.now < start + event_ttl
            → IsOnce id before
            → count_of id before.queue ≡ 0
        unclaimed q soon (inl c) = c
        unclaimed q soon (inr (c, taken)) = absurd (
            claim_apart redis user start before.store other call.now soon g
              (subst (λ x. IsTaken redis user start before.store x) q taken))

    abbrev verdict_of : Bool → String → S → Guarded × S
    verdict_of true other s = (Guarded.skipped, s)
    verdict_of false other s = (
      is_claimed (claim_of redis user start other call.now s).0,
      (claim_of redis user start other call.now s).1,
    )

    guard-claims :
        (other : String) (s : S)
        → OfDay call
        → guard redis call.user other (call.up other) call.now s
          ≡ verdict_of (is_ours redis other call.now s) other s
    unfolding guard claim_event
    guard-claims other s (who, from, soon, up, gives) =
        rw (up other, who) (looked (is_ours redis other call.now s))
      where
        looked :
            (b : Bool)
            → (if b then (Guarded.skipped, s) else (
              is_claimed (claim_of redis user start other call.now s).0,
              (claim_of redis user start other call.now s).1,
            ))
              ≡ verdict_of b other s
        looked true = refl
        looked false = refl

    guarded-IsOnce :
        (id other : String) (label_ids : List String) (before : Pass S)
        → OfDay call
        → IsOnce id before
        → IsOnce id (guarded_one redis readers call label_ids other before)
    guarded-IsOnce id other label_ids before day h =
        subst
          (λ (v : Guarded × S). IsOnce id (
            after_guard redis readers call v.0 (contains "SENT" label_ids) other
              (record before { store = v.1 })))
          (sym (guard-claims other before.store day))
          (either (is_ours redis other call.now before.store))
      where
        either :
            (b : Bool)
            → IsOnce id (
                after_guard redis readers call
                  (verdict_of b other before.store).0
                  (contains "SENT" label_ids)
                  other
                  (record before { store = (verdict_of b other before.store).1 }))
        either true = h
        either false = claimed-IsOnce id other _ (contains "SENT" label_ids) before day refl h

    IsOnce-unless :
        (id : String) (before after : Pass S) (b : Bool)
        → IsOnce id before
        → IsOnce id after
        → IsOnce id (if b then before else after)
    IsOnce-unless id before after true h k = h
    IsOnce-unless id before after false h k = k

    dispatch_one-IsOnce :
        (id : String) (m : Partial) (before : Pass S)
        → OfDay call
        → IsOnce id before
        → IsOnce id (dispatch_one redis readers call m before)
    dispatch_one-IsOnce id m before day h = IsOnce-unless id before _ before.raised h (ided m.id)
      where
        ided : (o : Option String) → IsOnce id (dispatch_id redis readers call o m.label_ids before)
        ided none = h
        ided (some other) =
            IsOnce-unless id before _ _ h (guarded-IsOnce id other m.label_ids before day h)

    dispatch_from-IsOnce :
        (id : String) (ms : List Partial) (before : Pass S)
        → OfDay call
        → IsOnce id before
        → IsOnce id (dispatch_from redis readers call ms before)
    dispatch_from-IsOnce id [] before day h = h
    dispatch_from-IsOnce id (m ∷ ms) before day h =
        dispatch_from-IsOnce id ms (dispatch_one redis readers call m before) day
          (dispatch_one-IsOnce id m before day h)

  -- The tasks of several passes, one after the other.
  abbrev pub dispatches : List (Call × List Partial) → S → List Task → List Task
  dispatches [] s queue = queue
  dispatches ((call, messages) ∷ passes) s queue =
      let p =
        dispatch_from redis readers call messages
          (record { store = s; queue = queue; raised = false }) in
      dispatches passes p.store p.queue

  dispatches-once :
      (id : String) (passes : List (Call × List Partial)) (s : S) (queue : List Task)
      → All (λ (c : Call × List Partial). OfDay c.0) passes
      → IsOnce id (record { store = s; queue = queue; raised = false })
      → count_of id (dispatches passes s queue) ≤ 1
  dispatches-once id [] s queue days (inl none_so_far) = ground arith
  dispatches-once id [] s queue days (inr (one, taken)) = ground arith
  dispatches-once id ((call, messages) ∷ passes) s queue (day, days) h =
      let p =
        dispatch_from redis readers call messages
          (record { store = s; queue = queue; raised = false }) in
      dispatches-once id passes p.store p.queue days
        (unraised id p (dispatch_from-IsOnce call id messages _ day h))
    where
      unraised :
          (id : String) (p : Pass S)
          → IsOnce id p
          → IsOnce id (record { store = p.store; queue = p.queue; raised = false })
      unraised id p (inl c) = inl c
      unraised id p (inr c) = inr c

  -- Over the passes of one day for a user, however often the same message is found in them, and
  -- whatever the store held before, no message is handed over twice: of all the tasks that are
  -- queued at most one is about it. Redis answers throughout, and Gmail gives the messages that
  -- are asked for.
  pub dispatched_once :
      (passes : List (Call × List Partial)) (s : S) (id : String)
      → All (λ (c : Call × List Partial). OfDay c.0) passes
      → count_of id (dispatches passes s []) ≤ 1
  dispatched_once passes s id days = dispatches-once id passes s [] days (inl refl)
