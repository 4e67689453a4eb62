-- ===== src/Mail/Dispatch/Filtered.antt =====
-- Which messages a pass hands over, and to whom: src/workers/jobs/gmail_poll.py.
use inbox_pilot.Prelude.{
  ◌≡◌, refl, sym, ap, subst, ◌⊎◌, ◌&&◌, ◌||◌, not, String, str_eq, Bool, true, false, Option, none,
  some, List, [], ◌∷◌, ◌++◌, contains, All, Result, err, ok, if◌then◌else◌, inl, inr, arith,
}
use inbox_pilot.Guards.{Redis}
use inbox_pilot.Mail.Mime.{headers, addressed_to}
use inbox_pilot.Mail.Dispatch.{
  sent_label, GmailError, Partial, Message, Readers, Task, is_interesting, Guarded, enqueue, guard,
  Pass, Call, queueing, handed, after_guard, dispatch_id, dispatch_one, dispatch_from, dispatch,
}

task_or : Task → Option Task → Task
task_or t none = t
task_or t (some u) = u

-- A choice of two tasks, of which one has a condition.
pub chosen :
    (a b : Bool) (command classify t : Task)
    → (if a then (if b then some command else none) else some classify) ≡ some t
    → ((a ≡ true) × (b ≡ true) × (command ≡ t)) ⊎ ((a ≡ false) × (classify ≡ t))
unfolding task_or
chosen true true command classify t e = inl (refl, refl, ap (task_or t) e)
chosen true false command classify t e = absurd (ground arith)
chosen false b command classify t e = inr (refl, ap (task_or t) e)

read_wanted :
    (known : Bool) (listed own : List String) (wanted : List String → Bool)
    → (not known && not (wanted own)) ≡ false
    → (known ≡ true → wanted listed ≡ true)
    → wanted (if known then listed else own) ≡ true
read_wanted true listed own wanted h k = k refl
read_wanted false listed own wanted h k = ground arith

known_wanted :
    (empty known wanted : Bool)
    → (empty || (known && not wanted)) ≡ false
    → known ≡ true
    → wanted ≡ true
known_wanted true known wanted h k = absurd (ground arith)
known_wanted false known wanted h k = ground arith

All-snoc : (P : Task → Type 0) (ts : List Task) (t : Task) → All P ts → P t → All P (ts ++ (t ∷ []))
All-snoc P [] t h p = (p, tt)
All-snoc P (u ∷ ts) t (q, h) p = (q, All-snoc P ts t h p)

module _ (readers : Readers) (call : Call) where
  -- A command is a sent message that is addressed to the account; what is classified was not sent.
  abbrev pub IsFor : Message → Task → Type 0
  IsFor m (Task.handle_command_email user id subject body thread labels recipients) =
      (contains sent_label m.label_ids ≡ true)
      × (addressed_to readers.addresses (headers readers.addresses.lower m.header_list)
            call.account_email
          ≡ true)
  IsFor m (Task.classify_new_email user id sender subject snippet thread) =
      contains sent_label m.label_ids ≡ false

  -- The labels that the filter goes by.
  abbrev pub labels_read : Partial → Message → List String
  labels_read p m = if call.labels_known then p.label_ids else m.label_ids

  -- A task that one of the messages gives rise to.
  abbrev pub GivesRise : Task → Partial → Type 0
  GivesRise t p =
      (id : String) × (m : Message) × (p.id ≡ some id)
      × (call.get_message id ≡ ok m)
      × (enqueue readers call.user m call.account_email ≡ some t)
      × (is_interesting (labels_read p m) call.hold_label_id ≡ true)
      × IsFor m t

  abbrev pub RisesFrom : List Partial → Task → Type 0
  RisesFrom [] t = ⊥
  RisesFrom (p ∷ ps) t = GivesRise t p ⊎ RisesFrom ps t

  enqueue-IsFor :
      (m : Message) (t : Task) → enqueue readers call.user m call.account_email ≡ some t → IsFor m t
  unfolding enqueue
  enqueue-IsFor m t e = elim (chosen _ _ _ _ t e) [
    | inl (sent, addressed, same) ↦ subst (IsFor m) same (sent, addressed)
    | inr (received, same) ↦ subst (IsFor m) same received
  ]

module _ {S : Type 0} (redis : Redis S) (readers : Readers) (call : Call) where
  abbrev Filtered : Partial → Pass S → Pass S → Type 0
  Filtered p before after =
      (after.queue ≡ before.queue)
      ⊎ ((t : Task) × (after.queue ≡ before.queue ++ (t ∷ [])) × GivesRise readers call t p)

  unless-Filtered :
      (p : Partial) (before after : Pass S) (b : Bool)
      → (b ≡ false → Filtered p before after)
      → Filtered p before (if b then before else after)
  unless-Filtered p before after true h = inl refl
  unless-Filtered p before after false h = h refl

  queueing-Filtered :
      (p : Partial) (id : String) (m : Message) (o : Option Task) (before : Pass S)
      → p.id ≡ some id
      → call.get_message id ≡ ok m
      → enqueue readers call.user m call.account_email ≡ o
      → is_interesting (labels_read readers call p m) call.hold_label_id ≡ true
      → Filtered p before (queueing redis readers call o before)
  queueing-Filtered p id m none before i g e h = inl refl
  queueing-Filtered p id m (some t) before i g e h =
      inr (t, refl, (id, m, i, g, e, h, enqueue-IsFor readers call m t e))

  handed-Filtered :
      (p : Partial) (id : String) (answer : Result GmailError Message) (before : Pass S)
      → p.id ≡ some id
      → call.get_message id ≡ answer
      → (call.labels_known ≡ true → is_interesting p.label_ids call.hold_label_id ≡ true)
      → Filtered p before (handed redis readers call answer before)
  handed-Filtered p id (err GmailError.not_found) before i g h = inl refl
  handed-Filtered p id (err GmailError.api_error) before i g h = inl refl
  handed-Filtered p id (err GmailError.grant_revoked) before i g h = inl refl
  handed-Filtered p id (err GmailError.not_connected) before i g h = inl refl
  handed-Filtered p id (ok m) before i g h = unless-Filtered p before _ _ (λ wanted.
      queueing-Filtered p id m _ before i g refl (
        read_wanted call.labels_known p.label_ids m.label_ids
          (λ l. is_interesting l call.hold_label_id) wanted h))

  after_guard-Filtered :
      (p : Partial) (id : String) (verdict : Guarded) (is_command : Bool) (before : Pass S)
      → p.id ≡ some id
      → (call.labels_known ≡ true → is_interesting p.label_ids call.hold_label_id ≡ true)
      → Filtered p before (after_guard redis readers call verdict is_command id before)
  after_guard-Filtered p id Guarded.skipped is_command before i h = inl refl
  after_guard-Filtered p id Guarded.down is_command before i h =
      unless-Filtered p before _ is_command (λ other. handed-Filtered p id _ before i refl h)
  after_guard-Filtered p id Guarded.claimed is_command before i h =
      handed-Filtered p id _ before i refl h

  dispatch_id-Filtered :
      (p : Partial) (o : Option String) (before : Pass S)
      → p.id ≡ o
      → Filtered p before (dispatch_id redis readers call o p.label_ids before)
  dispatch_id-Filtered p none before i = inl refl
  dispatch_id-Filtered p (some id) before i =
      let (verdict, s) = guard redis call.user id (call.up id) call.now before.store in
      unless-Filtered p before _ _ (λ listed.
        after_guard-Filtered p id verdict (contains sent_label p.label_ids)
          (record before { store = s }) i
          (λ known.
            known_wanted (str_eq id "") call.labels_known
              (is_interesting p.label_ids call.hold_label_id) listed known))

  dispatch_one-Filtered :
      (p : Partial) (before : Pass S) → Filtered p before (dispatch_one redis readers call p before)
  dispatch_one-Filtered p before =
      unless-Filtered p before _ before.raised (λ running. dispatch_id-Filtered p p.id before refl)

  dispatch_from-filtered :
      (P : Task → Type 0) (ps : List Partial) (before : Pass S)
      → ((t : Task) → RisesFrom readers call ps t → P t)
      → All P before.queue
      → All P (dispatch_from redis readers call ps before).queue
  dispatch_from-filtered P [] before from h = h
  dispatch_from-filtered P (p ∷ ps) before from h =
      dispatch_from-filtered P ps (dispatch_one redis readers call p before) (λ t r. from t (inr r))
        (one (dispatch_one-Filtered p before))
    where
      one :
          Filtered p before (dispatch_one redis readers call p before)
          → All P (dispatch_one redis readers call p before).queue
      one (inl same) = subst (All P) (sym same) h
      one (inr (t, more, rises)) =
          subst (All P) (sym more) (All-snoc P before.queue t h (from t (inl rises)))

  -- Every task that a pass queues comes from one of the messages it was given, as Gmail gave it
  -- when it was read, and that message passed the filter: by the labels that the history gave, or,
  -- where no labels were known, by its own. A command is a sent message that is addressed to the
  -- account; a message that is classified was not sent.
  pub dispatch-Filtered :
      (messages : List Partial) (s : S)
      → All (RisesFrom readers call messages) (dispatch redis readers call messages s).queue
  unfolding dispatch
  dispatch-Filtered messages s =
      dispatch_from-filtered (RisesFrom readers call messages) messages _ (λ t r. r) tt
