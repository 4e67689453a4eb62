-- ===== src/Scheduling/Reminders/Once.antt =====
-- Repeated sweeps: src/workers/jobs/scheduling_reminders.py.
use inbox_pilot.Prelude.{
  ℕ, ◌≡◌, ◌⊎◌, ◌==◌, refl, ap, sym, ◌∙◌, subst, Bool, true, false, ◌||◌, ◌&&◌, not, Option, none,
  some, List, [], ◌∷◌, ◌++◌, any, elem, if◌then◌else◌, Bool-cases, Option-cases, inl, inr, arith,
}
use inbox_pilot.Scheduling.Slots.{Zone}
use inbox_pilot.Scheduling.Bookings.{Booking}
use inbox_pilot.Scheduling.Reminders.{
  Outside, Swept, Profile, keep_row, sent_by, is_due, reminded, mail_for, after_mail, sweep,
}

abbrev pub has_id : ℕ → Booking → Bool
has_id id b = id == b.id

-- The table's primary key.
abbrev pub UniqueIds : List Booking → Type 0
UniqueIds [] = Unit
UniqueIds (b ∷ rows) = (any (has_id b.id) rows ≡ false) × UniqueIds rows

elem-append : (id : ℕ) (k l : List ℕ) → elem id (k ++ l) ≡ (elem id k || elem id l)
elem-append id [] l = refl
elem-append id (x ∷ k) l = ground (arith, elem-append id k l)

-- The mail for a row is for that row.
abbrev Mails : Booking → Option (List ℕ) → Type 0
Mails b none = Unit
Mails b (some ids) = (id : ℕ) → elem id ids ≡ true → has_id id b ≡ true

sent_by-Mails : (o : Outside) (b : Booking) (tz : Option Zone) → Mails b (sent_by o b tz)
sent_by-Mails o b none = tt
sent_by-Mails o b (some tz) = λ id h. elim (Bool-cases (o.send b)) [
  | inl sent ↦ (let h' : (id == b.id || false) ≡ true = rw sent at h in ground arith)
  | inr failed ↦ absurd (let h' : false ≡ true = rw failed at h in ground arith)
]

if-Mails :
    (b : Booking) (c : Bool) (m : Option (List ℕ)) → Mails b m → Mails b (if c then some [] else m)
if-Mails b true m h = λ id there. absurd (ground arith)
if-Mails b false m h = h

mail_for-Mails : (o : Outside) (b : Booking) (p : Option Profile) → Mails b (mail_for o b p)
unfolding mail_for
mail_for-Mails o b none = λ id h. absurd (ground arith)
mail_for-Mails o b (some p) =
    if-Mails b (not (o.has_user b.user_id) || not p.reschedule_reminders) _
      (sent_by-Mails o b (o.timezone_for p.timezone))

-- What a sweep does with the first row.
abbrev Turn : Outside → ℕ → Booking → List Booking → Swept → Type 0
Turn o now b rows s =
    ((is_due now b ≡ false)
      × (s.rows ≡ keep_row b (sweep o now rows).rows)
      × (s.mailed ≡ (sweep o now rows).mailed))
    ⊎ ((is_due now b ≡ true)
        × ((s ≡ record { rows = none; mailed = [] })
            ⊎ ((ids : List ℕ) × ((id : ℕ) → elem id ids ≡ true → has_id id b ≡ true)
                × (s.rows ≡ keep_row (reminded b now) (sweep o now rows).rows)
                × (s.mailed ≡ ids ++ (sweep o now rows).mailed))))

sweep-Turn :
    (o : Outside) (now : ℕ) (b : Booking) (rows : List Booking)
    → Turn o now b rows (sweep o now (b ∷ rows))
unfolding sweep after_mail
sweep-Turn o now b rows = elim (Bool-cases (is_due now b)) [
  | inr idle ↦ inl (idle, rw (sweep, idle) refl, rw (sweep, idle) refl)
  | inl due ↦ inr (
    due,
    elim (Option-cases (mail_for o b (o.profile b.user_id))) [
      | inl bad ↦ inl (rw (sweep, due, bad) refl)
      | inr (ids, e) ↦
          (let mails : Mails b (some ids) =
              subst (Mails b) e (mail_for-Mails o b (o.profile b.user_id)) in
            inr (ids, mails, rw (sweep, due, e) refl, rw (sweep, due, e) refl))
    ],
  )
]

mailed-rows :
    (o : Outside) (now id : ℕ) (rows : List Booking)
    → elem id (sweep o now rows).mailed ≡ true
    → any (has_id id) rows ≡ true
unfolding sweep
mailed-rows o now id [] h = h
mailed-rows o now id (b ∷ rows) h = elim (sweep-Turn o now b rows) [
  | inl (idle, r, q) ↦
      (let h' : elem id (sweep o now rows).mailed ≡ true = ap (elem id) (sym q) ∙ h in
        ground (arith, mailed-rows o now id rows h'))
  | inr (due, inl q) ↦
      absurd
        (let h' : false ≡ true = ap (λ (s : Swept). elem id s.mailed) (sym q) ∙ h in ground arith)
  | inr (due, inr (ids, mails, r, q)) ↦
      (let h' : (elem id ids || elem id (sweep o now rows).mailed) ≡ true =
          sym (elem-append id ids (sweep o now rows).mailed) ∙ (ap (elem id) (sym q) ∙ h) in
        ground (arith, mails id, mailed-rows o now id rows))
]

-- The rows behind the first one.
kept-tail :
    (b : Booking) (kept : Option (List Booking)) (new : List Booking)
    → keep_row b kept ≡ some new
    → (tail : List Booking) × (kept ≡ some tail) × (new ≡ b ∷ tail)
kept-tail b none new h = absurd (ground arith)
kept-tail b (some tail) new h = (tail, refl, (let q : b ∷ tail ≡ new = cc in sym q))

same_ids :
    (o : Outside) (now id : ℕ) (rows new : List Booking)
    → (sweep o now rows).rows ≡ some new
    → any (has_id id) new ≡ any (has_id id) rows
unfolding sweep
same_ids o now id [] new h = (let q : [] ≡ new = cc in ap (any (has_id id)) (sym q))
same_ids o now id (b ∷ rows) new h = elim (sweep-Turn o now b rows) [
  | inl (idle, r, q) ↦
      (let (tail, e, split) = kept-tail b (sweep o now rows).rows new (sym r ∙ h) in
        ap (any (has_id id)) split ∙ ap (λ c. has_id id b || c) (same_ids o now id rows tail e))
  | inr (due, inl q) ↦
      absurd (let h' : none ≡ some new = ap (λ (s : Swept). s.rows) (sym q) ∙ h in ground arith)
  | inr (due, inr (ids, mails, r, q)) ↦
      (let (tail, e, split) = kept-tail (reminded b now) (sweep o now rows).rows new (sym r ∙ h) in
        ap (any (has_id id)) split ∙ ap (λ c. has_id id b || c) (same_ids o now id rows tail e))
]

reminded_idle : (b : Booking) (now later : ℕ) → is_due later (reminded b now) ≡ false
unfolding is_due
reminded_idle b now later = refl

-- A row that is not due in the second sweep, or is another booking's, adds no mail for this one.
row_adds :
    (o : Outside) (later id : ℕ) (b : Booking) (rows : List Booking)
    → (is_due later b && has_id id b) ≡ false
    → elem id (sweep o later rows).mailed ≡ false
    → elem id (sweep o later (b ∷ rows)).mailed ≡ false
row_adds o later id b rows other h = elim (sweep-Turn o later b rows) [
  | inl (idle, r, q) ↦ ap (elem id) q ∙ h
  | inr (due, inl q) ↦ ap (λ (s : Swept). elem id s.mailed) q
  | inr (due, inr (ids, mails, r, q)) ↦
      ap (elem id) q
      ∙ (elem-append id ids (sweep o later rows).mailed ∙ elim (Bool-cases (elem id ids)) [
        | inl there ↦ absurd (ground (arith, mails id there))
        | inr absent ↦ ground arith
      ])
]

unmailed :
    (o : Outside) (later id : ℕ) (rows : List Booking)
    → any (has_id id) rows ≡ false
    → elem id (sweep o later rows).mailed ≡ false
unmailed o later id rows absent = elim (Bool-cases (elem id (sweep o later rows).mailed)) [
  | inl there ↦ absurd (ground (arith, mailed-rows o later id rows there))
  | inr none_there ↦ none_there
]

other_id :
    (id : ℕ) (b : Booking) (rows : List Booking)
    → any (has_id b.id) rows ≡ false
    → any (has_id id) rows ≡ true
    → has_id id b ≡ false
other_id id b rows absent there = elim (Bool-cases (has_id id b)) [
  | inl same ↦ absurd (
      let q : id ≡ b.id = ground arith in
      let there' : any (has_id b.id) rows ≡ true =
        subst (λ v. any (has_id v) rows ≡ true) q there in
      ground arith)
  | inr other ↦ other
]

-- If a sweep of bookings with distinct ids commits, and another runs over the rows that it left at
-- any later or earlier time, then a booking whose guest got mail about it from the first has no
-- mail sent about it by the second.
pub reminded_once :
    (o o' : Outside) (now later id : ℕ) (rows new : List Booking)
    → UniqueIds rows
    → (sweep o now rows).rows ≡ some new
    → elem id (sweep o now rows).mailed ≡ true
    → elem id (sweep o' later new).mailed ≡ false
unfolding sweep
reminded_once o o' now later id [] new unique h sent = absurd (ground arith)
reminded_once o o' now later id (b ∷ rows) new unique h sent = elim (sweep-Turn o now b rows) [
  | inl (idle, r, q) ↦
      (let (tail, e, split) = kept-tail b (sweep o now rows).rows new (sym r ∙ h) in
        let sent' : elem id (sweep o now rows).mailed ≡ true = ap (elem id) (sym q) ∙ sent in
        let other = other_id id b rows unique.0 (mailed-rows o now id rows sent') in
        subst (λ l. elem id (sweep o' later l).mailed ≡ false) (sym split)
          (row_adds o' later id b tail (ground arith)
            (reminded_once o o' now later id rows tail unique.1 e sent')))
  | inr (due, inl q) ↦
      absurd (
        let h' : false ≡ true = ap (λ (s : Swept). elem id s.mailed) (sym q) ∙ sent in ground arith)
  | inr (due, inr (ids, mails, r, q)) ↦
      (let (tail, e, split) = kept-tail (reminded b now) (sweep o now rows).rows new (sym r ∙ h) in
        let sent' : (elem id ids || elem id (sweep o now rows).mailed) ≡ true =
          sym (elem-append id ids (sweep o now rows).mailed) ∙ (ap (elem id) (sym q) ∙ sent) in
        subst (λ l. elem id (sweep o' later l).mailed ≡ false) (sym split)
          (row_adds o' later id (reminded b now) tail (rw (reminded_idle b now later) refl)
            (elim (Bool-cases (elem id ids)) [
              | inl here ↦
                  (let same : id ≡ b.id = ground (arith, mails id here) in
                    unmailed o' later id tail (
                      same_ids o now id rows tail e
                      ∙ subst (λ v. any (has_id v) rows ≡ false) (sym same) unique.0))
              | inr elsewhere ↦ reminded_once o o' now later id rows tail unique.1 e (ground arith)
            ])))
]
