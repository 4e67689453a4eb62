-- ===== src/Billing/Usage/Counts.antt =====
-- Counters before and after an update: src/services/billing/usage.py.
use inbox_pilot.Prelude.{
  ℕ, ◌+◌, ◌<◌, ◌==◌, ◌≡◌, ◌≢◌, refl, Bool, true, Option, none, some, List, [], ◌∷◌, ◌++◌, arith,
  find?-sound, All, All-find?, subst, Option-cases, inl, inr, is_some, if◌then◌else◌,
}
use inbox_pilot.Billing.Usage.{
  Counter, Table, is_for, select_counter, new_counter, insert_counter, plus_bot, plus_drafts,
  update_where,
}

-- The seconds and the drafts on a row; a user with no row has used nothing.
abbrev pub usage_of : Option Counter → ℕ × ℕ
usage_of none = (0, 0)
usage_of (some c) = (c.bot_seconds_used, c.drafts_generated)

abbrev pub usage : ℕ → ℕ × ℕ → Table → ℕ × ℕ
usage user_id period t = usage_of (select_counter user_id period t.rows)

-- Keys are given out in order, and no two rows share one.
abbrev pub Distinct : List Counter → Type 0
Distinct [] = Unit
Distinct (c ∷ rows) = All (λ d. d.id ≢ c.id) rows × Distinct rows

pub record IsKeyed (t : Table) : Type 0 where
  pub below : All (λ c. c.id < t.next_id) t.rows
  pub distinct : Distinct t.rows

select-append :
    (u : ℕ) (p : ℕ × ℕ) (c : Counter) (rows : List Counter)
    → select_counter u p (rows ++ c ∷ []) ≡ (
        if is_some (select_counter u p rows)
        then select_counter u p rows
        else (if is_for u p c then some c else none))
unfolding select_counter
select-append u p c [] = ground arith
select-append u p c (r ∷ rows) = ground (arith, select-append u p c rows)

-- A first use makes a row of zeros, which counts as no use.
pub insert-usage :
    (u v : ℕ) (p q : ℕ × ℕ) (t : Table) → usage u p (insert_counter v q t) ≡ usage u p t
unfolding insert_counter
insert-usage u v p q t = ground (arith, select-append u p (new_counter t.next_id v q) t.rows)

module _ (change : Counter → Counter) where
  -- An update by a key that no row has changes nothing.
  update-absent :
      (id : ℕ) (rows : List Counter)
      → All (λ d. d.id ≢ id) rows
      → update_where id change rows ≡ rows
  unfolding update_where
  update-absent id [] h = refl
  update-absent id (r ∷ rows) h = ground (arith, update-absent id rows h.1)

module _ (u v : ℕ) (p q : ℕ × ℕ) where
  -- Two keys that one row has are the same key.
  is_for_agree :
      (c r : Counter) → is_for u p c ≡ true → is_for v q c ≡ true → is_for v q r ≡ is_for u p r
  unfolding is_for
  is_for_agree c r h k = ground arith

-- A change of one row that keeps its keys and adds to its two columns.
pub record Adds (change : Counter → Counter) (n m : ℕ) : Type 0 where
  pub same_id : (c : Counter) → (change c).id ≡ c.id
  pub same_key : (u : ℕ) (p : ℕ × ℕ) (c : Counter) → is_for u p (change c) ≡ is_for u p c
  pub bot : (c : Counter) → (change c).bot_seconds_used ≡ c.bot_seconds_used + n
  pub drafts : (c : Counter) → (change c).drafts_generated ≡ c.drafts_generated + m

pub plus_bot-Adds : (n : ℕ) → Adds (plus_bot n) n 0
unfolding is_for
plus_bot-Adds n = record {
  same_id = λ c. refl;
  same_key = λ u p c. refl;
  bot = λ c. refl;
  drafts = λ c. omega arith;
}

pub plus_drafts-Adds : (n : ℕ) → Adds (plus_drafts n) 0 n
unfolding is_for
plus_drafts-Adds n = record {
  same_id = λ c. refl;
  same_key = λ u p c. refl;
  bot = λ c. omega arith;
  drafts = λ c. refl;
}

-- The usage of a user in a period after a credit of `n` seconds and `m` drafts to another, or to
-- the same.
abbrev pub plus_usage : Bool → ℕ → ℕ → ℕ × ℕ → ℕ × ℕ
plus_usage hit n m (b, d) = if hit then (b + n, d + m) else (b, d)

module _ (change : Counter → Counter) (n m : ℕ) (a : Adds change n m) (v : ℕ) (q : ℕ × ℕ) where
  -- An update adds to the usage of the row that was read, and to no other.
  pub update-usage :
      (u : ℕ) (p : ℕ × ℕ) (c : Counter) (rows : List Counter)
      → Distinct rows
      → select_counter v q rows ≡ some c
      → usage_of (select_counter u p (update_where c.id change rows))
        ≡ plus_usage (is_for u p c) n m (usage_of (select_counter u p rows))
  unfolding select_counter update_where
  update-usage u p c [] k e = cc
  update-usage u p c (r ∷ rows) k e = ground (
    arith,
    update-usage u p c rows k.1,
    update-absent change r.id rows k.0,
    All-find? (λ d. d.id ≢ r.id) (is_for v q) rows c k.0,
    a.same_key u p r,
    a.bot r,
    a.drafts r,
    is_for_agree u v p q c r,
    find?-sound (is_for v q) rows c,
  )

  pub update-below :
      (id bound : ℕ) (rows : List Counter)
      → All (λ c. c.id < bound) rows
      → All (λ c. c.id < bound) (update_where id change rows)
  unfolding update_where
  update-below id bound [] h = tt
  update-below id bound (r ∷ rows) h = ground (arith, a.same_id r, update-below id bound rows h.1)

  update-differ :
      (id other : ℕ) (rows : List Counter)
      → All (λ c. c.id ≢ other) rows
      → All (λ c. c.id ≢ other) (update_where id change rows)
  unfolding update_where
  update-differ id other [] h = tt
  update-differ id other (r ∷ rows) h = ground (arith, a.same_id r, update-differ id other rows h.1)

  same_id-if : (id : ℕ) (r : Counter) → r.id ≡ (if r.id == id then change r else r).id
  same_id-if id r = ground (arith, a.same_id r)

  pub update-Distinct :
      (id : ℕ) (rows : List Counter) → Distinct rows → Distinct (update_where id change rows)
  unfolding update_where
  update-Distinct id [] h = tt
  update-Distinct id (r ∷ rows) h = (
    subst (λ k. All (λ c. c.id ≢ k) (update_where id change rows)) (same_id-if id r)
        (update-differ id r.id rows h.0),
    update-Distinct id rows h.1,
  )

append-below :
    (n : ℕ) (c : Counter) (rows : List Counter)
    → All (λ d. d.id < n) rows
    → c.id < n + 1
    → All (λ d. d.id < n + 1) (rows ++ c ∷ [])
append-below n c [] h k = (k, tt)
append-below n c (r ∷ rows) h k = ground (arith, append-below n c rows h.1 k)

append-differ :
    (id : ℕ) (c : Counter) (rows : List Counter)
    → All (λ d. d.id ≢ id) rows
    → c.id ≢ id
    → All (λ d. d.id ≢ id) (rows ++ c ∷ [])
append-differ id c [] h k = (k, tt)
append-differ id c (r ∷ rows) h k = ground (arith, append-differ id c rows h.1 k)

append-Distinct :
    (c : Counter) (rows : List Counter)
    → All (λ d. d.id < c.id) rows
    → Distinct rows
    → Distinct (rows ++ c ∷ [])
append-Distinct c [] h k = (tt, tt)
append-Distinct c (r ∷ rows) h k =
    ground (arith, append-differ r.id c rows k.0, append-Distinct c rows h.1 k.1)

pub insert-IsKeyed : (v : ℕ) (q : ℕ × ℕ) (t : Table) → IsKeyed t → IsKeyed (insert_counter v q t)
unfolding insert_counter
insert-IsKeyed v q t k = elim (Option-cases (select_counter v q t.rows)) [
  | inl e ↦ rw e (record {
    below = append-below t.next_id (new_counter t.next_id v q) t.rows k.below (omega arith);
    distinct = append-Distinct (new_counter t.next_id v q) t.rows k.below k.distinct;
  })
  | inr (c, e) ↦ rw e k
]

is_for-new_counter : (id v : ℕ) (q : ℕ × ℕ) → is_for v q (new_counter id v q) ≡ true
unfolding is_for
is_for-new_counter id v q = ground arith

select-insert_new :
    (v : ℕ) (q : ℕ × ℕ) (t : Table)
    → select_counter v q t.rows ≡ none
    → select_counter v q (insert_counter v q t).rows ≡ some (new_counter t.next_id v q)
unfolding insert_counter
select-insert_new v q t e = rw e (
    rw (select-append v q (new_counter t.next_id v q) t.rows)
      (rw (e, is_for-new_counter t.next_id v q)))

-- The row that a call reads is there: the assertion never fails.
pub select-insert :
    (v : ℕ) (q : ℕ × ℕ) (t : Table)
    → (c : Counter) × (select_counter v q (insert_counter v q t).rows ≡ some c)
unfolding insert_counter
select-insert v q t = elim (Option-cases (select_counter v q t.rows)) [
  | inl e ↦ (new_counter t.next_id v q, unfold insert_counter in select-insert_new v q t e)
  | inr (c, e) ↦ (c, rw e e)
]
