-- ===== src/Mailman/Filters/Live.antt =====
-- Where the id of a hold filter comes from: src/services/mailman/filters.py.
use inbox_pilot.Prelude.{
  ◌≡◌, ap, ◌⊎◌, inl, inr, String, Bool, true, false, Option, none, some, List, [], ◌∷◌, any, str_eq,
  Result, ok, err, ◌&&◌, Bool-cases, arith, if◌then◌else◌, eq_refl,
}
use inbox_pilot.Mailman.Filters.{
  Text, Criteria, Filter, holds, find_hold_filter, CreateAnswer, created, refused, FilterError,
  criteria_for, create_hold_filter, apply_hold_filter, with_id, adopted, is_already_exists,
}

abbrev pub has_filter_id : String → Option String → Bool
has_filter_id id none = false
has_filter_id id (some i) = str_eq id i

-- A live filter of this id holds mail by these criteria.
abbrev pub is_live_hold : String → Criteria → String → Filter → Bool
is_live_hold hold_label_id criteria id row =
    holds hold_label_id criteria row && has_filter_id id row.id

found_lives :
    (label : String) (c : Criteria) (id : String) (rows : List Filter)
    → find_hold_filter label c rows ≡ some id
    → any (is_live_hold label c id) rows ≡ true
unfolding find_hold_filter
found_lives label c id [] h = absurd (ground arith)
found_lives label c id (row ∷ rows) h = elim (Bool-cases (holds label c row)) [
  | inl here ↦
      (let h' : row.id ≡ some id = rw here at h in
        let same : has_filter_id id row.id ≡ true = rw h' (eq_refl id) in ground arith)
  | inr other ↦
      (let h' : find_hold_filter label c rows ≡ some id = rw other at h in
        ground (arith, found_lives label c id rows h'))
]

-- Where an id comes from.
abbrev pub Source : CreateAnswer → List Filter → String → Criteria → String → Type 0
Source answer rows label c id =
    (answer ≡ created (some id)) ⊎ (any (is_live_hold label c id) rows ≡ true)

with_id-ok :
    (r : Result FilterError (Option String)) (id : String) → with_id r ≡ ok id → r ≡ ok (some id)
with_id-ok (err e) id h = absurd (ground arith)
with_id-ok (ok none) id h = absurd (ground arith)
with_id-ok (ok (some i)) id h = ground arith

adopted-ok :
    (b : Bool) (o : Option String) (id : String)
    → (if b then adopted o else err FilterError.create_failed) ≡ ok (some id)
    → o ≡ some id
adopted-ok true none id h = absurd (ground arith)
adopted-ok true (some i) id h = ground arith
adopted-ok false o id h = absurd (ground arith)

created-Source :
    (fold : Text → Text) (answer : CreateAnswer) (rows : List Filter) (label : String)
    (c : Criteria) (id : String)
    → create_hold_filter fold answer rows label c ≡ ok (some id)
    → Source answer rows label c id
unfolding create_hold_filter
created-Source fold (created i) rows label c id h =
    inl (let q : i ≡ some id = ground arith in ap created q)
created-Source fold (refused error) rows label c id h =
    inr (found_lives label c id rows (adopted-ok (is_already_exists fold error) _ id h))

-- If holding mail succeeds with some id, then it is the id that Gmail gave to the filter it just
-- made, or the id of a filter in Gmail's list that puts the hold label on inbound mail, takes it
-- out of the inbox, and excludes exactly the senders and keywords that were asked for.
apply_hold_filter_lem :
    (fold : Text → Text) (answer : CreateAnswer) (rows : List Filter) (label : String)
    (domains addresses keywords : List Text) (id : String)
    → apply_hold_filter fold answer rows (some label) domains addresses keywords ≡ ok id
    → Source answer rows label (criteria_for domains addresses keywords) id
unfolding apply_hold_filter
apply_hold_filter_lem fold answer rows label domains addresses keywords id h =
    elim (Bool-cases (str_eq label "")) [
      | inl missing ↦
          absurd
            (let h' : err FilterError.hold_label_missing ≡ ok id = rw missing at h in ground arith)
      | inr found ↦
          (let c = criteria_for domains addresses keywords in
            let h' : with_id (create_hold_filter fold answer rows label c) ≡ ok id =
              rw found at h in
            created-Source fold answer rows label c id
              (with_id-ok (create_hold_filter fold answer rows label c) id h'))
    ]
