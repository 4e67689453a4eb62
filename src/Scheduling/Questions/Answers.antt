-- ===== src/Scheduling/Questions/Answers.antt =====
-- What accepted answers look like: src/services/scheduling/questions.py.
use inbox_pilot.Prelude.{
  ℕ, ◌≤◌, ◌≡◌, ◌⊎◌, refl, String, str_eq, eq_iff, eq_refl, Bool, true, false, not, Option, none,
  some, List, [], ◌∷◌, length, codes, text_in, ok, arith, if◌then◌else◌, Bool-cases, inl, inr, All,
  all, ◌∙◌, >>=-eq-ok,
}
use inbox_pilot.Scheduling.Questions.{
  Kind, text, textarea, select, checkbox, Question, Raw, Answers, get_answer, check_answer,
  check_kind, is_checked, set_item, keep_answer, validate, validate_from,
}

abbrev pub find_item : String → Answers → Option (List ℕ)
find_item key [] = none
find_item key ((k, v) ∷ rest) = if str_eq k key then some v else find_item key rest

find-set_item :
    (key j : String) (v : List ℕ) (items : Answers)
    → find_item j (set_item key v items) ≡ (if str_eq key j then some v else find_item j items)
unfolding set_item
find-set_item key j v [] = refl
find-set_item key j v ((k, w) ∷ rest) =
    ground (arith, eq_iff k key, eq_iff k j, eq_iff key j, find-set_item key j v rest)

-- A value that one question accepts: an option of a select, at most 2000 characters of a text,
-- and either of two words for a checkbox.
abbrev pub Fits : Question → Kind → List ℕ → Type 0
Fits q checkbox v = (v ≡ codes "Yes") ⊎ (v ≡ codes "No")
Fits q select v = (length v ≤ 2000) × (text_in v q.options ≡ true)
Fits q text v = length v ≤ 2000
Fits q textarea v = length v ≤ 2000

-- A question that is required has an answer, and an answer fits its question.
abbrev pub Answered : Question → Kind → Option (List ℕ) → Type 0
Answered q kind none = q.required ≡ false
Answered q kind (some v) = Fits q kind v

check_kind-Answered :
    (q : Question) (kind : Kind) (raw : Raw) (r : Option (List ℕ))
    → check_kind q kind raw ≡ ok r
    → Answered q kind r
unfolding check_kind
check_kind-Answered q text raw none h = ground arith
check_kind-Answered q text raw (some v) h = ground arith
check_kind-Answered q textarea raw none h = ground arith
check_kind-Answered q textarea raw (some v) h = ground arith
check_kind-Answered q select raw none h = ground arith
check_kind-Answered q select raw (some v) h = ground arith
check_kind-Answered q checkbox raw none h = ground arith
check_kind-Answered q checkbox raw (some v) h = elim (Bool-cases (is_checked raw)) [
  | inl ticked ↦ inl (ground arith)
  | inr empty ↦ inr (ground arith)
]

check_answer-Answered :
    (q : Question) (raw : Raw) (r : Option (List ℕ))
    → check_answer q raw ≡ ok r
    → Answered q q.kind r
unfolding check_answer
check_answer-Answered q raw r h = check_kind-Answered q q.kind raw r h

abbrev pub lacks_key : String → List Question → Bool
lacks_key key qs = all (λ (q : Question). not (str_eq q.key key)) qs

-- The keys that `normalise_definitions` makes: no two questions share one.
abbrev pub DistinctKeys : List Question → Type 0
DistinctKeys [] = Unit
DistinctKeys (q ∷ qs) = (lacks_key q.key qs ≡ true) × DistinctKeys qs

find-keep_answer :
    (key j : String) (r : Option (List ℕ)) (items : Answers)
    → str_eq key j ≡ false
    → find_item j (keep_answer key r items) ≡ find_item j items
find-keep_answer key j none items h = refl
find-keep_answer key j (some v) items h = find-set_item key j v items ∙ rw h

find-keep_self :
    (key : String) (r : Option (List ℕ)) (items : Answers)
    → find_item key items ≡ none
    → find_item key (keep_answer key r items) ≡ r
find-keep_self key none items h = h
find-keep_self key (some v) items h = find-set_item key key v items ∙ rw (eq_refl key)

still_new :
    (q : Question) (r : Option (List ℕ)) (items : Answers) (qs : List Question)
    → lacks_key q.key qs ≡ true
    → All (λ (p : Question). find_item p.key items ≡ none) qs
    → All (λ (p : Question). find_item p.key (keep_answer q.key r items) ≡ none) qs
still_new q r items [] d new = tt
still_new q r items (p ∷ ps) d new = (
  find-keep_answer q.key p.key r items (ground (arith, eq_iff q.key p.key, eq_iff p.key q.key))
      ∙ new.0,
  still_new q r items ps (ground arith) new.1,
)

module _ (answers : List (String × Raw)) where
  others_kept :
      (j : String) (qs : List Question) (items final : Answers)
      → validate_from items qs answers ≡ ok final
      → lacks_key j qs ≡ true
      → find_item j final ≡ find_item j items
  unfolding validate_from
  others_kept j [] items final h k = ground arith
  others_kept j (q ∷ qs) items final h k =
      let (r, checked, h1) = >>=-eq-ok (check_answer q (get_answer q.key answers)) _ h in
      others_kept j qs (keep_answer q.key r items) final h1 (ground arith)
      ∙ find-keep_answer q.key j r items (ground arith)

  All-Answered :
      (qs : List Question) (items final : Answers)
      → validate_from items qs answers ≡ ok final
      → DistinctKeys qs
      → All (λ q. find_item q.key items ≡ none) qs
      → All (λ (q : Question). Answered q q.kind (find_item q.key final)) qs
  unfolding validate_from
  All-Answered [] items final h d new = tt
  All-Answered (q ∷ qs) items final h d new =
      let (r, checked, h1) = >>=-eq-ok (check_answer q (get_answer q.key answers)) _ h in
      let kept : find_item q.key final ≡ r =
        others_kept q.key qs (keep_answer q.key r items) final h1 d.0
        ∙ find-keep_self q.key r items new.0 in
      (
        rw kept (check_answer-Answered q (get_answer q.key answers) r checked),
        All-Answered qs (keep_answer q.key r items) final h1 d.1 (still_new q r items qs d.0 new.1),
      )

  none_set : (qs : List Question) → All (λ (q : Question). find_item q.key [] ≡ none) qs
  none_set [] = tt
  none_set (q ∷ qs) = (refl, none_set qs)

  -- If the questions have distinct keys, accepted answers answer every required question; an
  -- answer to a select is one of its options, a text has at most 2000 characters, a checkbox says
  -- Yes or No; and what was sent under any other key is dropped.
  pub validate-Answered :
      (qs : List Question) (final : Answers)
      → DistinctKeys qs
      → validate qs answers ≡ ok final
      → All (λ (q : Question). Answered q q.kind (find_item q.key final)) qs
        × ((j : String) → lacks_key j qs ≡ true → find_item j final ≡ none)
  unfolding validate
  validate-Answered qs final d h =
      (All-Answered qs [] final h d (none_set qs), λ j k. others_kept j qs [] final h k)
