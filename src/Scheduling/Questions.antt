-- ===== src/Scheduling/Questions.antt =====
-- The answers to the host's questions: `validate` and `labelled` of
-- src/services/scheduling/questions.py. Answers are texts, as lists of code points. A dict is the
-- list of its items in order.
pub mod Answers
pub mod Definitions
pub mod Normalised
use inbox_pilot.Prelude.{
  ℕ, ltb, ◌&&◌, ◌||◌, String, str_eq, Bool, true, false, not, Option, none, some, List, [], ◌∷◌,
  length, codes, strip, nonempty, text_in, Result, ok, err, ◌>>=◌, if◌then◌else◌,
}

pub data Kind : Type 0 where
  text textarea select checkbox : Kind

pub record Question : Type 0 where
  pub key : String
  pub label : String
  pub kind : Kind
  pub required : Bool
  pub options : List (List ℕ)

-- What a form sends for a key: nothing, null, a Boolean or a text.
pub data Raw : Type 0 where
  null : Raw
  bool : Bool → Raw
  str : List ℕ → Raw

abbrev pub max_answer_length : ℕ
max_answer_length = 2000

pub data Invalid : Type 0 where
  is_required too_long not_an_option : String → Invalid

abbrev pub Answers : Type 0
Answers = List (String × List ℕ)

-- `answers.get(key)`
abbrev pub get_answer : String → List (String × Raw) → Raw
get_answer key [] = null
get_answer key ((k, v) ∷ rest) = if str_eq k key then v else get_answer key rest

-- `bool(raw)`
abbrev pub is_checked : Raw → Bool
is_checked null = false
is_checked (bool b) = b
is_checked (str s) = nonempty s

-- `"" if raw is None else str(raw).strip()`
abbrev pub stripped : Raw → List ℕ
stripped null = []
stripped (bool true) = codes "True"
stripped (bool false) = codes "False"
stripped (str s) = strip s

check_value : Question → Bool → List ℕ → Result Invalid (Option (List ℕ))
check_value q is_select value =
    if not (nonempty value)
    then (if q.required then err (is_required q.label) else ok none)
    else if ltb max_answer_length (length value)
    then err (too_long q.label)
    else if is_select && not (text_in value q.options)
    then err (not_an_option q.label)
    else ok (some value)

check_box : Question → Bool → Result Invalid (Option (List ℕ))
check_box q checked =
    if q.required && not checked
    then err (is_required q.label)
    else ok (some (if checked then codes "Yes" else codes "No"))

check_kind : Question → Kind → Raw → Result Invalid (Option (List ℕ))
unfolding check_value check_box
check_kind q checkbox raw = check_box q (is_checked raw)
check_kind q select raw = check_value q true (stripped raw)
check_kind q text raw = check_value q false (stripped raw)
check_kind q textarea raw = check_value q false (stripped raw)

-- What one pass of the loop makes of an answer: an error, nothing, or a value for its key.
unfoldable pub check_answer : Question → Raw → Result Invalid (Option (List ℕ))
unfolding check_kind
check_answer q raw = check_kind q q.kind raw

-- `result[key] = value`
unfoldable pub set_item : String → List ℕ → Answers → Answers
set_item key value [] = (key, value) ∷ []
set_item key value ((k, v) ∷ rest) =
    if str_eq k key then (k, value) ∷ rest else (k, v) ∷ set_item key value rest

abbrev pub keep_answer : String → Option (List ℕ) → Answers → Answers
keep_answer key none result = result
keep_answer key (some value) result = set_item key value result

validate_from : Answers → List Question → List (String × Raw) → Result Invalid Answers
validate_from result [] answers = ok result
validate_from result (q ∷ qs) answers = do
  value ← check_answer q (get_answer q.key answers)
  validate_from (keep_answer q.key value result) qs answers

unfoldable pub validate : List Question → List (String × Raw) → Result Invalid Answers
unfolding validate_from
validate questions answers = validate_from [] questions answers

-- `{q["key"]: q["label"] for q in questions}`: the last label of a key wins.
abbrev last_label : String → List Question → Option String
last_label key [] = none
last_label key (q ∷ qs) = elim (last_label key qs) [
  | some label ↦ some label
  | none ↦ if str_eq q.key key then some q.label else none
]

-- `by_key.get(key, key)`
abbrev pub label_of : String → List Question → String
label_of key questions = elim (last_label key questions) [ none ↦ key | some label ↦ label ]

labelled_from : List Question → Answers → Answers → Answers
labelled_from questions result [] = result
labelled_from questions result ((key, value) ∷ rest) =
    labelled_from questions (set_item (label_of key questions) value result) rest

unfoldable pub labelled : List Question → Answers → Answers
unfolding labelled_from
labelled questions answers = labelled_from questions [] answers
