-- ===== src/Mailman/Filters.antt =====
-- The filter that holds mail out of the inbox: src/services/mailman/filters.py. What Gmail answers
-- is an argument of each call; texts are lists of code points.
pub mod Live
use inbox_pilot.Prelude.{
  ℕ, String, Bool, true, false, ◌&&◌, ◌||◌, not, Option, none, some, List, [], ◌∷◌, ◌++◌, filter,
  contains, str_eq, codes, text_eq, nonempty, truthy, Result, ok, err, if◌then◌else◌,
}
use inbox_pilot.Categorization.Labels.{inbox_label}

abbrev pub Text : Type 0
Text = List ℕ

abbrev join_rest : Text → List Text → Text
join_rest sep [] = []
join_rest sep (t ∷ ts) = sep ++ (t ++ join_rest sep ts)

-- `sep.join(texts)`
abbrev pub join : Text → List Text → Text
join sep [] = []
join sep (t ∷ ts) = t ++ join_rest sep ts

abbrev pub or_sep : Text
or_sep = codes " OR "

abbrev pub inbound_query : Text
inbound_query = codes "-from:me"

-- One clause of the expression, if it has terms.
abbrev clause : Text → List Text → List Text
clause before [] = []
clause before (t ∷ ts) = (before ++ (join or_sep (t ∷ ts) ++ codes ")")) ∷ []

unfoldable pub vip_query : List Text → List Text → List Text → Text
vip_query domains addresses keywords = join or_sep (
    clause (codes "from:(") (filter nonempty (domains ++ addresses))
    ++ clause (codes "(") (filter nonempty keywords))

pub record Criteria : Type 0 where
  pub query : Option Text
  pub negated_query : Option Text

-- A row of Gmail's list of filters; a field that is missing or null is empty.
pub record Filter : Type 0 where
  pub id : Option String
  pub criteria : Criteria
  pub add_label_ids : List String
  pub remove_label_ids : List String

-- `a == b` on optional texts
abbrev pub same_text : Option Text → Option Text → Bool
same_text none none = true
same_text none (some b) = false
same_text (some a) none = false
same_text (some a) (some b) = text_eq a b

abbrev pub holds : String → Criteria → Filter → Bool
holds hold_label_id criteria row =
    contains hold_label_id row.add_label_ids
    && (contains inbox_label row.remove_label_ids
        && (same_text row.criteria.query criteria.query
            && same_text row.criteria.negated_query criteria.negated_query))

unfoldable pub find_hold_filter : String → Criteria → List Filter → Option String
find_hold_filter hold_label_id criteria [] = none
find_hold_filter hold_label_id criteria (row ∷ rows) =
    let later = find_hold_filter hold_label_id criteria rows in
    if holds hold_label_id criteria row then row.id else later

-- `create_filter`: the new filter's id, or a GoogleAPIError with a text.
pub data CreateAnswer : Type 0 where
  created : Option String → CreateAnswer
  refused : Text → CreateAnswer

pub data FilterError : Type 0 where
  create_failed no_live_filter hold_label_missing no_id : FilterError

abbrev starts : Text → Text → Bool
starts [] text = true
starts (c ∷ cs) [] = false
starts (c ∷ cs) (d ∷ text) = text_eq (c ∷ []) (d ∷ []) && starts cs text

abbrev occurs : Text → Text → Bool
occurs value [] = starts value []
occurs value (c ∷ text) = starts value (c ∷ text) || occurs value text

-- `_is_already_exists`; `fold` is `str.casefold`.
abbrev pub is_already_exists : (Text → Text) → Text → Bool
is_already_exists fold error =
    occurs (codes "already exists") (fold error)
    || occurs (codes "failed_precondition") (fold error)

abbrev pub criteria_for : List Text → List Text → List Text → Criteria
criteria_for domains addresses keywords =
    let negated = vip_query domains addresses keywords in
    record {
      query = some inbound_query;
      negated_query = if nonempty negated then some negated else none;
    }

abbrev adopted : Option String → Result FilterError (Option String)
adopted none = err no_live_filter
adopted (some id) = ok (some id)

-- `rows` is Gmail's list, which is asked for after a refusal.
unfoldable pub create_hold_filter :
    (Text → Text)
    → CreateAnswer
    → List Filter
    → String
    → Criteria
    → Result FilterError (Option String)
create_hold_filter fold (created id) rows hold_label_id criteria = ok id
create_hold_filter fold (refused error) rows hold_label_id criteria =
    if is_already_exists fold error
    then adopted (find_hold_filter hold_label_id criteria rows)
    else err create_failed

abbrev with_id : Result FilterError (Option String) → Result FilterError String
with_id (err e) = err e
with_id (ok none) = err no_id
with_id (ok (some id)) = if str_eq id "" then err no_id else ok id

-- `apply_hold_filter`, once the old filter was deleted or its deletion failed, which is logged, and
-- the labels were listed: `hold_label_id` is the hold label's id.
unfoldable pub apply_hold_filter :
    (Text → Text)
    → CreateAnswer
    → List Filter
    → Option String
    → List Text
    → List Text
    → List Text
    → Result FilterError String
apply_hold_filter fold answer rows none domains addresses keywords = err hold_label_missing
apply_hold_filter fold answer rows (some hold_label_id) domains addresses keywords =
    if str_eq hold_label_id ""
    then err hold_label_missing
    else with_id (
        create_hold_filter fold answer rows hold_label_id (criteria_for domains addresses keywords))
