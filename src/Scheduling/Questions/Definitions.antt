-- ===== src/Scheduling/Questions/Definitions.antt =====
-- The questions that a host defines: `normalise_definitions` of
-- src/services/scheduling/questions.py.
use Prim.Native.Char.{code}
use Prim.Native.String.{count, ◌++◌ as append}
use inbox_pilot.Prelude.{
  ℕ, zero, suc, ◌+◌, ◌/◌, ◌%◌, ◌==◌, String, str_eq, Bool, Option, none, some, List, [], ◌∷◌, map,
  filter, take, contains, ◌&&◌, is_space, nonempty, strip, if◌then◌else◌,
}
use inbox_pilot.Scheduling.Questions.{Kind, text, textarea, select, checkbox, Question}

-- A question as the host's editor sends it.
pub record HostQuestion : Type 0 where
  pub key : Option String
  pub label : Option String
  pub kind : Option String
  pub required : Bool
  pub options : List (List ℕ)

abbrev pub is_blank : String → Bool
is_blank s = str_eq s ""

abbrev lstrip_string : String → String
lstrip_string String.[] = ""
lstrip_string (String.◌∷◌ c s) =
    let rest = lstrip_string s in if is_space (code c) then rest else String.◌∷◌ c s

abbrev rstrip_string : String → String
rstrip_string String.[] = ""
rstrip_string (String.◌∷◌ c s) =
    let rest = rstrip_string s in
    if is_space (code c) && is_blank rest then "" else String.◌∷◌ c rest

-- `s.strip()`, of a text that stays one.
abbrev pub strip_string : String → String
strip_string s = rstrip_string (lstrip_string s)

-- `s[:n]`
abbrev pub first_chars : ℕ → String → String
first_chars zero s = ""
first_chars (suc n) String.[] = ""
first_chars (suc n) (String.◌∷◌ c s) = String.◌∷◌ c (first_chars n s)

-- The n-th character of a text, as a text.
abbrev pub char_in : ℕ → String → String
char_in n String.[] = ""
char_in zero (String.◌∷◌ c s) = String.◌∷◌ c ""
char_in (suc n) (String.◌∷◌ c s) = char_in n s

-- The digits of a number before a text; one unit of fuel for each digit.
abbrev pub decimal_from : ℕ → ℕ → String → String
decimal_from zero n after = after
decimal_from (suc fuel) n after =
    let here = append (char_in (n % 10) "0123456789") after in
    let rest = decimal_from fuel (n / 10) here in if n / 10 == 0 then here else rest

abbrev pub decimal : ℕ → String
decimal n = decimal_from (suc n) n ""

abbrev pub stripped_or : Option String → String → String
stripped_or none other = other
stripped_or (some s) other = if is_blank (strip_string s) then other else strip_string s

-- `while key in seen: key = f"{key}x"`
abbrev pub fresh_from : ℕ → List String → String → String
fresh_from zero seen key = key
fresh_from (suc fuel) seen key =
    let rest = fresh_from fuel seen (append key "x") in if contains key seen then rest else key

-- The characters of all the keys.
abbrev pub total : List String → ℕ
total [] = 0
total (k ∷ ks) = count k + total ks

-- The loop, with one unit of fuel for each character of the keys and one more.
unfoldable pub fresh_key : List String → String → String
fresh_key seen key = fresh_from (suc (total seen)) seen key

abbrev pub known_kind : String → Kind
known_kind s =
    if str_eq s "textarea"
    then textarea
    else if str_eq s "select"
    then select
    else if str_eq s "checkbox"
    then checkbox
    else text

abbrev pub kind_of : Option String → Kind
kind_of none = text
kind_of (some s) = known_kind s

abbrev pub clean_options : List (List ℕ) → List (List ℕ)
clean_options options = map (take 120) (filter nonempty (map strip options))

-- A select with nothing to select from is a text.
abbrev pub with_options : List (List ℕ) → Question → Question
with_options [] q = record q { kind = text; options = [] }
with_options (o ∷ os) q = record q { kind = select; options = take 20 (o ∷ os) }

abbrev pub of_kind : Kind → List (List ℕ) → Question → Question
of_kind select options q = with_options (clean_options options) q
of_kind other options q = q

abbrev pub entry_of : String → String → HostQuestion → Question
entry_of key label q = of_kind (kind_of q.kind) q.options (record {
  key = key;
  label = first_chars 200 label;
  kind = kind_of q.kind;
  required = q.required;
  options = [];
})

abbrev pub key_of : ℕ → List String → HostQuestion → String
key_of index seen q = fresh_key seen (stripped_or q.key (append "q" (decimal (index + 1))))

abbrev pub normalise_from : ℕ → List String → List HostQuestion → List Question
normalise_from index seen [] = []
normalise_from index seen (q ∷ qs) =
    let label = stripped_or q.label "" in
    let key = key_of index seen q in
    let rest = normalise_from (suc index) (if is_blank label then seen else key ∷ seen) qs in
    if is_blank label then rest else entry_of key label q ∷ rest

unfoldable pub normalise_definitions : List HostQuestion → List Question
normalise_definitions questions = take 15 (normalise_from 0 [] questions)
