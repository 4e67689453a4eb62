-- ===== src/Categorization/Rules.antt =====
-- Rule matching: src/services/categorization/rules.py. `fold` is `str.casefold`, and `parseaddr`
-- the address that `email.utils.parseaddr` finds in a header.
pub mod Meaning
use inbox_pilot.Prelude.{
  ℕ, ◌==◌, String, Bool, true, false, ◌&&◌, ◌||◌, not, Option, none, some, List, [], ◌∷◌, find?,
  str_eq, codes, strip, text_eq, nonempty, if◌then◌else◌,
}

pub record RuleSnapshot : Type 0 where
  pub match_type : String
  pub match_value : String
  pub action : String
  pub category_key : Option String

abbrev pub match_sender_address : String
match_sender_address = "sender_address"

abbrev pub match_sender_domain : String
match_sender_domain = "sender_domain"

abbrev pub match_subject_keyword : String
match_subject_keyword = "subject_keyword"

abbrev pub match_body_keyword : String
match_body_keyword = "body_keyword"

abbrev pub rule_exclude : String
rule_exclude = "exclude"

-- What matching takes from Python's library.
pub record Python : Type 0 where
  pub fold : List ℕ → List ℕ
  pub parseaddr : List ℕ → List ℕ

-- The message that is matched.
pub record Message : Type 0 where
  pub sender : Option String
  pub subject : Option String
  pub snippet : Option String

-- `text or ""`
abbrev pub or_empty : Option String → List ℕ
or_empty none = []
or_empty (some s) = codes s

-- `_address`
abbrev pub address : Python → Option String → List ℕ
address py sender = py.fold (strip (py.parseaddr (or_empty sender)))

abbrev pub has_at : List ℕ → Bool
has_at [] = false
has_at (c ∷ cs) = c == b'@' || has_at cs

-- `text.rpartition("@")[2]`, of a text that has one.
abbrev pub after_last_at : List ℕ → List ℕ
after_last_at [] = []
after_last_at (c ∷ cs) = let rest = after_last_at cs in if has_at cs then rest else cs

-- `_domain`
abbrev pub domain : Python → Option String → List ℕ
domain py sender = let a = address py sender in if has_at a then after_last_at a else []

-- `value.lstrip("@")`
abbrev pub lstrip_at : List ℕ → List ℕ
lstrip_at [] = []
lstrip_at (c ∷ cs) = let rest = lstrip_at cs in if c == b'@' then rest else c ∷ cs

abbrev pub starts_with : List ℕ → List ℕ → Bool
starts_with [] text = true
starts_with (c ∷ cs) [] = false
starts_with (c ∷ cs) (d ∷ text) = c == d && starts_with cs text

-- `value in text`
abbrev pub occurs_in : List ℕ → List ℕ → Bool
occurs_in value [] = starts_with value []
occurs_in value (c ∷ text) = starts_with value (c ∷ text) || occurs_in value text

abbrev pub folded_value : Python → RuleSnapshot → List ℕ
folded_value py rule = py.fold (strip (codes rule.match_value))

unfoldable pub matches : Python → RuleSnapshot → Message → Bool
matches py rule m =
    let value = folded_value py rule in
    let target = lstrip_at value in
    if not (nonempty value)
    then false
    else if str_eq rule.match_type match_sender_address
    then text_eq (address py m.sender) value
    else if str_eq rule.match_type match_sender_domain
    then nonempty target && text_eq (domain py m.sender) target
    else if str_eq rule.match_type match_subject_keyword
    then occurs_in value (py.fold (or_empty m.subject))
    else if str_eq rule.match_type match_body_keyword
    then occurs_in value (py.fold (or_empty m.snippet))
    else false

unfoldable pub first_match : Python → List RuleSnapshot → Message → Option RuleSnapshot
first_match py rules m = find? (λ rule. matches py rule m) rules
