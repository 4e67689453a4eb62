-- ===== src/Categorization/Classifier.antt =====
-- From the model's reply to a category: src/services/classify/classifier.py. The reply is an
-- argument; `norm` is `str.strip` and then `str.casefold`. A confidence is a number of a type with
-- a test for "less than", and `_coerce_confidence` has been taken of it.
pub mod Verdicts
use inbox_pilot.Prelude.{
  ℕ, String, Bool, true, false, Option, none, some, List, [], ◌∷◌, any, find?, codes, text_eq,
  is_some, if◌then◌else◌,
}

pub record Category : Type 0 where
  pub key : String
  pub display_name : String
  pub description : String

pub record Verdict {ℓ} (F : Type ℓ) : Type ℓ where
  pub verdict_key : Option String
  pub confidence : F

-- `json.loads` of the reply: no object, or its label if that is a text, and its confidence.
pub data Reply {ℓ} (F : Type ℓ) : Type ℓ where
  bad_json : Reply F
  reply : Option String → F → Reply F

abbrev pub Names : Type 0
Names = List (List ℕ × String)

abbrev pub get_name : List ℕ → Names → Option String
get_name n [] = none
get_name n ((m, key) ∷ names) = if text_eq n m then some key else get_name n names

abbrev pub name_of : (List ℕ → List ℕ) → Category → List ℕ
name_of norm c = norm (codes c.display_name)

abbrev pub add_name : List ℕ → String → Names → Names
add_name n key names = if is_some (get_name n names) then names else (n, key) ∷ names

-- The loop that fills `by_name`: the first of two categories with one name keeps it.
unfoldable pub by_name : (List ℕ → List ℕ) → List Category → Names → Names
by_name norm [] names = names
by_name norm (c ∷ cs) names = by_name norm cs (add_name (name_of norm c) c.key names)

module _ {ℓ} {F : Type ℓ} where
  abbrev pub no_verdict : F → Verdict F
  no_verdict zero = record { verdict_key = none; confidence = zero }

  abbrev pub verdict_for : F → F → Option String → Verdict F
  verdict_for zero confidence none = no_verdict zero
  verdict_for zero confidence (some key) = record {
    verdict_key = some key;
    confidence = confidence;
  }

  -- `classify`, from the reply on; `zero` is 0.0.
  unfoldable pub classify : (List ℕ → List ℕ) → F → List Category → Reply F → Verdict F
  classify norm zero [] r = no_verdict zero
  classify norm zero (c ∷ cs) bad_json = no_verdict zero
  classify norm zero (c ∷ cs) (reply none confidence) = no_verdict zero
  classify norm zero (c ∷ cs) (reply (some label) confidence) =
      verdict_for zero confidence (get_name (norm (codes label)) (by_name norm (c ∷ cs) []))
