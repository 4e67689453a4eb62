-- ===== src/Categorization/Classifier/Verdicts.antt =====
-- Which category a reply of the model names: src/services/classify/classifier.py.
use inbox_pilot.Prelude.{
  ℕ, ◌≡◌, refl, ◌∙◌, String, Option, none, some, List, [], ◌∷◌, codes, text_eq, text_eq→eq,
  if◌then◌else◌, Bool-cases, Option-cases, inl, inr,
}
use inbox_pilot.Categorization.Classifier.{
  Category, Names, get_name, name_of, add_name, by_name, reply, classify, verdict_for,
}

-- The first category of that name.
abbrev pub first_named : (List ℕ → List ℕ) → List ℕ → List Category → Option String
first_named norm n [] = none
first_named norm n (c ∷ cs) =
    if text_eq n (name_of norm c) then some c.key else first_named norm n cs

abbrev or_first : Option String → Option String → Option String
or_first none o = o
or_first (some key) o = some key

get-add :
    (n m : List ℕ) (key : String) (names : Names)
    → get_name n (add_name m key names)
      ≡ or_first (get_name n names) (if text_eq n m then some key else none)
get-add n m key names = elim (Option-cases (get_name m names)) [
  | inl new ↦ rw new (elim (Bool-cases (text_eq n m)) [
    | inl same ↦
        (let q : n ≡ m = text_eq→eq n m same in
          let absent : get_name n names ≡ none = rw q new in rw (same, absent) refl)
    | inr other ↦ rw other (elim (Option-cases (get_name n names)) [
      | inl absent ↦ rw absent refl
      | inr (k, e) ↦ rw e refl
    ])
  ])
  | inr (kept, e) ↦ rw e (elim (Bool-cases (text_eq n m)) [
    | inl same ↦
        (let q : n ≡ m = text_eq→eq n m same in
          let there : get_name n names ≡ some kept = rw q e in rw there refl)
    | inr other ↦ rw other (elim (Option-cases (get_name n names)) [
      | inl absent ↦ rw absent refl
      | inr (k, e') ↦ rw e' refl
    ])
  ])
]

get-by_name :
    (norm : List ℕ → List ℕ) (n : List ℕ) (cs : List Category) (names : Names)
    → get_name n (by_name norm cs names) ≡ or_first (get_name n names) (first_named norm n cs)
unfolding by_name
get-by_name norm n [] names = elim (Option-cases (get_name n names)) [
  | inl absent ↦ rw absent refl
  | inr (k, e) ↦ rw e refl
]
get-by_name norm n (c ∷ cs) names =
    get-by_name norm n cs (add_name (name_of norm c) c.key names)
    ∙ (rw (get-add n (name_of norm c) c.key names) (elim (Option-cases (get_name n names)) [
      | inl absent ↦ rw absent (elim (Bool-cases (text_eq n (name_of norm c))) [
        | inl same ↦ rw same refl
        | inr other ↦ rw other refl
      ])
      | inr (k, e) ↦ rw e refl
    ]))

verdict-key {ℓ} :
    {F : Type ℓ} (zero confidence : F) (o : Option String)
    → (verdict_for zero confidence o).verdict_key ≡ o
verdict-key zero confidence none = refl
verdict-key zero confidence (some key) = refl

-- A reply with a label chooses the first of the offered categories whose display name is the label
-- once both are stripped and folded, and none if there is no such category.
classify_lem {ℓ} :
    {F : Type ℓ} (norm : List ℕ → List ℕ) (zero confidence : F) (cs : List Category)
    (label : String)
    → (classify norm zero cs (reply (some label) confidence)).verdict_key
      ≡ first_named norm (norm (codes label)) cs
unfolding classify
classify_lem norm zero confidence [] label = refl
classify_lem norm zero confidence (c ∷ cs) label =
    verdict-key zero confidence (get_name (norm (codes label)) (by_name norm (c ∷ cs) []))
    ∙ get-by_name norm (norm (codes label)) (c ∷ cs) []
