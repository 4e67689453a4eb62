-- ===== src/Categorization/Rules/Meaning.antt =====
-- What it means of a message that a rule of src/services/categorization/rules.py matches it.
use inbox_pilot.Prelude.{
  ℕ, ◌≡◌, refl, ap, sym, subst, ◌∙◌, Bool, true, false, ◌&&◌, ◌||◌, List, [], ◌∷◌, ◌++◌, str_eq,
  text_eq, text_eq→eq, nonempty, if◌then◌else◌, Bool-cases, inl, inr, arith, str_eq_apart,
}
use inbox_pilot.Categorization.Rules.{
  RuleSnapshot, Python, Message, or_empty, address, has_at, after_last_at, domain, lstrip_at,
  starts_with, occurs_in, folded_value, matches, match_sender_address, match_sender_domain,
  match_subject_keyword, match_body_keyword,
}

no_at-after_last : (s : List ℕ) → has_at s ≡ true → has_at (after_last_at s) ≡ false
no_at-after_last [] h = absurd (ground arith)
no_at-after_last (c ∷ s) h = elim (Bool-cases (has_at s)) [
  | inl more ↦ rw more (no_at-after_last s more)
  | inr last ↦ rw last last
]

split_last : (s : List ℕ) → has_at s ≡ true → (user : List ℕ) × (s ≡ user ++ b'@' ∷ after_last_at s)
split_last [] h = absurd (ground arith)
split_last (c ∷ s) h = elim (Bool-cases (has_at s)) [
  | inl more ↦ (let (user, q) = split_last s more in (c ∷ user, rw more (ap (λ l. c ∷ l) q)))
  | inr last ↦ (let q : c ≡ b'@' = ground arith in ([], rw last (ap (λ d. d ∷ s) q)))
]

starts_with-split :
    (value text : List ℕ) → starts_with value text ≡ true → (rest : List ℕ) × (text ≡ value ++ rest)
starts_with-split [] text h = (text, refl)
starts_with-split (c ∷ value) [] h = absurd (ground arith)
starts_with-split (c ∷ value) (d ∷ text) h =
    let (rest, q) = starts_with-split value text (ground arith) in
    let same : c ≡ d = ground arith in (rest, (let q' : text ≡ value ++ rest = q in cc))

occurs_in-split :
    (value text : List ℕ)
    → occurs_in value text ≡ true
    → (front : List ℕ) × (rest : List ℕ) × (text ≡ front ++ (value ++ rest))
occurs_in-split value [] h = let (rest, q) = starts_with-split value [] h in ([], rest, q)
occurs_in-split value (c ∷ text) h = elim (Bool-cases (starts_with value (c ∷ text))) [
  | inl here ↦ (let (rest, q) = starts_with-split value (c ∷ text) here in ([], rest, q))
  | inr later ↦
      (let (front, rest, q) = occurs_in-split value text (ground arith) in
        (c ∷ front, rest, ap (λ l. c ∷ l) q))
]

-- The domain of an address is behind its last `@`.
domain_split :
    (a target : List ℕ)
    → nonempty target ≡ true
    → text_eq (if has_at a then after_last_at a else []) target ≡ true
    → (user : List ℕ) × (a ≡ user ++ b'@' ∷ target) × (has_at target ≡ false)
domain_split a target full h = elim (Bool-cases (has_at a)) [
  | inl there ↦
      (let same : after_last_at a ≡ target = text_eq→eq (after_last_at a) target (rw there at h) in
        let (user, q) = split_last a there in
        (
          user,
          subst (λ d. a ≡ user ++ b'@' ∷ d) same q,
          subst (λ d. has_at d ≡ false) same (no_at-after_last a there),
        ))
  | inr no_domain ↦ absurd (
      let same : [] ≡ target = text_eq→eq [] target (rw no_domain at h) in
      let full' : nonempty [] ≡ true = subst (λ d. nonempty d ≡ true) (sym same) full in
      ground arith)
]

-- A rule on a sender's domain that matches has a domain, its value without the `@` in front, that
-- is not empty and has no `@` in it, and the sender's address is something, an `@` and just that
-- domain: a subdomain or a longer name does not match, nor does a sender without an address.
domain_rule_lem :
    (py : Python) (rule : RuleSnapshot) (m : Message)
    → str_eq rule.match_type match_sender_domain ≡ true
    → matches py rule m ≡ true
    → (user : List ℕ) × (address py m.sender ≡ user ++ b'@' ∷ lstrip_at (folded_value py rule))
      × (nonempty (lstrip_at (folded_value py rule)) ≡ true)
      × (has_at (lstrip_at (folded_value py rule)) ≡ false)
unfolding matches
domain_rule_lem py rule m kind h =
    let value = folded_value py rule in
    let a = address py m.sender in
    let other : str_eq rule.match_type match_sender_address ≡ false =
      str_eq_apart rule.match_type match_sender_domain match_sender_address refl kind in
    elim (Bool-cases (nonempty value)) [
      | inr empty ↦ absurd (let h' : false ≡ true = rw empty at h in ground arith)
      | inl full ↦
          (let h' : (nonempty (lstrip_at value) && text_eq (domain py m.sender) (lstrip_at value))
                ≡ true =
              rw (full, other, kind) at h in
            let full' : nonempty (lstrip_at value) ≡ true = ground arith in
            let (user, q, r) = domain_split a (lstrip_at value) full' (ground arith) in
            (user, q, full', r))
    ]

-- The text that a rule on a keyword looks in.
abbrev pub keyword_text : Python → RuleSnapshot → Message → List ℕ
keyword_text py rule m =
    if str_eq rule.match_type match_subject_keyword
    then py.fold (or_empty m.subject)
    else py.fold (or_empty m.snippet)

abbrev pub is_keyword : RuleSnapshot → Bool
is_keyword rule =
    str_eq rule.match_type match_subject_keyword || str_eq rule.match_type match_body_keyword

keyword-matches :
    (py : Python) (rule : RuleSnapshot) (m : Message)
    → is_keyword rule ≡ true
    → matches py rule m ≡ (
        nonempty (folded_value py rule)
        && occurs_in (folded_value py rule) (keyword_text py rule m))
unfolding matches
keyword-matches py rule m kind = elim (Bool-cases (str_eq rule.match_type match_subject_keyword)) [
  | inl subject ↦
      rw
        (
          subject,
          str_eq_apart rule.match_type match_subject_keyword match_sender_address refl subject,
          str_eq_apart rule.match_type match_subject_keyword match_sender_domain refl subject,
        )
        (ground arith)
  | inr not_subject ↦
      (let body : str_eq rule.match_type match_body_keyword ≡ true = ground arith in
        rw
          (
            not_subject,
            body,
            str_eq_apart rule.match_type match_body_keyword match_sender_address refl body,
            str_eq_apart rule.match_type match_body_keyword match_sender_domain refl body,
          )
          (ground arith))
]

-- A rule on a keyword, in the subject or in the snippet, that matches has a value that is not
-- empty once it is stripped and folded, and that text stands somewhere in the folded subject, or
-- the folded snippet.
keyword_rule_lem :
    (py : Python) (rule : RuleSnapshot) (m : Message)
    → is_keyword rule ≡ true
    → matches py rule m ≡ true
    → (nonempty (folded_value py rule) ≡ true)
      × (front : List ℕ) × (rest : List ℕ) × (keyword_text py rule m
          ≡ front ++ (folded_value py rule ++ rest))
keyword_rule_lem py rule m kind h =
    let h' : (nonempty (folded_value py rule)
          && occurs_in (folded_value py rule) (keyword_text py rule m))
        ≡ true =
      sym (keyword-matches py rule m kind) ∙ h in
    let (front, rest, q) =
      occurs_in-split (folded_value py rule) (keyword_text py rule m) (ground arith) in
    (ground arith, front, rest, q)
