-- ===== src/Scheduling/Questions/Normalised.antt =====
-- What a host's questions become, and what their answers are worth:
-- src/services/scheduling/questions.py.
use Prim.Native.String.{count, ◌++◌ as append}
use package.text.Mathlib.TextLemmas.{length-append}
use inbox_pilot.Prelude.{
  ℕ, zero, suc, ◌+◌, ◌≤◌, ◌<◌, ◌≡◌, refl, sym, subst, String, str_eq, eq_iff, Bool, true, false,
  none, List, [], ◌∷◌, length, take, contains, ok, arith, if◌then◌else◌, Bool-cases, inl, inr, All,
}
use inbox_pilot.Scheduling.Questions.{
  Kind, text, textarea, select, checkbox, Question, Raw, Answers, validate,
}
use inbox_pilot.Scheduling.Questions.Answers.{
  find_item, Answered, lacks_key, DistinctKeys, validate-Answered,
}
use inbox_pilot.Scheduling.Questions.Definitions.{
  HostQuestion, is_blank, stripped_or, fresh_from, total, fresh_key, kind_of, clean_options,
  with_options, of_kind, entry_of, key_of, normalise_from, normalise_definitions,
}

contains-total : (k : String) (seen : List String) → contains k seen ≡ true → count k ≤ total seen
contains-total k [] h = absurd (ground arith)
contains-total k (x ∷ xs) h = elim (Bool-cases (str_eq k x)) [
  | inl same ↦
      (let q : k ≡ x = ground (arith, eq_iff k x) in
        subst (λ y. count k ≤ count y + total xs) q (omega arith))
  | inr other ↦ (let le = contains-total k xs (ground arith) in omega arith)
]

-- More characters than all the keys have are in none of them.
fresh_from-New :
    (fuel : ℕ) (seen : List String) (key : String)
    → total seen < count key + fuel
    → contains (fresh_from fuel seen key) seen ≡ false
fresh_from-New zero seen key h = elim (Bool-cases (contains key seen)) [
  | inl found ↦ (let le = contains-total key seen found in absurd (omega arith))
  | inr new ↦ new
]
fresh_from-New (suc fuel) seen key h = elim (Bool-cases (contains key seen)) [
  | inl found ↦
      (let longer : count (append key "x") ≡ count key + 1 = length-append key "x" in
        rw found (fresh_from-New fuel seen (append key "x") (omega arith)))
  | inr new ↦ rw new new
]

fresh_key-New : (seen : List String) (key : String) → contains (fresh_key seen key) seen ≡ false
unfolding fresh_key
fresh_key-New seen key = fresh_from-New (suc (total seen)) seen key (omega arith)

-- No two of the questions share a key, and none has one of the keys that are seen.
abbrev AreFresh : List String → List Question → Type 0
AreFresh seen qs = DistinctKeys qs × All (λ (q : Question). contains q.key seen ≡ false) qs

new-lacks_key :
    (key : String) (seen : List String) (qs : List Question)
    → All (λ (q : Question). contains q.key (key ∷ seen) ≡ false) qs
    → (lacks_key key qs ≡ true) × All (λ (q : Question). contains q.key seen ≡ false) qs
new-lacks_key key seen [] new = (refl, tt)
new-lacks_key key seen (q ∷ qs) (here, new) =
    let (lacking, older) = new-lacks_key key seen qs new in
    (ground (arith, lacking), (ground arith, older))

step-AreFresh :
    (skipped : Bool) (key : String) (seen : List String) (e : Question) (rest : List Question)
    → e.key ≡ key
    → contains key seen ≡ false
    → AreFresh (if skipped then seen else key ∷ seen) rest
    → AreFresh seen (if skipped then rest else e ∷ rest)
step-AreFresh true key seen e rest named new h = h
step-AreFresh false key seen e rest named new (distinct, h) =
    let (lacking, older) = new-lacks_key key seen rest h in
    (
      (subst (λ k. lacks_key k rest ≡ true) (sym named) lacking, distinct),
      (subst (λ k. contains k seen ≡ false) (sym named) new, older),
    )

with_options-key : (options : List (List ℕ)) (q : Question) → (with_options options q).key ≡ q.key
with_options-key [] q = refl
with_options-key (o ∷ os) q = refl

of_kind-key :
    (kind : Kind) (options : List (List ℕ)) (q : Question) → (of_kind kind options q).key ≡ q.key
of_kind-key text options q = refl
of_kind-key textarea options q = refl
of_kind-key checkbox options q = refl
of_kind-key select options q = with_options-key (clean_options options) q

normalise_from-AreFresh :
    (index : ℕ) (seen : List String) (qs : List HostQuestion)
    → AreFresh seen (normalise_from index seen qs)
normalise_from-AreFresh index seen [] = (tt, tt)
normalise_from-AreFresh index seen (q ∷ qs) =
    let label = stripped_or q.label "" in
    let key = key_of index seen q in
    step-AreFresh (is_blank label) key seen (entry_of key label q) _
      (of_kind-key (kind_of q.kind) q.options _) (fresh_key-New seen _)
      (normalise_from-AreFresh (suc index) (if is_blank label then seen else key ∷ seen) qs)

take-lacks_key :
    (key : String) (n : ℕ) (qs : List Question)
    → lacks_key key qs ≡ true
    → lacks_key key (take n qs) ≡ true
take-lacks_key key zero qs h = refl
take-lacks_key key (suc n) [] h = refl
take-lacks_key key (suc n) (q ∷ qs) h =
    let rest = take-lacks_key key n qs (ground arith) in ground (arith, rest)

take-DistinctKeys : (n : ℕ) (qs : List Question) → DistinctKeys qs → DistinctKeys (take n qs)
take-DistinctKeys zero qs h = tt
take-DistinctKeys (suc n) [] h = tt
take-DistinctKeys (suc n) (q ∷ qs) (h, hs) =
    (take-lacks_key q.key n qs h, take-DistinctKeys n qs hs)

length-take_le : (n : ℕ) {A : Type 0} (xs : List A) → length (take n xs) ≤ n
length-take_le zero xs = omega arith
length-take_le (suc n) [] = omega arith
length-take_le (suc n) (x ∷ xs) = let le = length-take_le n xs in omega arith

-- A select offers from one to twenty options.
abbrev pub Offers : Kind → List (List ℕ) → Type 0
Offers select options = (1 ≤ length options) × (length options ≤ 20)
Offers other options = Unit

step-Offers :
    (skipped : Bool) (e : Question) (rest : List Question)
    → Offers e.kind e.options
    → All (λ (q : Question). Offers q.kind q.options) rest
    → All (λ (q : Question). Offers q.kind q.options) (if skipped then rest else e ∷ rest)
step-Offers true e rest h hs = hs
step-Offers false e rest h hs = (h, hs)

with_options-Offers :
    (options : List (List ℕ)) (q : Question)
    → Offers (with_options options q).kind (with_options options q).options
with_options-Offers [] q = tt
with_options-Offers (o ∷ os) q = (omega arith, length-take_le 20 (o ∷ os))

of_kind-Offers :
    (kind : Kind) (options : List (List ℕ)) (q : Question)
    → q.kind ≡ kind
    → Offers (of_kind kind options q).kind (of_kind kind options q).options
of_kind-Offers text options q e = subst (λ k. Offers k q.options) (sym e) tt
of_kind-Offers textarea options q e = subst (λ k. Offers k q.options) (sym e) tt
of_kind-Offers checkbox options q e = subst (λ k. Offers k q.options) (sym e) tt
of_kind-Offers select options q e = with_options-Offers (clean_options options) q

normalise_from-Offers :
    (index : ℕ) (seen : List String) (qs : List HostQuestion)
    → All (λ (q : Question). Offers q.kind q.options) (normalise_from index seen qs)
normalise_from-Offers index seen [] = tt
normalise_from-Offers index seen (q ∷ qs) =
    step-Offers (is_blank (stripped_or q.label "")) _ _
      (of_kind-Offers (kind_of q.kind) q.options _ refl) (normalise_from-Offers (suc index) _ qs)

take-All : (P : Question → Type 0) (n : ℕ) (qs : List Question) → All P qs → All P (take n qs)
take-All P zero qs h = tt
take-All P (suc n) [] h = tt
take-All P (suc n) (q ∷ qs) (h, hs) = (h, take-All P n qs hs)

-- Whatever a host sends, its questions become at most 15 with distinct keys, and each select among
-- them offers from one to twenty options.
pub normalise_definitions-Sound :
    (host : List HostQuestion)
    → DistinctKeys (normalise_definitions host)
      × (length (normalise_definitions host) ≤ 15)
      × All (λ (q : Question). Offers q.kind q.options) (normalise_definitions host)
unfolding normalise_definitions
normalise_definitions-Sound host = (
  take-DistinctKeys 15 (normalise_from 0 [] host) (normalise_from-AreFresh 0 [] host).0,
  length-take_le 15 (normalise_from 0 [] host),
  take-All _ 15 (normalise_from 0 [] host) (normalise_from-Offers 0 [] host),
)

-- Answers that are accepted for the questions of a host answer every required question; an answer
-- to a select is one of its options, a text has at most 2000 characters, a checkbox says Yes or
-- No; and what was sent under any other key is dropped.
pub accepted-Answered :
    (host : List HostQuestion) (answers : List (String × Raw)) (final : Answers)
    → validate (normalise_definitions host) answers ≡ ok final
    → All (λ (q : Question). Answered q q.kind (find_item q.key final)) (normalise_definitions host)
      × ((j : String) → lacks_key j (normalise_definitions host) ≡ true → find_item j final ≡ none)
accepted-Answered host answers final h =
    validate-Answered answers (normalise_definitions host) final
      (normalise_definitions-Sound host).0 h
