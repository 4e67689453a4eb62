-- ===== src/Google/Scopes/Column.antt =====
-- The scopes that the column of a grant gives back: src/integrations/google/credentials.py.
use inbox_pilot.Prelude.{
  ℕ, ◌≡◌, refl, sym, ◌∙◌, ap, ◌||◌, Bool, true, false, List, [], ◌∷◌, ◌++◌, is_space, nonempty,
  text_in, text_eq, all, All, Bool-cases, inl, inr,
}
use inbox_pilot.Google.Scopes.{
  expand_legacy_scopes, covers, before, insert_scope, sorted_scopes, join_spaced, scope_column,
  emit, words, split_words, calendar_required_scopes, calendar_legacy_scope,
}

-- A scope as Google names them: not empty, and without a space.
abbrev pub IsWord : List ℕ → Type 0
IsWord w = (nonempty w ≡ true) × All (λ c. is_space c ≡ false) w

words-append :
    (w s : List ℕ)
    → All (λ c. is_space c ≡ false) w
    → words (w ++ s) ≡ (w ++ (words s).0, (words s).1)
words-append [] s h = refl
words-append (c ∷ w) s (dark, rest) = rw (dark, words-append w s rest) refl

append_nil : (w : List ℕ) → w ++ [] ≡ w
append_nil [] = refl
append_nil (c ∷ w) = rw (append_nil w) refl

split_words-join : (ws : List (List ℕ)) → All IsWord ws → split_words (join_spaced ws) ≡ ws
unfolding split_words
split_words-join [] h = refl
split_words-join (w ∷ []) ((full, dark), h) =
    let e : words w ≡ (w, []) =
      ap words (sym (append_nil w)) ∙ words-append w [] dark ∙ rw (append_nil w) refl in
    rw (e, full) refl
split_words-join (w ∷ v ∷ ws) ((full, dark), h) =
    let rest : emit (words (join_spaced (v ∷ ws))) ≡ v ∷ ws = split_words-join (v ∷ ws) h in
    rw (words-append w (b' ' ∷ join_spaced (v ∷ ws)) dark, rest, append_nil w, full) refl

or_swap : (a b c : Bool) → (a || (b || c)) ≡ (b || (a || c))
or_swap true true c = refl
or_swap true false c = refl
or_swap false b c = refl

text_in-insert :
    (s t : List ℕ) (ts : List (List ℕ))
    → text_in s (insert_scope t ts) ≡ (text_eq s t || text_in s ts)
text_in-insert s t [] = refl
text_in-insert s t (u ∷ us) = elim (Bool-cases (before t u)) [
  | inl first ↦ rw first refl
  | inr later ↦
      rw (later, text_in-insert s t us) (or_swap (text_eq s u) (text_eq s t) (text_in s us))
]

text_in-sorted : (s : List ℕ) (ss : List (List ℕ)) → text_in s (sorted_scopes ss) ≡ text_in s ss
text_in-sorted s [] = refl
text_in-sorted s (t ∷ ts) = text_in-insert s t (sorted_scopes ts) ∙ rw (text_in-sorted s ts) refl

insert-words :
    (s : List ℕ) (ss : List (List ℕ)) → IsWord s → All IsWord ss → All IsWord (insert_scope s ss)
insert-words s [] w ws = (w, tt)
insert-words s (t ∷ ts) w (v, vs) = elim (Bool-cases (before s t)) [
  | inl first ↦ rw first (w, (v, vs))
  | inr later ↦ rw later (v, insert-words s ts w vs)
]

sorted-words : (ss : List (List ℕ)) → All IsWord ss → All IsWord (sorted_scopes ss)
sorted-words [] h = tt
sorted-words (s ∷ ss) (w, ws) = insert-words s (sorted_scopes ss) w (sorted-words ss ws)

text_in-append :
    (s : List ℕ) (ss ts : List (List ℕ)) → text_in s (ss ++ ts) ≡ (text_in s ss || text_in s ts)
text_in-append s [] ts = refl
text_in-append s (u ∷ us) ts = rw (text_in-append s us ts) (or_assoc (text_eq s u) _ _)
  where
    or_assoc : (a b c : Bool) → (a || (b || c)) ≡ ((a || b) || c)
    or_assoc true b c = refl
    or_assoc false b c = refl

-- What an expanded grant holds depends on what the grant holds.
text_in-expand :
    (s : List ℕ) (ss ts : List (List ℕ))
    → ((t : List ℕ) → text_in t ss ≡ text_in t ts)
    → text_in s (expand_legacy_scopes ss) ≡ text_in s (expand_legacy_scopes ts)
unfolding expand_legacy_scopes
text_in-expand s ss ts same = elim (Bool-cases (text_in calendar_legacy_scope ss)) [
  | inl broad ↦
      rw (broad, sym (same calendar_legacy_scope) ∙ broad)
        (text_in-append s ss calendar_required_scopes
          ∙ rw (same s) (sym (text_in-append s ts calendar_required_scopes)))
  | inr narrow ↦ rw (narrow, sym (same calendar_legacy_scope) ∙ narrow) (same s)
]

all-same :
    (p q : List ℕ → Bool) (xs : List (List ℕ)) → ((x : List ℕ) → p x ≡ q x) → all p xs ≡ all q xs
all-same p q [] same = refl
all-same p q (x ∷ xs) same = rw (same x, all-same p q xs same) refl

-- A grant that was written to its column, read back and expanded covers exactly what the grant
-- itself covers when it is expanded, if each of its scopes is a word: not empty, and without white
-- space.
pub column_keeps_scopes :
    (granted required : List (List ℕ))
    → All IsWord granted
    → covers (expand_legacy_scopes (split_words (scope_column granted))) required
      ≡ covers (expand_legacy_scopes granted) required
unfolding scope_column
column_keeps_scopes granted required h = all-same _ _ required (λ s.
    text_in-expand s _ granted (λ t.
      ap (text_in t) (split_words-join (sorted_scopes granted) (sorted-words granted h))
      ∙ text_in-sorted t granted))
