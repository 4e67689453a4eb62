-- ===== src/Google/Scopes.antt =====
-- What a grant covers: the scopes of src/models/google.py, and the column that holds them.
pub mod Column
use inbox_pilot.Prelude.{
  ℕ, ltb, ◌==◌, ◌≡◌, ◌&&◌, ◌||◌, not, Bool, true, false, List, [], ◌∷◌, ◌++◌, codes, is_space,
  nonempty, text_in, all, filter, if◌then◌else◌,
}

abbrev pub calendar_events_scope : List ℕ
calendar_events_scope = codes "https://www.googleapis.com/auth/calendar.events"

abbrev pub calendar_freebusy_scope : List ℕ
calendar_freebusy_scope = codes "https://www.googleapis.com/auth/calendar.freebusy"

abbrev pub calendar_legacy_scope : List ℕ
calendar_legacy_scope = codes "https://www.googleapis.com/auth/calendar"

abbrev pub gmail_required_scopes : List (List ℕ)
gmail_required_scopes =
    codes "https://www.googleapis.com/auth/gmail.modify"
    ∷ codes "https://www.googleapis.com/auth/gmail.settings.basic"
    ∷ []

abbrev pub calendar_required_scopes : List (List ℕ)
calendar_required_scopes = calendar_events_scope ∷ calendar_freebusy_scope ∷ []

-- A set of scopes is a list, read by membership alone.
unfoldable pub expand_legacy_scopes : List (List ℕ) → List (List ℕ)
expand_legacy_scopes granted =
    if text_in calendar_legacy_scope granted then granted ++ calendar_required_scopes else granted

-- `required <= scopes`
abbrev pub covers : List (List ℕ) → List (List ℕ) → Bool
covers scopes required = all (λ (s : List ℕ). text_in s scopes) required

-- The order of texts.
abbrev pub before : List ℕ → List ℕ → Bool
before [] t = true
before (c ∷ s) [] = false
before (c ∷ s) (d ∷ t) = ltb c d || (c == d && before s t)

abbrev pub insert_scope : List ℕ → List (List ℕ) → List (List ℕ)
insert_scope s [] = s ∷ []
insert_scope s (t ∷ ts) =
    let rest = insert_scope s ts in if before s t then s ∷ t ∷ ts else t ∷ rest

abbrev pub sorted_scopes : List (List ℕ) → List (List ℕ)
sorted_scopes [] = []
sorted_scopes (s ∷ ss) = insert_scope s (sorted_scopes ss)

abbrev pub join_spaced : List (List ℕ) → List ℕ
join_spaced [] = []
join_spaced (w ∷ []) = w
join_spaced (w ∷ v ∷ ws) = w ++ (b' ' ∷ join_spaced (v ∷ ws))

-- `" ".join(sorted(scopes))`
unfoldable pub scope_column : List (List ℕ) → List ℕ
scope_column scopes = join_spaced (sorted_scopes scopes)

-- The word that a text begins with, and the words behind it.
abbrev pub emit : List ℕ × List (List ℕ) → List (List ℕ)
emit (w, ws) = if nonempty w then w ∷ ws else ws

abbrev pub words : List ℕ → List ℕ × List (List ℕ)
words [] = ([], [])
words (c ∷ cs) = let rest = words cs in if is_space c then ([], emit rest) else (c ∷ rest.0, rest.1)

-- `text.split()`
unfoldable pub split_words : List ℕ → List (List ℕ)
split_words s = emit (words s)
