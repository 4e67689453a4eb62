-- ===== src/Categorization/Pipeline/Outcomes.antt =====
-- What becomes of a message that src/services/categorization/pipeline.py takes.
use inbox_pilot.Prelude.{
  ℕ, ◌≡◌, refl, String, Bool, true, false, ◌||◌, not, Option, none, some, List, [], ◌∷◌, map,
  length, is_some, Bool-cases, inl, inr,
}
use inbox_pilot.Categorization.Rules.{RuleSnapshot, Message, first_match}
use inbox_pilot.Categorization.Labels.{LabelCache, Request}
use inbox_pilot.Categorization.Classifier.{Category, Verdict}
use inbox_pilot.Categorization.Pipeline.{
  CategorySnapshot, UserConfig, Services, Outcome, Choice, choose, chosen, raised, undecided,
  labelled_as, apply_choice, unless_off, categorize_and_apply, matched, ask, enabled, offered,
  from_category, by_key,
}

-- The key that a run returned, if it returned one.
abbrev pub returned : Option (Option String) → List String
returned none = []
returned (some none) = []
returned (some (some key)) = key ∷ []

abbrev pub Accounted : Outcome → Type 0
Accounted o = (o.recorded ≡ returned o.result) × (length o.labelled ≡ length o.recorded)

labelled_as-Accounted :
    {F : Type 0} (s : Services F) (key : String) (asked : Bool) (r : Option Request × LabelCache)
    → Accounted (labelled_as s key asked r)
unfolding labelled_as
labelled_as-Accounted s key asked (none, cache) = (refl, refl)
labelled_as-Accounted s key asked (some request, cache) = elim (Bool-cases (s.accepts request)) [
  | inl sent ↦ rw sent (refl, refl)
  | inr refused ↦ rw refused (refl, refl)
]

apply_choice-Accounted :
    {F : Type 0} (s : Services F) (config : UserConfig F) (user_id : ℕ) (message_id : String)
    (thread_id : Option String) (cache : LabelCache) (c : Choice × Bool)
    → Accounted (apply_choice s config user_id message_id thread_id cache c)
unfolding apply_choice
apply_choice-Accounted s config user_id message_id thread_id cache (raised, asked) = (refl, refl)
apply_choice-Accounted s config user_id message_id thread_id cache (undecided, asked) = (refl, refl)
apply_choice-Accounted s config user_id message_id thread_id cache (chosen c, asked) =
    labelled_as-Accounted s c.key asked _

unless_off-Accounted :
    (is_enabled : Bool) (cache : LabelCache) (o : Outcome)
    → Accounted o
    → Accounted (unless_off is_enabled cache o)
unless_off-Accounted true cache o h = h
unless_off-Accounted false cache o h = (refl, refl)

-- The activity log is given a message, under the key that the run returns, if and only if the run
-- returns a key, and then Gmail accepted exactly one change of labels for it; a run that raises or
-- returns no key gives the log nothing and changes no label.
pub categorized-Accounted :
    {F : Type 0} (classify : Message → List Category → Option (Verdict F)) (s : Services F)
    (config : UserConfig F) (user_id : ℕ) (message_id : String) (thread_id : Option String)
    (cache : LabelCache) (m : Message)
    → Accounted (categorize_and_apply classify s config user_id message_id thread_id cache m)
unfolding categorize_and_apply
categorized-Accounted classify s config user_id message_id thread_id cache m =
    unless_off-Accounted config.is_enabled cache _ (
      apply_choice-Accounted s config user_id message_id thread_id cache
        (choose classify s config m))

-- If a rule matches the message, the model is not asked and has no say: whatever it would have
-- answered, the outcome is the same.
rule_outranks_model :
    {F : Type 0} (classify classify' : Message → List Category → Option (Verdict F))
    (s : Services F) (config : UserConfig F) (user_id : ℕ) (message_id : String)
    (thread_id : Option String) (cache : LabelCache) (m : Message) (rule : RuleSnapshot)
    → first_match s.python config.rules m ≡ some rule
    → (categorize_and_apply classify s config user_id message_id thread_id cache m
        ≡ categorize_and_apply classify' s config user_id message_id thread_id cache m)
      × ((choose classify s config m).1 ≡ false)
unfolding categorize_and_apply choose matched
rule_outranks_model classify classify' s config user_id message_id thread_id cache m rule e =
    (rw e refl, rw e refl)

-- If no rule matches, at least one category is enabled, and the classifier's verdict has no key or
-- a confidence below the threshold, then the key is the fallback's or there is none, whichever
-- category the verdict named.
unsure_falls_back :
    {F : Type 0} (classify : Message → List Category → Option (Verdict F)) (s : Services F)
    (config : UserConfig F) (m : Message) (c : CategorySnapshot) (cs : List CategorySnapshot)
    (v : Verdict F)
    → first_match s.python config.rules m ≡ none
    → enabled config ≡ c ∷ cs
    → classify m (map offered (c ∷ cs)) ≡ some v
    → (not (is_some v.verdict_key) || s.below v.confidence config.confidence_threshold) ≡ true
    → choose classify s config m ≡ (
      elim config.fallback_category_key [
        | none ↦ undecided
        | some key ↦ from_category (by_key config key)
      ],
      true,
    )
unfolding choose matched ask
unsure_falls_back classify s config m c cs v no_rule some_enabled said unsure =
    rw (no_rule, some_enabled, said, unsure) refl
