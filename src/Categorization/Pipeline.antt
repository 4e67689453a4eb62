-- ===== src/Categorization/Pipeline.antt =====
-- The one path that labels a message: src/services/categorization/pipeline.py, with what it hands
-- to src/services/activity/record.py last. Confidences are of a type F, with the test
-- `below` for "less than".
pub mod Outcomes
use inbox_pilot.Prelude.{
  ℕ, String, Bool, true, false, ◌||◌, not, Option, none, some, List, [], ◌∷◌, map, filter, find?,
  is_some, str_eq, if◌then◌else◌,
}
use inbox_pilot.Categorization.Rules.{RuleSnapshot, Python, Message, first_match, rule_exclude}
use inbox_pilot.Categorization.Labels.{Actions, Listing, LabelCache, Request, apply_category}
use inbox_pilot.Categorization.Classifier.{Category, Verdict}

pub record CategorySnapshot : Type 0 where
  pub key : String
  pub gmail_label : String
  pub display_name : String
  pub description : String
  pub is_enabled : Bool
  pub actions : Actions

pub record UserConfig (F : Type 0) : Type 0 where
  pub is_enabled : Bool
  pub categories : List CategorySnapshot
  pub rules : List RuleSnapshot
  pub fallback_category_key : Option String
  pub confidence_threshold : F

-- What one run asks of the outside besides the model: `accepts` is false where Gmail's call
-- raises. The classifier is an argument of its own, `none` where it raises.
pub record Services (F : Type 0) : Type 0 where
  pub python : Python
  pub below : F → F → Bool
  pub listing : Listing
  pub accepts : Request → Bool

-- What a run leaves: the key that it returns (`none` if it raised), whether the model was asked,
-- the calls that Gmail accepted, the keys that the activity log was given, and the cache of
-- labels.
pub record Outcome : Type 0 where
  pub result : Option (Option String)
  pub asked : Bool
  pub labelled : List Request
  pub recorded : List String
  pub cache : LabelCache

-- What the run settles on.
pub data Choice : Type 0 where
  raised undecided : Choice
  chosen : CategorySnapshot → Choice

abbrev pub from_category : Option CategorySnapshot → Choice
from_category none = undecided
from_category (some c) = chosen c

abbrev or_blank : Option String → String
or_blank none = ""
or_blank (some key) = key

abbrev pub offered : CategorySnapshot → Category
offered c = record { key = c.key; display_name = c.display_name; description = c.description }

-- `categorize.disabled`, and else the rest of the run.
abbrev pub unless_off : Bool → LabelCache → Outcome → Outcome
unless_off is_enabled cache o =
    if not is_enabled
    then record { result = some none; asked = false; labelled = []; recorded = []; cache = cache }
    else o

module _ {F : Type 0} where
  abbrev pub enabled : UserConfig F → List CategorySnapshot
  enabled config = filter (λ (c : CategorySnapshot). c.is_enabled) config.categories

  abbrev pub by_key : UserConfig F → String → Option CategorySnapshot
  by_key config key = find? (λ (c : CategorySnapshot). str_eq c.key key) config.categories

  abbrev pub rule_choice : UserConfig F → RuleSnapshot → Choice
  rule_choice config rule =
      if str_eq rule.action rule_exclude
      then undecided
      else from_category (by_key config (or_blank rule.category_key))

  -- The verdict's key, unless there is none or the model was not sure enough.
  abbrev pub trusted_key : (F → F → Bool) → UserConfig F → Verdict F → Option String
  trusted_key below config v =
      if not (is_some v.verdict_key) || below v.confidence config.confidence_threshold
      then config.fallback_category_key
      else v.verdict_key

  abbrev from_key : UserConfig F → Option String → Choice
  from_key config none = undecided
  from_key config (some key) = from_category (by_key config key)

  abbrev pub model_choice : (F → F → Bool) → UserConfig F → Option (Verdict F) → Choice
  model_choice below config none = raised
  model_choice below config (some v) = from_key config (trusted_key below config v)

  ask :
      (Message → List Category → Option (Verdict F))
      → (F → F → Bool)
      → UserConfig F
      → Message
      → List CategorySnapshot
      → Choice × Bool
  ask classify below config m [] = (undecided, false)
  ask classify below config m (c ∷ cs) =
      (model_choice below config (classify m (map offered (c ∷ cs))), true)

  matched :
      (Message → List Category → Option (Verdict F))
      → (F → F → Bool)
      → UserConfig F
      → Message
      → Option RuleSnapshot
      → Choice × Bool
  unfolding ask
  matched classify below config m none = ask classify below config m (enabled config)
  matched classify below config m (some rule) = (rule_choice config rule, false)

  -- The choice, and whether the model was asked for it.
  unfoldable pub choose :
      (Message → List Category → Option (Verdict F))
      → Services F
      → UserConfig F
      → Message
      → Choice × Bool
  unfolding matched
  choose classify s config m =
      matched classify s.below config m (first_match s.python config.rules m)

  -- The label's call went to Gmail, with a cache of labels that it left.
  unfoldable pub labelled_as : Services F → String → Bool → Option Request × LabelCache → Outcome
  labelled_as s key asked (none, cache) = record {
    result = none;
    asked = asked;
    labelled = [];
    recorded = [];
    cache = cache;
  }
  labelled_as s key asked (some request, cache) =
      if s.accepts request
      then record {
        result = some (some key);
        asked = asked;
        labelled = request ∷ [];
        recorded = key ∷ [];
        cache = cache;
      }
      else record { result = none; asked = asked; labelled = []; recorded = []; cache = cache }

  unfoldable pub apply_choice :
      Services F → UserConfig F → ℕ → String → Option String → LabelCache → Choice × Bool → Outcome
  apply_choice s config user_id message_id thread_id cache (raised, asked) = record {
    result = none;
    asked = asked;
    labelled = [];
    recorded = [];
    cache = cache;
  }
  apply_choice s config user_id message_id thread_id cache (undecided, asked) = record {
    result = some none;
    asked = asked;
    labelled = [];
    recorded = [];
    cache = cache;
  }
  apply_choice s config user_id message_id thread_id cache (chosen c, asked) =
      labelled_as s c.key asked (
        apply_category s.python.fold s.listing user_id (message_id ∷ []) c.gmail_label c.actions
          (map (λ (k : CategorySnapshot). k.gmail_label) config.categories) thread_id cache)

  unfoldable pub categorize_and_apply :
      (Message → List Category → Option (Verdict F))
      → Services F
      → UserConfig F
      → ℕ
      → String
      → Option String
      → LabelCache
      → Message
      → Outcome
  categorize_and_apply classify s config user_id message_id thread_id cache m =
      unless_off config.is_enabled cache
        (apply_choice s config user_id message_id thread_id cache (choose classify s config m))
