-- ===== src/Categorization/Tests.antt =====
-- Categorization of one message.
use inbox_pilot.Prelude.{
  ℕ, ◌≡◌, ltb, String, true, false, ◌||◌, ◌&&◌, not, Option, none, some, List, [], ◌∷◌, contains,
  str_eq,
}
use inbox_pilot.Categorization.Rules.{RuleSnapshot, Python, Message}
use inbox_pilot.Categorization.Labels.{
  Actions, Listing, LabelCache, inbox_label, starred_label, unread_label, category_change,
}
use inbox_pilot.Categorization.Labels.Exclusive.{worn, is_lid, category_change_lem}
use inbox_pilot.Categorization.Classifier.{Category, Verdict}
use inbox_pilot.Categorization.Pipeline.{
  CategorySnapshot, UserConfig, Services, categorize_and_apply,
}
use inbox_pilot.Categorization.Pipeline.Outcomes.{Accounted, categorized-Accounted}

abbrev python : Python
python = record { fold = λ s. s; parseaddr = λ s. s }

abbrev message : Message
message = record { sender = some "bo@acme.com"; subject = some "Your invoice"; snippet = none }

abbrev archiving : Actions
archiving = record { archive = true; mark_read = false; star = true }

abbrev work : CategorySnapshot
work = record {
  key = "work";
  gmail_label = "Work";
  display_name = "Work";
  description = "";
  is_enabled = true;
  actions = archiving;
}

abbrev money : CategorySnapshot
money = record work { key = "money"; gmail_label = "Money"; display_name = "Money" }

abbrev config_with : List RuleSnapshot → UserConfig ℕ
config_with rules = record {
  is_enabled = true;
  categories = work ∷ money ∷ [];
  rules = rules;
  fallback_category_key = some "money";
  confidence_threshold = 80;
}

abbrev labels : Listing
labels = some ((some "Work", some "L1") ∷ (some "Money", some "L2") ∷ [])

abbrev services : Services ℕ
services = record { python = python; below = ltb; listing = labels; accepts = λ request. true }

abbrev says : String → ℕ → Message → List Category → Option (Verdict ℕ)
says key confidence m categories = some (record { verdict_key = some key; confidence = confidence })

abbrev no_labels : LabelCache
no_labels user_id name = none

category_change_lem_example :
    (worn
        ("INBOX" ∷ "L1" ∷ "other" ∷ [])
        (category_change "L2" archiving (some "L1" ∷ some "L2" ∷ []))
        "L1"
      ≡ ((str_eq "L1" "L2" || (true && str_eq "L1" starred_label))
          || (contains "L1" ("INBOX" ∷ "L1" ∷ "other" ∷ [])
              && (not (true && str_eq "L1" inbox_label)
                  && (not (false && str_eq "L1" unread_label)
                      && not (is_lid "L1" (some "L1" ∷ some "L2" ∷ [])))))))
    × ((contains "L1" (category_change "L2" archiving (some "L1" ∷ some "L2" ∷ [])).add
          && contains "L1" (category_change "L2" archiving (some "L1" ∷ some "L2" ∷ [])).remove)
        ≡ false)
category_change_lem_example =
    category_change_lem ("INBOX" ∷ "L1" ∷ "other" ∷ []) "L2" archiving (some "L1" ∷ some "L2" ∷ [])
      "L1"

categorized-Accounted_example : Accounted (
    categorize_and_apply
      (says "work" 90)
      services
      (config_with [])
      1
      "m1"
      (some "t1")
      no_labels
      message)
categorized-Accounted_example =
    categorized-Accounted (says "work" 90) services (config_with []) 1 "m1" (some "t1") no_labels
      message
