-- ===== src/Categorization/Labels.antt =====
-- The labels of a message: src/services/mailman/gmail_ops.py. The cache of label ids is keyed by
-- user and folded name; Gmail's list of labels during a call is an argument, `none` if it raises.
pub mod Exclusive
use inbox_pilot.Prelude.{
  ℕ, ◌==◌, String, Bool, true, false, ◌&&◌, ◌||◌, not, Option, none, some, List, [], ◌∷◌, ◌++◌,
  filter, contains, str_eq, codes, text_eq, nonempty, truthy, Result, ok, err, if◌then◌else◌,
}

abbrev pub inbox_label : String
inbox_label = "INBOX"

abbrev pub unread_label : String
unread_label = "UNREAD"

abbrev pub starred_label : String
starred_label = "STARRED"

abbrev pub hold_label_name : String
hold_label_name = "inboxos-later"

abbrev pub LabelCache : Type 0
LabelCache = ℕ → List ℕ → Option String

-- A row of Gmail's list: the name, and the id.
abbrev pub Listing : Type 0
Listing = Option (List (Option String × Option String))

abbrev set_id : LabelCache → ℕ → List ℕ → String → LabelCache
set_id cache user_id name lid u n = if u == user_id && text_eq n name then some lid else cache u n

abbrev text_of : Option String → String
text_of none = ""
text_of (some s) = s

cache_row : (List ℕ → List ℕ) → ℕ → Option String × Option String → LabelCache → LabelCache
cache_row fold user_id (name, lid) cache =
    let folded = fold (codes (text_of name)) in
    if truthy lid && nonempty folded then set_id cache user_id folded (text_of lid) else cache

-- `cache_label_ids`, over the dict of folded names that a list of labels gives.
unfoldable pub cache_label_ids :
    (List ℕ → List ℕ) → ℕ → List (Option String × Option String) → LabelCache → LabelCache
unfolding cache_row
cache_label_ids fold user_id [] cache = cache
cache_label_ids fold user_id (row ∷ rows) cache =
    cache_label_ids fold user_id rows (cache_row fold user_id row cache)

cached_or : LabelCache → ℕ → List ℕ → (List ℕ → List ℕ) → Listing → Option String × LabelCache
cached_or cache user_id key fold none = (none, cache)
cached_or cache user_id key fold (some rows) =
    let cache' = cache_label_ids fold user_id rows cache in (cache' user_id key, cache')

-- With the cache as it is afterwards.
unfoldable pub resolve_label_id :
    (List ℕ → List ℕ) → Listing → ℕ → String → LabelCache → Option String × LabelCache
unfolding cached_or
resolve_label_id fold listing user_id name cache =
    let key = fold (codes name) in
    let hit = cache user_id key in
    if truthy hit then (hit, cache) else cached_or cache user_id key fold listing

-- One name after the other.
unfoldable pub resolve_each :
    (List ℕ → List ℕ) → Listing → ℕ → List String → LabelCache → List (Option String) × LabelCache
resolve_each fold listing user_id [] cache = ([], cache)
resolve_each fold listing user_id (name ∷ names) cache =
    let (lid, cache') = resolve_label_id fold listing user_id name cache in
    let (lids, cache'') = resolve_each fold listing user_id names cache' in (lid ∷ lids, cache'')

-- The keys of `CATEGORY_ACTIONS` that are set.
pub record Actions : Type 0 where
  pub archive : Bool
  pub mark_read : Bool
  pub star : Bool

pub record Change : Type 0 where
  pub add : List String
  pub remove : List String

abbrev pub only_if : Bool → String → List String
only_if b label = if b then label ∷ [] else []

-- The ids that resolved, without the winner's.
unfoldable pub losers : String → List (Option String) → List String
losers label_id [] = []
losers label_id (lid ∷ lids) =
    let rest = losers label_id lids in
    let name = text_of lid in if truthy lid && not (str_eq name label_id) then name ∷ rest else rest

unfoldable pub category_change : String → Actions → List (Option String) → Change
category_change label_id actions lids =
    let add = label_id ∷ only_if actions.star starred_label in
    record {
      add = add;
      remove =
          filter (λ lid. not (contains lid add))
            (only_if actions.archive inbox_label
              ++ (only_if actions.mark_read unread_label ++ losers label_id lids));
    }

-- A call of Gmail, if there is one.
pub data Request : Type 0 where
  modify_thread : String → Change → Request
  batch_modify : List String → Change → Request
  no_request : Request

-- `_modify`
abbrev pub modify : List String → Change → Request
modify [] change = no_request
modify (m ∷ ms) change = batch_modify (m ∷ ms) change

abbrev send_to : Option String → List String → Change → Request
send_to none message_ids change = modify message_ids change
send_to (some thread_id) message_ids change =
    if truthy (some thread_id) then modify_thread thread_id change else modify message_ids change

abbrev apply_resolved :
    (List ℕ → List ℕ)
    → Listing
    → ℕ
    → List String
    → Actions
    → List String
    → Option String
    → Option String × LabelCache
    → Option Request × LabelCache
apply_resolved fold listing user_id message_ids actions taxonomy_labels thread_id
      (label_id, cache) =
    let (lids, cache') = resolve_each fold listing user_id taxonomy_labels cache in
    if truthy label_id
    then (
      some (send_to thread_id message_ids (category_change (text_of label_id) actions lids)),
      cache',
    )
    else (none, cache)

-- `none` is the RuntimeError for a label that is not found.
unfoldable pub apply_category :
    (List ℕ → List ℕ)
    → Listing
    → ℕ
    → List String
    → String
    → Actions
    → List String
    → Option String
    → LabelCache
    → Option Request × LabelCache
apply_category fold listing user_id message_ids label_name actions taxonomy_labels thread_id cache =
    apply_resolved fold listing user_id message_ids actions taxonomy_labels thread_id
      (resolve_label_id fold listing user_id label_name cache)

-- `hold` and `release`
abbrev hold_ids : Option String → List String
hold_ids lid = only_if (truthy lid) (text_of lid)

unfoldable pub hold :
    (List ℕ → List ℕ) → Listing → ℕ → List String → LabelCache → Request × LabelCache
hold fold listing user_id message_ids cache =
    let (hold_id, cache') = resolve_label_id fold listing user_id hold_label_name cache in
    (modify message_ids (record { add = hold_ids hold_id; remove = inbox_label ∷ [] }), cache')

unfoldable pub release :
    (List ℕ → List ℕ) → Listing → ℕ → List String → LabelCache → Request × LabelCache
release fold listing user_id message_ids cache =
    let (hold_id, cache') = resolve_label_id fold listing user_id hold_label_name cache in
    (modify message_ids (record { add = inbox_label ∷ []; remove = hold_ids hold_id }), cache')
