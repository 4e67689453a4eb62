-- ===== src/Mail/Gmail.antt =====
-- The walks over Gmail's pages, and the changes in batches: src/integrations/google/gmail.py. What
-- Gmail answers to a page's token is an argument.
pub mod Walks
pub mod Listing
use inbox_pilot.Prelude.{
  ℕ, zero, suc, ◌-◌, ltb, leb, ◌&&◌, not, String, str_eq, contains, Bool, true, false, Option, none,
  some, List, [], ◌∷◌, ◌++◌, length, take, nonempty, Result, err, ok, ◌>>=◌, if◌then◌else◌,
}
use inbox_pilot.Mail.Mime.{Text}
use inbox_pilot.Mail.Dispatch.{GmailError, Partial}

pub record HistoryPage : Type 0 where
  pub history_id : Option Text
  -- The messages that each record added.
  pub history : List (List Partial)
  pub next_page_token : Option Text

pub record History : Type 0 where
  pub messages : List Partial
  pub history_id : Option Text

-- A token that is there and not empty.
abbrev pub next_token : Option Text → Option Text
next_token none = none
next_token (some t) = if nonempty t then some t else none

abbrev pub latest_of : Option Text → Option Text → Option Text
latest_of page latest = or_latest (next_token page) latest
  where
    or_latest : Option Text → Option Text → Option Text
    or_latest none latest = latest
    or_latest (some t) latest = some t

-- What the walk keeps: the ids it has seen, and the messages.
abbrev pub Walk : Type 0
Walk = List String × List Partial

abbrev pub see_id : Option String → Partial → Walk → Walk
see_id none m walk = walk
see_id (some id) m (seen, messages) =
    if not (str_eq id "") && not (contains id seen)
    then (id ∷ seen, messages ++ (m ∷ []))
    else (seen, messages)

abbrev pub see_all : List Partial → Walk → Walk
see_all [] walk = walk
see_all (m ∷ ms) walk = see_all ms (see_id m.id m walk)

abbrev pub see_records : List (List Partial) → Walk → Walk
see_records [] walk = walk
see_records (r ∷ rs) walk = see_records rs (see_all r walk)

-- A walk that ends at a page without a next one, or goes on.
abbrev pub history_then :
    Option Text
    → Option Text
    → Walk
    → (Text → Result GmailError History)
    → Result GmailError History
history_then none latest walk rest = ok (record { messages = walk.1; history_id = latest })
history_then (some token) latest walk rest = rest token

module _ (page_at : Option Text → Result GmailError HistoryPage) where
  unfoldable pub history_from : ℕ → Option Text → Option Text → Walk → Result GmailError History
  history_from zero token latest walk = ok (record { messages = walk.1; history_id = latest })
  history_from (suc pages) token latest walk = page_at token >>= λ page.
      let latest' = latest_of page.history_id latest in
      let walk' = see_records page.history walk in
      history_then (next_token page.next_page_token) latest' walk'
        (λ t. history_from pages (some t) latest' walk')

  unfoldable pub history_since : ℕ → Result GmailError History
  history_since max_pages = history_from max_pages none none ([], [])

pub record MessagePage : Type 0 where
  -- The ids and the threads of the messages.
  pub messages : List (Option String × Option String)
  pub next_page_token : Option Text

abbrev pub string_or_empty : Option String → String
string_or_empty none = ""
string_or_empty (some s) = s

abbrev pub listed_id : Option String → String → List (String × String) → List (String × String)
listed_id none thread rest = rest
listed_id (some id) thread rest = if str_eq id "" then rest else (id, thread) ∷ rest

abbrev pub listed : List (Option String × Option String) → List (String × String)
listed [] = []
listed ((id, thread) ∷ ms) = listed_id id (string_or_empty thread) (listed ms)

-- What a page adds, and what comes next.
abbrev pub list_then :
    ℕ
    → List (String × String)
    → Option Text
    → (Text → List (String × String) → Option (Result GmailError (List (String × String))))
    → Option (Result GmailError (List (String × String)))
list_then limit out none rest = some (ok (take limit out))
list_then limit out (some token) rest = rest token out

abbrev pub list_page :
    ℕ
    → List (String × String)
    → Result GmailError MessagePage
    → (Text → List (String × String) → Option (Result GmailError (List (String × String))))
    → Option (Result GmailError (List (String × String)))
list_page limit out (err raised) rest = some (err raised)
list_page limit out (ok page) rest =
    list_then limit (out ++ listed page.messages) (next_token page.next_page_token) rest

-- A page is asked for by its token and `maxResults`.
module _ (page_at : Option Text → ℕ → Result GmailError MessagePage) where
  abbrev pub page_size : ℕ → ℕ
  page_size room = if ltb room 500 then room else 500

  -- The loop, on fuel: the requests that it may make; `none` is a loop that goes on.
  pub list_from :
      ℕ
      → ℕ
      → Option Text
      → List (String × String)
      → Option (Result GmailError (List (String × String)))
  list_from zero limit token out =
      if ltb (length out) limit then none else some (ok (take limit out))
  list_from (suc fuel) limit token out =
      if ltb (length out) limit
      then list_page limit out (page_at token (page_size (limit - length out)))
          (λ t more. list_from fuel limit (some t) more)
      else some (ok (take limit out))

  unfoldable pub list_message_ids :
      ℕ → Option ℕ → Option (Result GmailError (List (String × String)))
  list_message_ids fuel none = list_from fuel 10000 none []
  list_message_ids fuel (some limit) = list_from fuel limit none []

-- `ids[start : start + 1000]` for each start
abbrev pub drop {ℓ} : {A : Type ℓ} → ℕ → List A → List A
drop zero xs = xs
drop (suc n) [] = []
drop (suc n) (x ∷ xs) = drop n xs

abbrev pub chunks_from : ℕ → ℕ → List String → List (List String)
chunks_from zero size ids = []
chunks_from (suc n) size [] = []
chunks_from (suc n) size (id ∷ ids) =
    take size (id ∷ ids) ∷ chunks_from n size (drop size (id ∷ ids))

-- The requests of `batch_modify`, each with at most 1000 ids; there are no more of them than ids.
unfoldable pub batch_modify : List String → List (List String)
batch_modify message_ids = chunks_from (length message_ids) 1000 message_ids
