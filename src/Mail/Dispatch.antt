-- ===== src/Mail/Dispatch.antt =====
-- The hand-over of new messages to the tasks that own them: `_dispatch` of
-- src/workers/jobs/gmail_poll.py and what stands behind it. Gmail is a record of its answers.
-- Redis answers for a message, or does not (`up`).
pub mod Claims
pub mod Once
pub mod Filtered
use inbox_pilot.Prelude.{
  ℕ, ◌≡◌, ◌+◌, ◌&&◌, ◌||◌, not, String, str_eq, Bool, true, false, Option, none, some, List, [],
  ◌∷◌, ◌++◌, codes, strip, nonempty, take, contains, Result, err, ok, if◌then◌else◌,
}
use inbox_pilot.Guards.{Redis, claim_event, is_ours}
use inbox_pilot.Mail.Mime.{
  Text, Header, headers, get, AddressParser, addressed_to, recipient_addresses,
}
use inbox_pilot.Mail.Mime.Parts.{Part, Decoder, body_text, snippet_of}

abbrev pub sent_label : String
sent_label = "SENT"

abbrev pub inbox_label : String
inbox_label = "INBOX"

abbrev pub draft_label : String
draft_label = "DRAFT"

abbrev pub trash_label : String
trash_label = "TRASH"

abbrev pub snippet_chars : ℕ
snippet_chars = 200

-- What a call of Gmail raises: GoogleNotFound, another GoogleAPIError, GrantRevoked, NotConnected.
pub data GmailError : Type 0 where
  not_found api_error grant_revoked not_connected : GmailError

-- What the history and the lists say of a message, and the message itself.
pub record Partial : Type 0 where
  pub id : Option String
  pub thread_id : Option String
  pub label_ids : List String

pub record Message : Type 0 where
  pub id : String
  pub thread_id : Option String
  pub label_ids : List String
  pub snippet : Option Text
  pub header_list : List Header
  pub payload : Part

pub record Readers : Type 0 where
  pub addresses : AddressParser
  pub decoder : Decoder

-- What is queued.
pub data Task : Type 0 where
  handle_command_email :
      (user message_id : String) (subject : Option Text) (body : Text) (thread_id : Option String)
      (label_ids : List String) (recipients : List Text)
      → Task
  classify_new_email :
      (user message_id : String) (sender subject snippet : Option Text) (thread_id : Option String)
      → Task

abbrev pub held : Option String → List String → Bool
held none label_ids = false
held (some hold) label_ids = not (str_eq hold "") && contains hold label_ids

unfoldable pub is_interesting : List String → Option String → Bool
is_interesting label_ids hold =
    if contains draft_label label_ids || contains trash_label label_ids
    then false
    else if contains inbox_label label_ids || contains sent_label label_ids
    then true
    else held hold label_ids

abbrev some_text : Text → Option Text
some_text t = if nonempty t then some t else none

-- What the guards say: the message is skipped, Redis is down, or the event is claimed.
pub data Guarded : Type 0 where
  skipped down claimed : Guarded

abbrev pub is_claimed : Bool → Guarded
is_claimed true = claimed
is_claimed false = skipped

module _ (readers : Readers) where
  abbrev pub snippet_text : Text → Text → Text
  snippet_text preview body = if nonempty preview then preview else body

  -- `_snippet`
  unfoldable pub snippet : Message → Option Text
  snippet message =
      let preview = snippet_of readers.decoder message.snippet [] in
      let (body, names) = body_text readers.decoder message.payload in
      some_text (take snippet_chars (strip (snippet_text preview body)))

  -- `_enqueue`: the task, if there is one.
  unfoldable pub enqueue : String → Message → Option Text → Option Task
  enqueue user message account_email =
      let header_map = headers readers.addresses.lower message.header_list in
      let (text, names) = body_text readers.decoder message.payload in
      if contains sent_label message.label_ids
      then (if addressed_to readers.addresses header_map account_email
          then some (
              handle_command_email user message.id (get (codes "subject") header_map) text
                message.thread_id message.label_ids
                (recipient_addresses readers.addresses header_map))
          else none)
      else some (
          classify_new_email user message.id (get (codes "from") header_map)
            (get (codes "subject") header_map) (snippet message) message.thread_id)

-- What a pass has done so far: the state of Redis, the tasks it queued, and whether an exception
-- ended it.
pub record Pass (S : Type 0) : Type 0 where
  pub store : S
  pub queue : List Task
  pub raised : Bool

module _ {S : Type 0} (redis : Redis S) where
  -- `_guard`
  unfoldable pub guard : String → String → Bool → ℕ → S → Guarded × S
  guard user message_id up now s =
      let (got, s') = claim_event redis user message_id now s in
      if up
      then (if is_ours redis message_id now s then (skipped, s) else (is_claimed got, s'))
      else (down, s)

-- How a dispatch is called.
pub record Call : Type 0 where
  pub user : String
  pub account_email : Option Text
  pub hold_label_id : Option String
  pub labels_known : Bool
  pub get_message : String → Result GmailError Message
  pub up : String → Bool
  pub now : ℕ

module _ {S : Type 0} (redis : Redis S) (readers : Readers) (call : Call) where
  abbrev pub queueing : Option Task → Pass S → Pass S
  queueing none p = p
  queueing (some t) p = record p { queue = p.queue ++ (t ∷ []) }

  -- A message that was claimed, once Gmail has answered.
  abbrev pub handed : Result GmailError Message → Pass S → Pass S
  handed (err not_found) p = p
  handed (err api_error) p = p
  handed (err grant_revoked) p = record p { raised = true }
  handed (err not_connected) p = record p { raised = true }
  handed (ok message) p =
      if not call.labels_known && not (is_interesting message.label_ids call.hold_label_id)
      then p
      else queueing (enqueue readers call.user message call.account_email) p

  abbrev pub after_guard : Guarded → Bool → String → Pass S → Pass S
  after_guard skipped is_command message_id p = p
  after_guard down is_command message_id p =
      if is_command then p else handed (call.get_message message_id) p
  after_guard claimed is_command message_id p = handed (call.get_message message_id) p

  abbrev pub guarded_one : List String → String → Pass S → Pass S
  guarded_one label_ids message_id p =
      let (verdict, s) = guard redis call.user message_id (call.up message_id) call.now p.store in
      after_guard verdict (contains sent_label label_ids) message_id (record p { store = s })

  abbrev pub dispatch_id : Option String → List String → Pass S → Pass S
  dispatch_id none label_ids p = p
  dispatch_id (some message_id) label_ids p =
      if str_eq message_id ""
        || (call.labels_known && not (is_interesting label_ids call.hold_label_id))
      then p
      else guarded_one label_ids message_id p

  abbrev pub dispatch_one : Partial → Pass S → Pass S
  dispatch_one partial p = if p.raised then p else dispatch_id partial.id partial.label_ids p

  abbrev pub dispatch_from : List Partial → Pass S → Pass S
  dispatch_from [] p = p
  dispatch_from (m ∷ ms) p = dispatch_from ms (dispatch_one m p)

  unfoldable pub dispatch : List Partial → S → Pass S
  dispatch messages s = dispatch_from messages (record { store = s; queue = []; raised = false })
