-- ===== src/Mail/Poll.antt =====
-- Polling a mailbox: src/workers/jobs/gmail_poll.py over the rows of
-- src/integrations/google/credentials.py. What `mail_gate_open` says of the user is an argument,
-- and so is whether the pass got its lock. A call of Gmail goes through the credentials of the
-- user, which may be refreshed or marked revoked on the way: what each call does to the user's row
-- is an argument beside its answer. The pass reads the row itself and no snapshot of it.
pub mod Cursor
pub mod Watch
use inbox_pilot.Prelude.{
  ℕ, suc, ◌+◌, ◌-◌, ◌*◌, ltb, leb, ◌==◌, ◌&&◌, ◌||◌, not, String, Bool, true, false, Option, none,
  some, List, [], ◌∷◌, ◌++◌, map, is_digit, is_some, length, strip, nonempty, take, Result, err, ok,
  if◌then◌else◌,
}
use inbox_pilot.Google.Crypto.{Cipher}
use inbox_pilot.Google.Connection.{
  GoogleConnection, RefreshedToken, persist_refreshed, mark_revoked, advance_history_id,
  set_history_id,
}
use inbox_pilot.Google.Snapshots.{ConnectionState, load}
use inbox_pilot.Guards.{Redis}
use inbox_pilot.Mail.Mime.{Text}
use inbox_pilot.Mail.Dispatch.{GmailError, Partial, Message, Readers, Task, Pass, Call, dispatch}
use inbox_pilot.Mail.Gmail.{HistoryPage, History, MessagePage, history_since, list_message_ids}

abbrev pub max_messages_per_poll : ℕ
max_messages_per_poll = 200

abbrev pub max_pages : ℕ
max_pages = 20

-- `int(text)` on the decimal digits that a history id is made of; `none` is the ValueError.
abbrev pub digits_value : ℕ → List ℕ → Option ℕ
digits_value n [] = some n
digits_value n (c ∷ cs) =
    let rest = digits_value (n * 10 + (c - b'0')) cs in if is_digit c then rest else none

abbrev pub digits : List ℕ → Option ℕ
digits [] = none
digits (c ∷ cs) = digits_value 0 (c ∷ cs)

unfoldable pub int_of : Text → Option ℕ
int_of t = digits (strip t)

-- `int(new) > int(previous)`, both of which parse.
abbrev pub later_number : Option ℕ → Option ℕ → Bool
later_number none previous = false
later_number (some new) none = false
later_number (some new) (some previous) = ltb previous new

abbrev pub Rows : Type 0
Rows = List GoogleConnection

-- `_advance`
unfoldable pub advance : String → Text → Text → ℕ → Rows → Rows
advance user previous new now rows =
    let (moved, rows') = advance_history_id user (some previous) new now rows in
    if later_number (int_of new) (int_of previous) then rows' else rows

pub record Profile : Type 0 where
  pub history_id : Option Text
  pub email_address : Option Text

-- What the credentials behind a call of Gmail write to the user's row.
pub data CredentialWrite : Type 0 where
  token_refreshed :
      (token : RefreshedToken) (expiry : ℕ) (scopes : Option (List (List ℕ))) → CredentialWrite
  grant_rejected : (reason : List ℕ) (now : ℕ) → CredentialWrite

abbrev pub written : Cipher → String → List CredentialWrite → Rows → Rows
written cipher user [] rows = rows
written cipher user (token_refreshed token expiry scopes ∷ ws) rows =
    written cipher user ws (persist_refreshed cipher user token expiry scopes rows)
written cipher user (grant_rejected reason now ∷ ws) rows =
    written cipher user ws (mark_revoked user reason now rows)

-- Gmail, as a pass over a mailbox sees it: the pages of its history since a cursor, its profile,
-- the pages of the mail of the last hour, its messages, and the label of held mail; and what is
-- written to the user's row while the history, the profile, the last hour and the messages are
-- asked for.
pub record Mailbox : Type 0 where
  pub history_page : Text → Option Text → Result GmailError HistoryPage
  pub get_profile : Result GmailError Profile
  pub recent_page : Option Text → ℕ → Result GmailError MessagePage
  pub get_message : String → Result GmailError Message
  pub hold_label_id : Option String
  pub redis_up : String → Bool
  pub during_history : List CredentialWrite
  pub during_profile : List CredentialWrite
  pub during_recent : List CredentialWrite
  pub during_messages : List CredentialWrite

pub record World (S : Type 0) : Type 0 where
  pub rows : Rows
  pub store : S
  pub queue : List Task

-- What a poll returns; `raised` is an exception that it lets through, and `unfinished` a list of
-- messages that took more requests than it has messages.
pub data Outcome : Type 0 where
  skipped_gated skipped_locked not_pollable skipped_revoked : Outcome
  failed : GmailError → Outcome
  reset_failed no_history_id raised unfinished : Outcome
  was_reset : ℕ → Outcome
  polled : (seen queued : ℕ) → Outcome

abbrev pub partial_of : String × String → Partial
partial_of (message_id, thread_id) = record {
  id = some message_id;
  thread_id = some thread_id;
  label_ids = [];
}

abbrev pub advanced_to : String → Text → Option Text → ℕ → Rows → Rows
advanced_to user cursor none now rows = rows
advanced_to user cursor (some new) now rows =
    if nonempty new then advance user cursor new now rows else rows

module _ {S : Type 0} (redis : Redis S) (readers : Readers) (user : String) (mailbox : Mailbox)
    (now : ℕ) (cipher : Cipher) where
  abbrev pub call_of : Option Text → Bool → Call
  call_of account_email labels_known = record {
    user = user;
    account_email = account_email;
    hold_label_id = mailbox.hold_label_id;
    labels_known = labels_known;
    get_message = mailbox.get_message;
    up = mailbox.redis_up;
    now = now;
  }

  abbrev pub dispatched : Option Text → Bool → List Partial → World S → Pass S
  dispatched account_email labels_known messages w =
      dispatch redis readers (call_of account_email labels_known) messages w.store

  abbrev pub after_pass : Pass S → Rows → World S → World S
  after_pass p rows w = record { rows = rows; store = p.store; queue = w.queue ++ p.queue }

  -- The rows after some calls of Gmail.
  abbrev pub during : List CredentialWrite → World S → World S
  during ws w = record w { rows = written cipher user ws w.rows }

  -- The mail of the last hour, once the cursor is reset.
  abbrev pub catch_up :
      Option Text
      → World S
      → Option (Result GmailError (List (String × String)))
      → Outcome × World S
  catch_up account_email w none = (unfinished, w)
  catch_up account_email w (some (err GmailError.not_found)) = (was_reset 0, w)
  catch_up account_email w (some (err GmailError.api_error)) = (was_reset 0, w)
  catch_up account_email w (some (err GmailError.grant_revoked)) = (raised, w)
  catch_up account_email w (some (err GmailError.not_connected)) = (raised, w)
  catch_up account_email w (some (ok recent)) =
      let p = dispatched account_email false (map partial_of recent) w in
      (
        if p.raised then raised else was_reset (length p.queue),
        after_pass p (during mailbox.during_messages w).rows w,
      )

  abbrev pub reset_to : Option Text → Option Text → World S → Outcome × World S
  reset_to account_email none w = (no_history_id, w)
  reset_to account_email (some history_id) w =
      if nonempty history_id
      then catch_up account_email
          (during mailbox.during_recent
            (record w { rows = set_history_id user history_id false w.rows }))
          (list_message_ids mailbox.recent_page max_messages_per_poll (some max_messages_per_poll))
      else (no_history_id, w)

  abbrev pub reset_with : Result GmailError Profile → World S → Outcome × World S
  reset_with (err GmailError.not_found) w = (reset_failed, w)
  reset_with (err GmailError.api_error) w = (reset_failed, w)
  reset_with (err GmailError.grant_revoked) w = (raised, w)
  reset_with (err GmailError.not_connected) w = (raised, w)
  reset_with (ok profile) w = reset_to profile.email_address profile.history_id w

  unfoldable pub reset_cursor : World S → Outcome × World S
  reset_cursor w = reset_with mailbox.get_profile (during mailbox.during_profile w)

  -- A pass over the history since the cursor, and then the cursor.
  abbrev pub walked : List ℕ → Text → Result GmailError History → World S → Outcome × World S
  walked email cursor (err GmailError.not_found) w = reset_cursor w
  walked email cursor (err GmailError.grant_revoked) w = (skipped_revoked, w)
  walked email cursor (err GmailError.api_error) w = (failed GmailError.api_error, w)
  walked email cursor (err GmailError.not_connected) w = (failed GmailError.not_connected, w)
  walked email cursor (ok history) w =
      let messages = take max_messages_per_poll history.messages in
      let p = dispatched (some email) true messages w in
      let rows = (during mailbox.during_messages w).rows in
      if p.raised then (raised, after_pass p rows w) else (
        polled (length messages) (length p.queue),
        after_pass p (advanced_to user cursor history.history_id now rows) w,
      )

  abbrev pub polled_from : List ℕ → Option Text → World S → Outcome × World S
  polled_from email none w = (not_pollable, w)
  polled_from email (some cursor) w =
      if nonempty cursor
      then walked email cursor (history_since (mailbox.history_page cursor) max_pages)
          (during mailbox.during_history w)
      else (not_pollable, w)

  abbrev pub polled_state : Option ConnectionState → World S → Outcome × World S
  polled_state none w = (not_pollable, w)
  polled_state (some state) w =
      if state.revoked then (not_pollable, w) else polled_from state.email state.history_id w

  -- `_poll`
  unfoldable pub poll : World S → Outcome × World S
  poll w = polled_state (load cipher w.rows user) w

  unfoldable pub poll_user : Bool → Bool → World S → Outcome × World S
  poll_user gate_open acquired w =
      if gate_open then (if acquired then poll w else (skipped_locked, w)) else (skipped_gated, w)
