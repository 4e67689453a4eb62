-- ===== src/Mail/Tests.antt =====
-- Mail on small mailboxes.
use inbox_pilot.Prelude.{
  ℕ, ◌+◌, ◌≤◌, ◌≡◌, refl, unix_epoch, true, Option, none, some, List, [], ◌∷◌, String, codes, All,
  Result, ok, err, sym, ap, arith,
}
use inbox_pilot.Prelude.Text.{strip}
use inbox_pilot.Google.Connection.{GoogleConnection, RefreshedToken, list_watches_needing_renewal}
use inbox_pilot.Guards.Memory.{Memory, memory, empty}
use inbox_pilot.Mail.Mime.{Text, Header, AddressParser, addressed_to}
use inbox_pilot.Mail.Mime.Addresses.{addressed_to-tagged}
use inbox_pilot.Mail.Mime.Parts.{Fields, Part, Parts, Decoder, visit, nothing, walk}
use inbox_pilot.Mail.Mime.Parts.Bounded.{Alike, AllAlike, IsCapped, walk-Bounded}
use inbox_pilot.Mail.Dispatch.{GmailError, Partial, Message, Readers, Call, dispatch}
use inbox_pilot.Mail.Dispatch.Filtered.{RisesFrom, dispatch-Filtered}
use inbox_pilot.Mail.Dispatch.Once.{count_of, dispatches, dispatched_once}
use inbox_pilot.Mail.Gmail.{MessagePage, HistoryPage, history_since, history_from}
use inbox_pilot.Google.Crypto.{Cipher}
use inbox_pilot.Mail.Poll.{int_of, CredentialWrite, Mailbox, World, poll}
use inbox_pilot.Mail.Poll.Cursor.{CursorsAfter, cursors, IsAhead, IsKnown, poll-Cursor}
use inbox_pilot.Mail.Poll.Watch.{
  PushSettings, Gate, watch_renew_margin, SweepOutcome, renew_watches,
}
use inbox_pilot.Mail.Poll.Watch.Sweep.{renew_watches-Renews}

-- Bare addresses in lower case.
abbrev parser : AddressParser
parser = record { lower = λ s. s; parseaddr = λ s. s; getaddresses = λ l. l }

abbrev plain_text : Decoder
plain_text = record {
  lower = λ s. s;
  urlsafe_b64decode = λ s. some s;
  decode = λ raw charset. some raw;
  decode_replacing = λ raw. raw;
  unescape = λ s. s;
  strip_html = λ s. s;
}

abbrev header_of : String → String → Header
header_of name value = record { name = some (codes name); value = some (codes value) }

abbrev to_alias : List (List ℕ × List ℕ)
to_alias = (codes "to", codes "n+bot@c.in") ∷ []

addressed_to-tagged_example : addressed_to parser to_alias (some (codes "n@c.in")) ≡ true
unfolding strip
addressed_to-tagged_example =
    addressed_to-tagged parser to_alias (codes "n") (codes "bot") (codes "c.in")
      (codes "n+bot@c.in") (codes "n@c.in") refl refl refl refl refl refl refl refl refl

abbrev fields_of : String → Option (List ℕ) → Option (List ℕ) → Fields
fields_of kind name content = record {
  mime_type = some (codes kind);
  filename = name;
  body_data = content;
  headers = [];
}

abbrev two_parts : Part
two_parts = Part.part (fields_of "multipart/mixed" none none) (
    Parts.cons (Part.part (fields_of "text/plain" none (some (codes "hello"))) Parts.nil) (
      Parts.cons (Part.part (fields_of "application/pdf" (some (codes "a.pdf")) none) Parts.nil)
        Parts.nil))

-- The same message, with another attachment of that name.
abbrev other_parts : Part
other_parts = Part.part (fields_of "multipart/mixed" none none) (
    Parts.cons (Part.part (fields_of "text/plain" none (some (codes "hello"))) Parts.nil) (
      Parts.cons
        (Part.part (fields_of "text/plain" (some (codes "a.pdf")) (some (codes "no"))) Parts.nil)
        Parts.nil))

walk-Bounded_example :
    (walk plain_text two_parts ≡ walk plain_text other_parts)
    × IsCapped plain_text (visit plain_text two_parts 0 (nothing plain_text)).plain
    × IsCapped plain_text (visit plain_text two_parts 0 (nothing plain_text)).markup
walk-Bounded_example = walk-Bounded plain_text two_parts other_parts (
    Alike.container 0 _ _ _ (
      AllAlike.both 1 _ _ _ _ (Alike.leaf 1 _ _ _ refl)
        (AllAlike.both 1 _ _ _ _ (Alike.attached 1 _ _ _ _ refl refl) (AllAlike.none_left 1))))

abbrev readers : Readers
readers = record { addresses = parser; decoder = plain_text }

abbrev partial : String → List String → Partial
partial id labels = record { id = some id; thread_id = none; label_ids = labels }

abbrev message : String → List String → Message
message id labels = record {
  id = id;
  thread_id = none;
  label_ids = labels;
  snippet = some (codes "hello");
  header_list = header_of "to" "n@c.in" ∷ [];
  payload = two_parts;
}

abbrev call_at : ℕ → Call
call_at now = record {
  user = "u";
  account_email = some (codes "n@c.in");
  hold_label_id = none;
  labels_known = true;
  get_message = λ id. ok (message id ("INBOX" ∷ []));
  up = λ id. true;
  now = now;
}

abbrev new_mail : List Partial
new_mail = partial "m1" ("INBOX" ∷ []) ∷ partial "m2" ("DRAFT" ∷ []) ∷ []

dispatch-Filtered_example :
    All
      (RisesFrom readers (call_at 1000) new_mail)
      (dispatch memory readers (call_at 1000) new_mail empty).queue
dispatch-Filtered_example = dispatch-Filtered memory readers (call_at 1000) new_mail empty

abbrev message_or : Message → Result GmailError Message → Message
message_or m (err raised) = m
message_or m (ok n) = n

abbrev inbox_message : String → Result GmailError Message
inbox_message id = ok (message id ("INBOX" ∷ []))

same_id : (id : String) (m : Message) → inbox_message id ≡ ok m → m.id ≡ id
same_id id m e = sym (ap (λ r. (message_or m r).id) e)

-- The second pass sees the same mail again.
dispatched_once_example :
    count_of "m1" (
      dispatches memory readers "u" 1000
        ((call_at 1000, new_mail) ∷ (call_at 4000, new_mail) ∷ [])
        empty
        [])
    ≤ 1
dispatched_once_example =
    dispatched_once memory readers "u" 1000
      ((call_at 1000, new_mail) ∷ (call_at 4000, new_mail) ∷ []) empty "m1"
      (
        (refl, omega arith, omega arith, λ id. refl, λ id m e. same_id id m e),
        ((refl, omega arith, omega arith, λ id. refl, λ id m e. same_id id m e), tt),
      )

-- A page of two messages, and a last one of one.
abbrev first_page : MessagePage
first_page = record {
  messages = (some "m1", some "t1") ∷ (some "m2", none) ∷ [];
  next_page_token = some (codes "p2");
}

abbrev last_page : MessagePage
last_page = record { messages = (some "m3", none) ∷ []; next_page_token = none }

abbrev page_at : Option Text → ℕ → Result GmailError MessagePage
page_at none n = ok first_page
page_at (some t) n = ok last_page

abbrev first_history : Option Text → Result GmailError HistoryPage
first_history token = ok (record {
  history_id = some (codes "120");
  history = (partial "m1" ("INBOX" ∷ []) ∷ []) ∷ (partial "m1" ("INBOX" ∷ []) ∷ []) ∷ [];
  next_page_token = none;
})

abbrev row : GoogleConnection
row = record {
  user_id = "u";
  google_sub = codes "1";
  email = codes "n@c.in";
  access_token = none;
  refresh_token = codes "sealed";
  token_expiry = none;
  scopes = codes "openid";
  history_id = some (codes "100");
  last_polled_at = none;
  watch_expires_at = none;
  last_error = none;
  revoked_at = none;
}

-- The access token is refreshed while the history is asked for.
abbrev fresh_token : RefreshedToken
fresh_token = record {
  access_token = codes "new";
  expires_in = 3600;
  refresh_token = none;
  scopes = [];
}

abbrev mailbox : Mailbox
mailbox = record {
  history_page = λ cursor. first_history;
  get_profile = ok (record { history_id = some (codes "120"); email_address = none });
  recent_page = page_at;
  get_message = λ id. ok (message id ("INBOX" ∷ []));
  hold_label_id = none;
  redis_up = λ id. true;
  during_history = CredentialWrite.token_refreshed fresh_token 5000 none ∷ [];
  during_profile = [];
  during_recent = [];
  during_messages = [];
}

abbrev clear : Cipher
clear = record { seal = λ v. v; unseal = λ t. some t; unseal-seal = λ v. refl }

abbrev world : World Memory
world = record { rows = row ∷ []; store = empty; queue = [] }

known : IsKnown memory readers "u" mailbox 1000 clear
unfolding history_since history_from
known cursor e = absurd (ground arith)

poll-Cursor_example :
    CursorsAfter memory readers "u" mailbox 1000 clear world
      (poll memory readers "u" mailbox 1000 clear world)
    × All (IsAhead "u" 100) (cursors (poll memory readers "u" mailbox 1000 clear world).1.rows)
unfolding int_of strip
poll-Cursor_example =
    poll-Cursor memory readers "u" mailbox 1000 clear world "u" 100 known (refl, tt)

abbrev watching : PushSettings
watching = record {
  gmail_poll_enabled = true;
  gmail_push_enabled = true;
  google_pubsub_topic = codes "topic";
}

abbrev gate : Gate
gate = record { lets_through = λ user. true; watch = λ user. ok (some (codes "1800000000000")) }

renew_watches-Renews_example :
    ((renew_watches watching gate unix_epoch (row ∷ [])).0 ≡ SweepOutcome.renewals 1 0)
    × (list_watches_needing_renewal
          (unix_epoch + watch_renew_margin)
          (renew_watches watching gate unix_epoch (row ∷ [])).1
        ≡ [])
unfolding list_watches_needing_renewal int_of strip
renew_watches-Renews_example =
    renew_watches-Renews watching gate unix_epoch (row ∷ []) refl refl
      ((refl, (codes "1800000000000", 1800000000000, refl, refl, refl, omega arith)), tt)
