-- ===== src/Mail/Poll/Watch.antt =====
-- Push watches and the sweeps over all mailboxes: `poll_all`, `renew_watches` and `install_watch`
-- of src/workers/jobs/gmail_poll.py. What Gmail, the mail gate and the lock say is an argument.
pub mod Sweep
use inbox_pilot.Prelude.{
  ℕ, suc, ◌+◌, ◌*◌, ◌/◌, ◌%◌, second, days, unix_epoch, ◌&&◌, ◌||◌, not, String, Bool, true, false,
  Option, none, some, List, [], ◌∷◌, nonempty, length, Result, err, ok, if◌then◌else◌,
}
use inbox_pilot.Google.Connection.{
  GoogleConnection, set_watch_expiry, list_watches_needing_renewal, list_pollable_user_ids,
}
use inbox_pilot.Mail.Mime.{Text}
use inbox_pilot.Mail.Dispatch.{GmailError}
use inbox_pilot.Mail.Poll.{Rows, int_of}

abbrev pub poll_window_seconds : ℕ
poll_window_seconds = 55

abbrev pub watch_renew_margin : ℕ
watch_renew_margin = days 2

pub record PushSettings : Type 0 where
  pub gmail_poll_enabled : Bool
  pub gmail_push_enabled : Bool
  pub google_pubsub_topic : Text

-- The user's mail gate, and Gmail's answer to `watch`: the `expiration`, in milliseconds since
-- 1970, if there is one.
pub record Gate : Type 0 where
  pub lets_through : String → Bool
  pub watch : String → Result GmailError (Option Text)

-- `datetime.fromtimestamp(int(expiration) / 1000)`
abbrev pub expiry_of : Option ℕ → Option ℕ
expiry_of none = none
expiry_of (some ms) = some (unix_epoch + ms * 1000)

abbrev pub installed : String → Option ℕ → Rows → Bool × Rows
installed user none rows = (false, rows)
installed user (some expires_at) rows = (true, set_watch_expiry user (some expires_at) rows)

abbrev pub watched : String → Result GmailError (Option Text) → Rows → Bool × Rows
watched user (err raised) rows = (false, rows)
watched user (ok none) rows = (false, rows)
watched user (ok (some expiration)) rows =
    if nonempty expiration
    then installed user (expiry_of (int_of expiration)) rows
    else (false, rows)

unfoldable pub install_watch : PushSettings → Gate → String → Rows → Bool × Rows
install_watch settings gate user rows =
    if not settings.gmail_push_enabled || not (nonempty settings.google_pubsub_topic)
    then (false, rows)
    else if gate.lets_through user
    then watched user (gate.watch user) rows
    else (false, rows)

-- How many were renewed, and how many failed.
pub record Renewals : Type 0 where
  pub renewed : ℕ
  pub failed : ℕ
  pub rows : Rows

abbrev pub counted : Bool × Rows → Renewals → Renewals
counted (true, rows) r = record { renewed = suc r.renewed; failed = r.failed; rows = rows }
counted (false, rows) r = record { renewed = r.renewed; failed = suc r.failed; rows = rows }

abbrev pub renew_each : PushSettings → Gate → List String → Renewals → Renewals
renew_each settings gate [] r = r
renew_each settings gate (user ∷ users) r =
    renew_each settings gate users (counted (install_watch settings gate user r.rows) r)

-- What the sweeps return.
pub data SweepOutcome : Type 0 where
  disabled no_topic locked : SweepOutcome
  renewals : (renewed failed : ℕ) → SweepOutcome
  users : ℕ → SweepOutcome

abbrev pub renewals_of : Renewals → SweepOutcome × Rows
renewals_of r = (renewals r.renewed r.failed, r.rows)

abbrev pub renew_due : PushSettings → Gate → List String → Rows → SweepOutcome × Rows
renew_due settings gate due rows =
    renewals_of (renew_each settings gate due (record { renewed = 0; failed = 0; rows = rows }))

unfoldable pub renew_watches : PushSettings → Gate → ℕ → Rows → SweepOutcome × Rows
renew_watches settings gate now rows =
    if not settings.gmail_push_enabled
    then (disabled, rows)
    else if not (nonempty settings.google_pubsub_topic)
    then (no_topic, rows)
    else renew_due settings gate (list_watches_needing_renewal (now + watch_renew_margin) rows) rows

-- The polls that are queued: whose, and in how many seconds.
abbrev pub spread_over : ℕ → List String → List (String × ℕ)
spread_over index [] = []
spread_over index (user ∷ more) = (user, index % poll_window_seconds) ∷ spread_over (suc index) more

abbrev pub fan_out : List String → SweepOutcome × List (String × ℕ)
fan_out user_ids = (users (length user_ids), spread_over 0 user_ids)

unfoldable pub poll_all : PushSettings → Bool → Rows → SweepOutcome × List (String × ℕ)
poll_all settings acquired rows =
    if not settings.gmail_poll_enabled
    then (disabled, [])
    else if acquired
    then fan_out (list_pollable_user_ids rows)
    else (locked, [])
