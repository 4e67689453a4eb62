-- ===== src/Lib.antt =====
-- InboxPilot: its booking page, billing, meeting bots, recordings, batched mail, categorization,
-- invites, guards, Google grants and mail polling.
--
-- The program is a FastAPI service and Celery jobs over Postgres, Redis, Gmail and Google
-- Calendar. A host's booking page (src/services/scheduling) offers times, takes bookings and moves
-- them; billing (src/services/billing, src/core/plans.py) says who may use what, follows the
-- payment provider's events and starts a mailbox's sync; a sweep
-- (src/workers/jobs/meetings_sweep.py) books bots for the meetings of a calendar, and their
-- recordings (src/services/meetings, src/workers/jobs/retention_sweep.py) are linked to and
-- pruned; Mailman (src/services/mailman, src/workers/jobs/mailman_tick.py) holds mail and releases
-- it in batches; categorization (src/services/categorization, src/services/classify) labels it.
-- Billed features ask billing first, and retention reads its plans; categorization and Mailman
-- share the labels of src/services/mailman/gmail_ops.py; the jobs run under the guards of
-- src/core/idempotency.py and src/core/locks.py. New mail enters through the poller
-- (src/workers/jobs/gmail_poll.py), which walks a mailbox's history from the cursor in the user's
-- grant (src/integrations/google/credentials.py), claims each message and queues its task.
--
-- Files and what they model:
--   Prelude (Tests, Lists, Errors, Time, Text): Boolean tests on numbers, lists, results, time
--     as microseconds since 0001-01-01, text as code points, clock times.
--   Billing.Plans: src/core/plans.py. Billing.Rows: src/models/billing.py and
--     src/services/billing/store.py. Billing.Access, Usage, Entitlements, MailGate, Webhooks:
--     access.py, usage.py, entitlements.py, gate.py and webhooks.py of src/services/billing. The
--     children hold the proofs.
--   Meetings.Rows: src/models/meetings.py. Meetings.Recording:
--     src/services/meetings/recording.py. Meetings.Retention:
--     src/workers/jobs/retention_sweep.py, with discard of src/services/meetings/media.py.
--     Meetings.Bots: rules.py and links.py of src/services/meetings. Meetings.Bots.Store:
--     src/services/meetings/store.py. Meetings.Bots.Sweep, Job:
--     src/workers/jobs/meetings_sweep.py.
--   Scheduling.Slots, Availability, Questions, Booking: the files of those names in
--     src/services/scheduling. Scheduling.Bookings: src/models/scheduling.py and the queries of
--     src/services/scheduling/store.py. Scheduling.Reminders:
--     src/workers/jobs/scheduling_reminders.py.
--   Mailman.Scheduler: src/services/mailman/scheduler.py. Mailman.Tick:
--     src/workers/jobs/mailman_tick.py. Mailman.Filters: src/services/mailman/filters.py.
--   Categorization.Rules, Pipeline: rules.py and pipeline.py of src/services/categorization.
--     Categorization.Classifier: src/services/classify/classifier.py. Categorization.Labels:
--     src/services/mailman/gmail_ops.py.
--   Invites: src/services/auth/invites.py and src/models/invites.py.
--   Guards: src/core/idempotency.py and src/core/locks.py; Guards.Limits: src/core/ratelimit.py.
--     Guards.Memory is a Redis in a function that has the laws.
--   Google.Scopes, Connection: src/models/google.py with the writes and lists of
--     src/integrations/google/credentials.py, whose reads are Google.Snapshots, whose writes with
--     the snapshots they forget are Google.Writes, and whose refresh is Google.Refresh.
--     Google.Oauth: src/integrations/google/oauth.py. Google.Crypto: src/core/crypto.py.
--   Mail.Mime, Mail.Gmail: mime.py and gmail.py of src/integrations/google. Mail.Dispatch,
--     Mail.Poll: src/workers/jobs/gmail_poll.py.
--   The Tests module of each part holds the runs on concrete data.
--
-- State: a table is a list of its rows, and a function that writes returns the table it leaves; a
-- commit is the table that is handed on, and a rollback the one that was there before. Redis is a
-- function from keys to entries, or a section parameter with the laws of its documentation.
-- Exceptions are constructors of a result type, or `none`. An instant or a length of time is a
-- number of microseconds (of seconds in Guards), local times are what the wall clock shows, and a
-- zone is a pair of functions between the two.
--
-- Bounds and fuel: numbers are unbounded, as Python's are; counts, quotas and clock times are not
-- negative. Four loops run on fuel. The walk through a window in Scheduling.Slots gets one unit
-- for each microsecond up to the window's end and two more: with an interval of a minute or more
-- it cannot run out. The list of a query's messages in Mail.Gmail gets one unit for each message
-- of its limit, enough if each page but the last lists one. The key of a question in
-- Scheduling.Questions.Definitions gets one unit for each character of the keys in use and one
-- more, since each turn makes it longer; the digits of a number n get n + 1 units.
--
-- Not modelled: routes, schemas but for the clock times that they store, migrations, clients of
-- outside services, prompts and texts of mails. What the code asks of Google, the payment
-- provider, the meeting bot, the storage, the language model, the zone database, `str.casefold`,
-- `str.lower`, and of the packages `email`, `html`, `base64` and `cryptography`, are arguments.
-- Concurrent requests are sequences of calls.
pub mod Prelude
pub mod Billing
pub mod Meetings
pub mod Scheduling
pub mod Mailman
pub mod Categorization
pub mod Guards
pub mod Invites
pub mod Google
pub mod Mail
