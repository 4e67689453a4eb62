-- ===== src/Mail.antt =====
-- Mail as Gmail gives it, and how new mail is found: src/integrations/google/mime.py,
-- src/integrations/google/gmail.py and src/workers/jobs/gmail_poll.py. Texts are lists of code
-- points; ids are strings.
pub mod Mime
pub mod Dispatch
pub mod Gmail
pub mod Poll
mod Tests
