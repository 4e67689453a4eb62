-- ===== src/Google.antt =====
-- The user's Google grant, which src/integrations/google/credentials.py keeps: what a grant
-- covers, how its tokens are encrypted, the row that holds them, and the mailbox's cursor. Texts
-- are lists of code points.
pub mod Scopes
pub mod Crypto
pub mod Connection
pub mod Snapshots
pub mod Writes
pub mod Oauth
pub mod Refresh
mod Tests
