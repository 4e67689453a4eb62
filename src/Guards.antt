-- ===== src/Guards.antt =====
-- The Redis guards of src/core/idempotency.py, src/core/locks.py and, in Limits,
-- src/core/ratelimit.py. Redis is a section parameter: its commands, and as laws what its
-- documentation says of them. Instants and lengths are in seconds.
pub mod Window
pub mod Replies
pub mod Limits
pub mod Claims
pub mod Memory
mod Tests
use inbox_pilot.Prelude.{
  ℕ, suc, ◌+◌, ◌*◌, ◌==◌, leb, ltb, ◌≡◌, String, Bool, true, false, not, Option, none, some, List,
  [], ◌∷◌, ◌++◌, is_some, codes, text_eq, if◌then◌else◌,
}

-- What a key holds: a number, and when it expires, if it does.
abbrev pub Entry : Type 0
Entry = Option (ℕ × Option ℕ)

-- An entry as it is seen at an instant.
abbrev pub seen : ℕ → Entry → Entry
seen now none = none
seen now (some (n, none)) = some (n, none)
seen now (some (n, some until)) = if leb until now then none else some (n, some until)

abbrev pub count : Entry → ℕ
count none = 0
count (some (n, until)) = n

abbrev pub until : Entry → Option ℕ
until none = none
until (some (n, at)) = at

abbrev pub expiring : Entry → ℕ → Entry
expiring none at = none
expiring (some (n, before)) at = some (n, some at)

pub record Redis (S : Type 0) : Type 0 where
  pub entry : S → List ℕ → Entry
  -- `SET key 1 NX EX ttl`, `SET key 1 EX ttl`, `INCR key`, `EXPIRE key ttl` and `DEL key`.
  pub set_nx : List ℕ → ℕ → ℕ → S → Bool × S
  pub set : List ℕ → ℕ → ℕ → S → S
  pub incr : List ℕ → ℕ → S → ℕ × S
  pub expire : List ℕ → ℕ → ℕ → S → S
  pub delete : List ℕ → S → S
  pub set_nx-answer :
      (k : List ℕ) (ttl now : ℕ) (s : S)
      → (set_nx k ttl now s).0 ≡ not (is_some (seen now (entry s k)))
  pub set_nx-entry :
      (k : List ℕ) (ttl now : ℕ) (s : S)
      → entry (set_nx k ttl now s).1 k
        ≡ (if is_some (seen now (entry s k)) then entry s k else some (1, some (now + ttl)))
  pub set_nx-other :
      (k k' : List ℕ) (ttl now : ℕ) (s : S)
      → text_eq k' k ≡ false
      → entry (set_nx k ttl now s).1 k' ≡ entry s k'
  pub set-entry :
      (k : List ℕ) (ttl now : ℕ) (s : S) → entry (set k ttl now s) k ≡ some (1, some (now + ttl))
  pub incr-answer :
      (k : List ℕ) (now : ℕ) (s : S) → (incr k now s).0 ≡ suc (count (seen now (entry s k)))
  pub incr-entry :
      (k : List ℕ) (now : ℕ) (s : S)
      → entry (incr k now s).1 k
        ≡ some (suc (count (seen now (entry s k))), until (seen now (entry s k)))
  pub expire-entry :
      (k : List ℕ) (ttl now : ℕ) (s : S)
      → entry (expire k ttl now s) k ≡ expiring (seen now (entry s k)) (now + ttl)
  pub delete-entry : (k : List ℕ) (s : S) → entry (delete k s) k ≡ none

abbrev pub event_ttl : ℕ
event_ttl = 24 * 60 * 60

abbrev pub ours_ttl : ℕ
ours_ttl = 60 * 60

abbrev pub reply_window : ℕ
reply_window = 60 * 60

abbrev pub max_replies_per_thread : ℕ
max_replies_per_thread = 5

abbrev pub event_key : String → String → List ℕ
event_key user_id message_id = codes "evt:" ++ (codes user_id ++ (codes ":" ++ codes message_id))

abbrev pub ours_key : String → List ℕ
ours_key message_id = codes "ours:" ++ codes message_id

abbrev pub reply_key : String → List ℕ
reply_key thread_id = codes "reply:" ++ codes thread_id

abbrev pub lock_key : String → List ℕ
lock_key name = codes "lock:" ++ codes name

module _ {S : Type 0} (redis : Redis S) where
  -- `claim_event`, and `claim_event_sync`, which is the same for other callers.
  unfoldable pub claim_event : String → String → ℕ → S → Bool × S
  claim_event user_id message_id now s = redis.set_nx (event_key user_id message_id) event_ttl now s

  unfoldable pub is_ours : String → ℕ → S → Bool
  is_ours message_id now s = is_some (seen now (redis.entry s (ours_key message_id)))

  unfoldable pub remember_ours : String → ℕ → S → S
  remember_ours message_id now s = redis.set (ours_key message_id) ours_ttl now s

  unfoldable pub allow_reply : String → ℕ → S → Bool × S
  allow_reply thread_id now s =
      let key = reply_key thread_id in
      let (n, s') = redis.incr key now s in
      (leb n max_replies_per_thread, if n == 1 then redis.expire key reply_window now s' else s')

  -- `single_run`: what it yields, and the release behind the block if it yielded True.
  unfoldable pub single_run : String → ℕ → ℕ → S → Bool × S
  single_run name ttl now s = redis.set_nx (lock_key name) ttl now s

  unfoldable pub release_run : String → S → S
  release_run name s = redis.delete (lock_key name) s
