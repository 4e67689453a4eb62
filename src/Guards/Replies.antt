-- ===== src/Guards/Replies.antt =====
-- The circuit breaker on replies: src/core/idempotency.py.
use inbox_pilot.Prelude.{ℕ, ◌+◌, ◌<◌, ◌≡◌, refl, ap, subst, String, Bool, none, List, [], ◌∷◌, All}
use inbox_pilot.Guards.{seen, Redis, allow_reply, reply_key, reply_window, max_replies_per_thread}
use inbox_pilot.Guards.Window.{FirstOnly, hits, hits-FirstOnly}

module _ {S : Type 0} (redis : Redis S) where
  -- The answers of calls at some instants, one after the other.
  abbrev pub answers : String → List ℕ → S → List Bool
  answers thread_id [] s = []
  answers thread_id (now ∷ later) s =
      let (allowed, s') = allow_reply redis thread_id now s in allowed ∷ answers thread_id later s'

  answers-hits :
      (thread_id : String) (instants : List ℕ) (s : S)
      → hits redis (reply_key thread_id) max_replies_per_thread reply_window instants s
        ≡ answers thread_id instants s
  unfolding allow_reply
  answers-hits thread_id [] s = refl
  answers-hits thread_id (now ∷ later) s =
      ap (λ bs. (allow_reply redis thread_id now s).0 ∷ bs) (answers-hits thread_id later _)

  -- Of the calls for one thread within an hour of the call that opens the window, that one
  -- included, exactly the first five are allowed, however many there are.
  pub allow_reply_cap :
      (thread_id : String) (first : ℕ) (later : List ℕ) (s : S)
      → seen first (redis.entry s (reply_key thread_id)) ≡ none
      → All (λ t. t < first + reply_window) later
      → FirstOnly max_replies_per_thread (answers thread_id (first ∷ later) s)
  allow_reply_cap thread_id first later s fresh soon =
      subst (FirstOnly max_replies_per_thread) (answers-hits thread_id (first ∷ later) s) (
        hits-FirstOnly redis (reply_key thread_id) max_replies_per_thread reply_window first later s
          fresh soon)
