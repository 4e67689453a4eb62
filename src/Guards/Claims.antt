-- ===== src/Guards/Claims.antt =====
-- Events that are claimed, and runs that hold their lock: src/core/idempotency.py and
-- src/core/locks.py.
use inbox_pilot.Prelude.{
  ℕ, ◌+◌, ◌<◌, leb, ◌≡◌, refl, ◌∙◌, String, true, false, some, List, is_some, arith,
}
use inbox_pilot.Guards.{
  seen, Redis, claim_event, event_key, event_ttl, single_run, release_run, lock_key,
}

module _ {S : Type 0} (redis : Redis S) where
  -- A key that is set for a while answers no until it expires.
  taken :
      (k : List ℕ) (ttl ttl' now later : ℕ) (s : S)
      → (redis.set_nx k ttl now s).0 ≡ true
      → later < now + ttl
      → (redis.set_nx k ttl' later (redis.set_nx k ttl now s).1).0 ≡ false
  taken k ttl ttl' now later s got soon =
      let free : is_some (seen now (redis.entry s k)) ≡ false =
        ground (arith, redis.set_nx-answer k ttl now s) in
      let holds : redis.entry (redis.set_nx k ttl now s).1 k ≡ some (1, some (now + ttl)) =
        redis.set_nx-entry k ttl now s ∙ rw free refl in
      let fresh : leb (now + ttl) later ≡ false = ground arith in
      redis.set_nx-answer k ttl' later (redis.set_nx k ttl now s).1 ∙ rw (holds, fresh) refl

  -- An event that was claimed is claimed by nobody else for a day.
  pub claim_event_once :
      (user_id message_id : String) (now later : ℕ) (s : S)
      → (claim_event redis user_id message_id now s).0 ≡ true
      → later < now + event_ttl
      → (claim_event redis user_id message_id later
          (claim_event redis user_id message_id now s).1).0
        ≡ false
  unfolding claim_event
  claim_event_once user_id message_id now later s got soon =
      taken (event_key user_id message_id) event_ttl event_ttl now later s got soon

  -- While a run holds its lock, and the lock has not expired, no other run of that name begins,
  -- whatever lifetime it asks for; once the lock is released, the next one does.
  single_run_lem :
      (name : String) (ttl ttl' now later : ℕ) (s : S)
      → (single_run redis name ttl now s).0 ≡ true
      → later < now + ttl
      → ((single_run redis name ttl' later (single_run redis name ttl now s).1).0 ≡ false)
        × ((single_run redis name ttl' later
              (release_run redis name (single_run redis name ttl now s).1)).0
            ≡ true)
  unfolding single_run release_run
  single_run_lem name ttl ttl' now later s got soon = (
    taken (lock_key name) ttl ttl' now later s got soon,
    redis.set_nx-answer (lock_key name) ttl' later
          (redis.delete (lock_key name) (redis.set_nx (lock_key name) ttl now s).1)
        ∙ rw (redis.delete-entry (lock_key name) (redis.set_nx (lock_key name) ttl now s).1) refl,
  )
