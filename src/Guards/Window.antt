-- ===== src/Guards/Window.antt =====
-- Counting in a window: `INCR`, with an `EXPIRE` behind the first, as src/core/idempotency.py and
-- src/core/ratelimit.py have it.
use inbox_pilot.Prelude.{
  ℕ, suc, ◌+◌, ◌-◌, subst, ◌≤◌, ◌<◌, ◌==◌, leb, ltb, ◌≡◌, refl, ◌∙◌, Bool, false, none, some, List,
  [], ◌∷◌, All, if◌then◌else◌, arith,
}
use inbox_pilot.Guards.{seen, Redis}

-- The first n of some answers are yes, and the others no.
abbrev pub FirstOnly : ℕ → List Bool → Type 0
FirstOnly n [] = Unit
FirstOnly n (b ∷ bs) = (b ≡ ltb 0 n) × FirstOnly (n - 1) bs

module _ {S : Type 0} (redis : Redis S) (key : List ℕ) (limit window : ℕ) where
  -- One call: whether the limit is kept, and what Redis holds after it.
  abbrev pub hit : ℕ → S → Bool × S
  hit now s =
      let (n, s') = redis.incr key now s in
      (leb n limit, if n == 1 then redis.expire key window now s' else s')

  -- The answers of calls at some instants, one after the other.
  abbrev pub hits : List ℕ → S → List Bool
  hits [] s = []
  hits (now ∷ later) s = let (allowed, s') = hit now s in allowed ∷ hits later s'

  again :
      (now : ℕ) (s : S) (n end : ℕ)
      → 1 ≤ n
      → redis.entry s key ≡ some (n, some end)
      → now < end
      → ((hit now s).0 ≡ leb (suc n) limit)
        × (redis.entry (hit now s).1 key ≡ some (suc n, some end))
  again now s n end pos e soon =
      let fresh : leb end now ≡ false = ground arith in
      let here : seen now (redis.entry s key) ≡ some (n, some end) = rw (e, fresh) refl in
      let answer : (redis.incr key now s).0 ≡ suc n = redis.incr-answer key now s ∙ rw here refl in
      let left : redis.entry (redis.incr key now s).1 key ≡ some (suc n, some end) =
        redis.incr-entry key now s ∙ rw here refl in
      let more : ((redis.incr key now s).0 == 1) ≡ false = rw answer (ground arith) in
      (rw answer refl, rw more left)

  opening :
      (now : ℕ) (s : S)
      → seen now (redis.entry s key) ≡ none
      → ((hit now s).0 ≡ leb 1 limit)
        × (redis.entry (hit now s).1 key ≡ some (1, some (now + window)))
  opening now s e =
      let answer : (redis.incr key now s).0 ≡ 1 = redis.incr-answer key now s ∙ rw e refl in
      let left : redis.entry (redis.incr key now s).1 key ≡ some (1, none) =
        redis.incr-entry key now s ∙ rw e refl in
      (
        rw answer refl,
        rw answer (redis.expire-entry key window now (redis.incr key now s).1 ∙ rw left refl),
      )

  counted :
      (later : List ℕ) (s : S) (n end : ℕ)
      → 1 ≤ n
      → redis.entry s key ≡ some (n, some end)
      → All (λ t. t < end) later
      → FirstOnly (limit - n) (hits later s)
  counted [] s n end pos e h = tt
  counted (now ∷ later) s n end pos e (soon, rest) =
      let (answer, left) = again now s n end pos e soon in
      let fewer : limit - suc n ≡ limit - n - 1 = omega arith in
      (
        answer ∙ ground arith,
        subst (λ k. FirstOnly k (hits later (hit now s).1)) fewer
            (counted later _ (suc n) end (omega arith) left rest),
      )

  -- Of the calls within a window of the call that opens it, that one included, exactly as many as
  -- the limit are allowed, and those are the first.
  pub hits-FirstOnly :
      (first : ℕ) (later : List ℕ) (s : S)
      → seen first (redis.entry s key) ≡ none
      → All (λ t. t < first + window) later
      → FirstOnly limit (hits (first ∷ later) s)
  hits-FirstOnly first later s fresh soon =
      let (answer, left) = opening first s fresh in
      (answer ∙ ground arith, counted later _ 1 (first + window) (omega arith) left soon)

  -- A counter without an expiry never goes back.
  pub endless :
      (now : ℕ) (s : S) (n : ℕ)
      → 1 ≤ n
      → redis.entry s key ≡ some (n, none)
      → ((hit now s).0 ≡ leb (suc n) limit) × (redis.entry (hit now s).1 key ≡ some (suc n, none))
  endless now s n pos e =
      let answer : (redis.incr key now s).0 ≡ suc n = redis.incr-answer key now s ∙ rw e refl in
      let left : redis.entry (redis.incr key now s).1 key ≡ some (suc n, none) =
        redis.incr-entry key now s ∙ rw e refl in
      let more : ((redis.incr key now s).0 == 1) ≡ false = rw answer (ground arith) in
      (rw answer refl, rw more left)

  pub endless-hits :
      (later : List ℕ) (s : S) (n : ℕ)
      → 1 ≤ n
      → redis.entry s key ≡ some (n, none)
      → FirstOnly (limit - n) (hits later s)
  endless-hits [] s n pos e = tt
  endless-hits (now ∷ later) s n pos e =
      let (answer, left) = endless now s n pos e in
      let fewer : limit - suc n ≡ limit - n - 1 = omega arith in
      (
        answer ∙ ground arith,
        subst (λ k. FirstOnly k (hits later (hit now s).1)) fewer
            (endless-hits later _ (suc n) (omega arith) left),
      )
