-- ===== src/Guards/Limits.antt =====
-- The rate limit of the public pages: src/core/ratelimit.py. Whether Redis answers `INCR`,
-- `EXPIRE` and `GET` is an argument of each call.
use inbox_pilot.Prelude.{
  ℕ, ◌+◌, ◌-◌, ◌<◌, ◌==◌, leb, ◌≡◌, refl, ap, subst, ◌∙◌, String, Bool, true, false, not, none,
  some, List, [], ◌∷◌, ◌++◌, codes, All, if◌then◌else◌, arith,
}
use inbox_pilot.Guards.{seen, count, Redis}
use inbox_pilot.Guards.Window.{FirstOnly, hit, hits, hits-FirstOnly, endless-hits}

abbrev pub bucket_key : String → List ℕ
bucket_key key = codes "ratelimit:" ++ codes key

abbrev pair : {S : Type 0} → Bool → S → Bool × S
pair b s = (b, s)

if-pair :
    {S : Type 0} (b answer : Bool) (x y : S)
    → (if b then pair answer x else pair answer y) ≡ pair answer (if b then x else y)
if-pair true answer x y = refl
if-pair false answer x y = refl

module _ {S : Type 0} (redis : Redis S) (key : String) (limit : ℕ) where
  unfoldable pub remaining : Bool → ℕ → S → ℕ
  remaining get_up now s =
      if get_up then limit - count (seen now (redis.entry s (bucket_key key))) else limit

  module _ (window_seconds : ℕ) where
    -- `allow`: open where Redis does not answer.
    unfoldable pub allow : Bool → Bool → ℕ → S → Bool × S
    allow incr_up expire_up now s =
        let (used, s') = redis.incr (bucket_key key) now s in
        if not incr_up
        then (true, s)
        else if used == 1
        then (if expire_up
            then (leb used limit, redis.expire (bucket_key key) window_seconds now s')
            else (true, s'))
        else (leb used limit, s')

    -- The answers of calls at some instants, with Redis up.
    abbrev pub allowed_at : List ℕ → S → List Bool
    allowed_at [] s = []
    allowed_at (now ∷ later) s =
        let (allowed, s') = allow true true now s in allowed ∷ allowed_at later s'

    up-hit :
        (now : ℕ) (s : S)
        → allow true true now s ≡ hit redis (bucket_key key) limit window_seconds now s
    unfolding allow
    up-hit now s =
        let (used, s') = redis.incr (bucket_key key) now s in
        if-pair (used == 1) (leb used limit) (redis.expire (bucket_key key) window_seconds now s')
          s'

    allowed_at-hits :
        (instants : List ℕ) (s : S)
        → hits redis (bucket_key key) limit window_seconds instants s ≡ allowed_at instants s
    allowed_at-hits [] s = refl
    allowed_at-hits (now ∷ later) s = rw (up-hit now s) (
        ap (λ bs. (hit redis (bucket_key key) limit window_seconds now s).0 ∷ bs)
          (allowed_at-hits later _))

    -- While Redis is up, of the calls within a window of the call that opens it, that one
    -- included, the first ones are allowed, up to the limit, and all others refused.
    pub allow-FirstOnly :
        (first : ℕ) (later : List ℕ) (s : S)
        → seen first (redis.entry s (bucket_key key)) ≡ none
        → All (λ t. t < first + window_seconds) later
        → FirstOnly limit (allowed_at (first ∷ later) s)
    allow-FirstOnly first later s fresh soon =
        subst (FirstOnly limit) (allowed_at-hits (first ∷ later) s)
          (hits-FirstOnly redis (bucket_key key) limit window_seconds first later s fresh soon)

    -- If Redis takes the INCR that opens a window and not the EXPIRE behind it, and answers from
    -- then on, the window never ends: of all later calls, at whatever time, the first limit - 1
    -- are allowed and no other.
    pub allow_stuck :
        (first : ℕ) (later : List ℕ) (s : S)
        → seen first (redis.entry s (bucket_key key)) ≡ none
        → FirstOnly (limit - 1) (allowed_at later (allow true false first s).1)
    unfolding allow
    allow_stuck first later s fresh =
        let used : (redis.incr (bucket_key key) first s).0 ≡ 1 =
          redis.incr-answer (bucket_key key) first s ∙ rw fresh refl in
        let held : redis.entry (redis.incr (bucket_key key) first s).1 (bucket_key key)
            ≡ some (1, none) =
          redis.incr-entry (bucket_key key) first s ∙ rw fresh refl in
        rw used (
          subst (FirstOnly (limit - 1)) (allowed_at-hits later _)
            (endless-hits redis (bucket_key key) limit window_seconds later _ 1 (omega arith) held))
