-- ===== src/Billing/Webhooks/Rows.antt =====
-- Reading rows back after a write: src/services/billing/webhooks.py.
use inbox_pilot.Prelude.{
  ℕ, ◌==◌, ◌≡◌, ◌≢◌, String, none, some, List, [], ◌∷◌, find?-sound, All, All-find?, arith,
  if◌then◌else◌, eq_refl, Bool-cases, inl, inr, subst, Option-cases, eq_iff,
}
use inbox_pilot.Billing.Rows.{Subscription, get_subscription}
use inbox_pilot.Billing.Webhooks.{has_razorpay_id, find_by_razorpay_id, put_subscription}

-- No user has two rows.
abbrev pub Unique : List Subscription → Type 0
Unique [] = Unit
Unique (s ∷ rows) = All (λ r. r.user_id ≢ s.user_id) rows × Unique rows

pub get-put :
    (s : Subscription) (u : ℕ) (rows : List Subscription)
    → get_subscription (put_subscription s rows) u
      ≡ (if s.user_id == u then some s else get_subscription rows u)
unfolding get_subscription put_subscription
get-put s u [] = ground arith
get-put s u (r ∷ rows) = ground (arith, get-put s u rows)

pub get-user_id :
    (u : ℕ) (s : Subscription) (rows : List Subscription)
    → get_subscription rows u ≡ some s
    → s.user_id ≡ u
unfolding get_subscription
get-user_id u s rows e = ground (arith, find?-sound (λ r. r.user_id == u) rows s e)

pub find-has_id :
    (id : String) (s : Subscription) (rows : List Subscription)
    → find_by_razorpay_id id rows ≡ some s
    → s.razorpay_subscription_id ≡ some id
unfolding find_by_razorpay_id
find-has_id id s rows e = elim (Option-cases s.razorpay_subscription_id) [
  | inl q ↦ ground (arith, find?-sound (has_razorpay_id id) rows s e)
  | inr (j, q) ↦ ground (arith, find?-sound (has_razorpay_id id) rows s e, eq_iff j id)
]

-- The row with an id is the row of its user.
pub find-get :
    (id : String) (s : Subscription) (rows : List Subscription)
    → Unique rows
    → find_by_razorpay_id id rows ≡ some s
    → get_subscription rows s.user_id ≡ some s
unfolding find_by_razorpay_id get_subscription
find-get id s [] k e = cc
find-get id s (r ∷ rows) k e = ground (
  arith,
  find-get id s rows k.1,
  All-find? (λ q. q.user_id ≢ r.user_id) (has_razorpay_id id) rows s k.0,
)

put-differ :
    (s : Subscription) (u : ℕ) (rows : List Subscription)
    → All (λ r. r.user_id ≢ u) rows
    → s.user_id ≢ u
    → All (λ r. r.user_id ≢ u) (put_subscription s rows)
unfolding put_subscription
put-differ s u [] h k = (k, tt)
put-differ s u (r ∷ rows) h k = ground (arith, put-differ s u rows h.1 k)

pub put-Unique :
    (s : Subscription) (rows : List Subscription) → Unique rows → Unique (put_subscription s rows)
unfolding put_subscription
put-Unique s [] h = (tt, tt)
put-Unique s (r ∷ rows) h = elim (Bool-cases (r.user_id == s.user_id)) [
  | inl same ↦ rw same (subst (λ u. All (λ q. q.user_id ≢ u) rows) (ground arith) h.0, h.1)
  | inr other ↦ rw other (put-differ s r.user_id rows h.0 (ground arith), put-Unique s rows h.1)
]

pub put-put :
    (s : Subscription) (rows : List Subscription)
    → put_subscription s (put_subscription s rows) ≡ put_subscription s rows
unfolding put_subscription
put-put s [] = ground arith
put-put s (r ∷ rows) = ground (arith, put-put s rows)

pub find-put_new :
    (id : String) (s : Subscription) (rows : List Subscription)
    → s.razorpay_subscription_id ≡ some id
    → find_by_razorpay_id id rows ≡ none
    → find_by_razorpay_id id (put_subscription s rows) ≡ some s
unfolding find_by_razorpay_id put_subscription
find-put_new id s [] own h = ground (arith, eq_refl id)
find-put_new id s (r ∷ rows) own h = ground (arith, eq_refl id, find-put_new id s rows own)

pub find-put_old :
    (id : String) (s s' : Subscription) (rows : List Subscription)
    → Unique rows
    → find_by_razorpay_id id rows ≡ some s
    → s'.user_id ≡ s.user_id
    → s'.razorpay_subscription_id ≡ some id
    → find_by_razorpay_id id (put_subscription s' rows) ≡ some s'
unfolding find_by_razorpay_id put_subscription
find-put_old id s s' [] k e same own = cc
find-put_old id s s' (r ∷ rows) k e same own = ground (
  arith,
  eq_refl id,
  find-put_old id s s' rows k.1,
  All-find? (λ q. q.user_id ≢ r.user_id) (has_razorpay_id id) rows s k.0,
)
