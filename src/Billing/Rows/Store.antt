-- ===== src/Billing/Rows/Store.antt =====
-- The trial that src/services/billing/store.py grants.
use inbox_pilot.Prelude.{
  ℕ, ◌≡◌, refl, none, some, List, [], ◌∷◌, ◌++◌, arith, Option-cases, inl, inr,
}
use inbox_pilot.Billing.Rows.{Subscription, get_subscription, trial_row, get_or_create_subscription}

find?-append_self :
    (u : ℕ) (s : Subscription) (rows : List Subscription)
    → s.user_id ≡ u
    → get_subscription rows u ≡ none
    → get_subscription (rows ++ s ∷ []) u ≡ some s
unfolding get_subscription
find?-append_self u s [] own h = ground arith
find?-append_self u s (r ∷ rows) own h = ground (arith, find?-append_self u s rows own)

-- A second request for the trial, at any later time and of any length, returns the row of the
-- first and changes nothing.
trial_granted_once :
    (rows : List Subscription) (u trial_days now again later : ℕ)
    → let (sub, rows') = get_or_create_subscription rows u trial_days now in
      get_or_create_subscription rows' u again later ≡ (sub, rows')
unfolding get_or_create_subscription
trial_granted_once rows u trial_days now again later =
    elim (Option-cases (get_subscription rows u)) [
      | inl fresh ↦ rw fresh (rw (find?-append_self u (trial_row u trial_days now) rows refl fresh))
      | inr (s, e) ↦ rw e (rw e)
    ]
