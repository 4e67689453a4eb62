-- ===== src/Meetings/Retention/Locked.antt =====
-- What the sweep of src/workers/jobs/retention_sweep.py leaves to an account that is locked.
use inbox_pilot.Prelude.{
  ℕ, ◌==◌, ◌≡◌, refl, ap, sym, ◌∙◌, false, not, Option, none, some, List, [], ◌∷◌, filter, arith,
  Bool-cases, inl, inr,
}
use inbox_pilot.Billing.Rows.{Subscription, get_subscription}
use inbox_pilot.Billing.Access.{locked, resolve_access}
use inbox_pilot.Meetings.Rows.{Meeting}
use inbox_pilot.Meetings.Retention.{
  Storage, Pruned, prune_user, Swept, after_prune, prune_each, sweep_retention,
}
use inbox_pilot.Meetings.Retention.Windows.{locked_keeps_everything, prune_user_others}

-- The rows of a user.
abbrev pub rows_of : ℕ → List Meeting → List Meeting
rows_of u ms = filter (λ (m : Meeting). m.user_id == u) ms

within_others :
    (u v : ℕ) (ms : List Meeting)
    → (v == u) ≡ false
    → rows_of u (filter (λ (m : Meeting). not (m.user_id == v)) ms) ≡ rows_of u ms
within_others u v [] apart = refl
within_others u v (m ∷ ms) apart = ground (arith, within_others u v ms apart)

module _ (delete : Storage) (subs : List Subscription) (now u : ℕ) where
  after_prune-rows :
      (v : ℕ) (o : Option (Pruned × List Meeting)) (n : Swept) (ms : List Meeting)
      → (v == u) ≡ false
      → prune_user delete (get_subscription subs v) v now ms ≡ o
      → rows_of u (after_prune o (n, ms)).1 ≡ rows_of u ms
  after_prune-rows v none n ms apart e = refl
  after_prune-rows v (some (p, ms')) n ms apart e =
      sym (within_others u v ms' apart)
      ∙ ap (rows_of u) (prune_user_others delete (get_subscription subs v) v now ms p ms' e)
      ∙ within_others u v ms apart

  prune_each-rows :
      (users : List ℕ) (n : Swept) (ms : List Meeting)
      → resolve_access (get_subscription subs u) now ≡ locked
      → rows_of u (prune_each delete subs now users (n, ms)).1 ≡ rows_of u ms
  prune_each-rows [] n ms h = refl
  prune_each-rows (v ∷ users) n ms h =
      let next = after_prune (prune_user delete (get_subscription subs v) v now ms) (n, ms) in
      prune_each-rows users next.0 next.1 h ∙ elim (Bool-cases (v == u)) [
        | inl same ↦
            (let q : v ≡ u = ground arith in
              ap (λ o. rows_of u (after_prune o (n, ms)).1)
                (locked_keeps_everything delete (get_subscription subs v) v now ms
                  (ap (λ x. resolve_access (get_subscription subs x) now) q ∙ h)))
        | inr apart ↦ after_prune-rows v _ n ms apart refl
      ]

  -- A sweep over any users leaves an account that is locked at its instant all its rows, as they
  -- were, whatever else it prunes.
  pub sweep_retention-Spares :
      (users : List ℕ) (ms : List Meeting)
      → resolve_access (get_subscription subs u) now ≡ locked
      → rows_of u (sweep_retention delete subs now users ms).1 ≡ rows_of u ms
  unfolding sweep_retention
  sweep_retention-Spares users ms h =
      prune_each-rows users (record { users = 0; videos = 0; transcripts = 0 }) ms h
