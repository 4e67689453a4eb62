-- ===== src/Billing/Access/Laws.antt =====
-- The access rule of src/services/billing/access.py against its statement in words.
use inbox_pilot.Prelude.{ℕ, ◌<◌, ◌≡◌, refl, ◌↔◌, ◌⊎◌, true, some, arith, eq_iff, str_eq_apart}
use inbox_pilot.Billing.Rows.{Subscription}
use inbox_pilot.Billing.Access.{entitled, resolve_access}

-- Comped, paying or in arrears, or inside a trial that has an end.
abbrev pub Pays : Subscription → ℕ → Type 0
Pays sub now =
    (sub.comped ≡ true)
    ⊎ (sub.status ≡ "active")
    ⊎ (sub.status ≡ "pending")
    ⊎ ((sub.status ≡ "authenticated") × ((t : ℕ) × (sub.trial_ends_at ≡ some t) × (now < t)))

module _ (sub : Subscription) (now : ℕ) where
  entitled-Pays : resolve_access (some sub) now ≡ entitled → Pays sub now
  unfolding resolve_access
  entitled-Pays h = ground (
    arith,
    eq_iff sub.status "active",
    eq_iff sub.status "pending",
    eq_iff sub.status "authenticated",
  )

  Pays-entitled : Pays sub now → resolve_access (some sub) now ≡ entitled
  unfolding resolve_access
  Pays-entitled h = ground (
    arith,
    eq_iff sub.status "active",
    eq_iff sub.status "pending",
    eq_iff sub.status "authenticated",
    str_eq_apart sub.status "active" "authenticated" refl,
    str_eq_apart sub.status "pending" "authenticated" refl,
  )

  -- An account is entitled exactly when it is comped, its status is active or pending, or its
  -- status is authenticated and its trial ends after now.
  pub entitled_iff : (resolve_access (some sub) now ≡ entitled) ↔ Pays sub now
  entitled_iff = (entitled-Pays, Pays-entitled)
