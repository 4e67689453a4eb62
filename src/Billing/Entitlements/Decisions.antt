-- ===== src/Billing/Entitlements/Decisions.antt =====
-- What the gate of src/services/billing/entitlements.py decides, feature by feature.
use inbox_pilot.Prelude.{
  ℕ, ◌*◌, ◌<◌, ◌≡◌, ◌↔◌, refl, sym, String, str_eq_apart, ap, ◌∙◌, true, Option, none, some, List,
  contains, DateTime, ok, arith, eq_iff, Option-cases, inl, inr, ◌⊎◌,
}
use inbox_pilot.Billing.Plans.{Entitlements, Plan, get_plan}
use inbox_pilot.Billing.Rows.{Subscription, get_subscription}
use inbox_pilot.Billing.Access.{entitled, resolve_access, effective_plan_id}
use inbox_pilot.Billing.Usage.{Counter, Table, get_or_create_counter, period_start_for}
use inbox_pilot.Billing.Usage.Counts.{usage, usage_of, select-insert, insert-usage}
use inbox_pilot.Billing.Entitlements.{
  allow, check, check_feature, feature_meeting_bot, feature_draft, feature_routine,
  feature_custom_categories,
}

-- The reads make at most a row of zeros: what has been used is what was used.
counted :
    (u : ℕ) (now : DateTime) (t : Table)
    → (c : Counter) × ((get_or_create_counter u now t).0 ≡ some c)
      × ((c.bot_seconds_used, c.drafts_generated) ≡ usage u (period_start_for now) t)
unfolding get_or_create_counter
counted u now t =
    let (c, e) = select-insert u (period_start_for now) t in
    (c, e, sym (ap usage_of e) ∙ insert-usage u u (period_start_for now) (period_start_for now) t)

-- What a plan permits to one who has used so much this month.
abbrev pub Permits : Entitlements → String → Option String → ℕ × ℕ → Type 0
Permits e feature routine (bot_seconds, drafts) =
    ((feature ≡ "meetings.bot") × (bot_seconds < e.bot_hours_per_month * 3600))
    ⊎ ((feature ≡ "drafts.generate") × (e.drafts_per_month ≡ none))
    ⊎ ((feature ≡ "drafts.generate")
        × ((cap : ℕ) × (e.drafts_per_month ≡ some cap) × (drafts < cap)))
    ⊎ ((feature ≡ "routines.run")
        × ((r : String) × (routine ≡ some r) × (contains r e.allowed_routines ≡ true)))
    ⊎ ((feature ≡ "categorization.custom") × (e.custom_categories ≡ true))

module _ (e : Entitlements) (u : ℕ) (feature : String) (routine : Option String) (now : DateTime)
    (t : Table) where
  feature_spends_nothing :
      (v : ℕ) (p : ℕ × ℕ) → usage v p (check_feature e u feature routine now t).1 ≡ usage v p t
  unfolding check_feature get_or_create_counter
  feature_spends_nothing v p = ground (arith, insert-usage v u p (period_start_for now) t)

  allowed-Permits :
      (check_feature e u feature routine now t).0 ≡ ok allow
      → Permits e feature routine (usage u (period_start_for now) t)
  unfolding check_feature
  allowed-Permits h = ground (
    arith,
    counted u now t,
    eq_iff feature feature_meeting_bot,
    eq_iff feature feature_draft,
    eq_iff feature feature_routine,
    eq_iff feature feature_custom_categories,
  )

  Permits-allowed :
      Permits e feature routine (usage u (period_start_for now) t)
      → (check_feature e u feature routine now t).0 ≡ ok allow
  unfolding check_feature
  Permits-allowed h = ground (
    arith,
    counted u now t,
    eq_iff feature feature_meeting_bot,
    eq_iff feature feature_draft,
    eq_iff feature feature_routine,
    eq_iff feature feature_custom_categories,
    str_eq_apart feature feature_draft feature_meeting_bot refl,
    str_eq_apart feature feature_routine feature_meeting_bot refl,
    str_eq_apart feature feature_routine feature_draft refl,
    str_eq_apart feature feature_custom_categories feature_meeting_bot refl,
    str_eq_apart feature feature_custom_categories feature_draft refl,
    str_eq_apart feature feature_custom_categories feature_routine refl,
  )

module _ (subs : List Subscription) (u : ℕ) (feature : String) (routine : Option String)
    (now : DateTime) (t : Table) where
  abbrev account : Option Subscription
  account = get_subscription subs u

  allows-Permits :
      (check subs u feature routine now t).0 ≡ ok allow
      → (resolve_access account now.instant ≡ entitled)
        × ((plan : Plan) × (get_plan (effective_plan_id account) ≡ some plan)
            × Permits plan.entitlements feature routine (usage u (period_start_for now) t))
  unfolding check
  allows-Permits h = elim (Option-cases (get_plan (effective_plan_id account))) [
    | inl missing ↦ ground arith
    | inr (plan, found) ↦ (
      ground arith,
      (plan, found, allowed-Permits plan.entitlements u feature routine now t (ground arith)),
    )
  ]

  Permits-allows :
      (resolve_access account now.instant ≡ entitled)
        × ((plan : Plan) × (get_plan (effective_plan_id account) ≡ some plan)
            × Permits plan.entitlements feature routine (usage u (period_start_for now) t))
      → (check subs u feature routine now t).0 ≡ ok allow
  unfolding check
  Permits-allows (granted, known) =
      let (plan, found, within) = known in
      rw (granted, found) (Permits-allowed plan.entitlements u feature routine now t within)

  -- The gate allows a use exactly when the account is entitled now, its plan is in the catalogue,
  -- and the plan permits the feature: bot seconds of the month below its hours, no cap on drafts
  -- or drafts of the month below it, the routine among its routines, custom categories included.
  pub check_allows_iff : ((check subs u feature routine now t).0 ≡ ok allow) ↔ (
      (resolve_access account now.instant ≡ entitled)
      × ((plan : Plan) × (get_plan (effective_plan_id account) ≡ some plan)
          × Permits plan.entitlements feature routine (usage u (period_start_for now) t)))
  check_allows_iff = (allows-Permits, Permits-allows)

  -- Asking changes no usage, whatever the answer: not the user's, and nobody else's.
  check_spends_nothing :
      (v : ℕ) (p : ℕ × ℕ) → usage v p (check subs u feature routine now t).1 ≡ usage v p t
  unfolding check
  check_spends_nothing v p = elim (Option-cases (get_plan (effective_plan_id account))) [
    | inl missing ↦ ground arith
    | inr (plan, found) ↦
        ground (arith, feature_spends_nothing plan.entitlements u feature routine now t v p)
  ]
