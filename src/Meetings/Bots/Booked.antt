-- ===== src/Meetings/Bots/Booked.antt =====
-- Which meetings get a bot: src/workers/jobs/meetings_sweep.py.
use inbox_pilot.Prelude.{
  ℕ, suc, ◌≡◌, refl, sym, ap, ◌∙◌, ◌⊎◌, String, Bool, true, false, none, List, [], ◌∷◌, ◌++◌, map,
  take, DateTime, Result, err, ok, if◌then◌else◌, inl, inr,
}
use inbox_pilot.Billing.Rows.{Subscription}
use inbox_pilot.Billing.Usage.{Table}
use inbox_pilot.Billing.Entitlements.{Decision, CheckError, Checked, check, feature_meeting_bot}
use inbox_pilot.Meetings.Bots.{BotMeeting}
use inbox_pilot.Meetings.Bots.Store.{list_awaiting_bots}
use inbox_pilot.Meetings.Bots.Sweep.{
  Provider, BotCall, join_time, book_bot, Sweep, booking, if_allowed, book_each,
}

-- The call that books a meeting's bot.
abbrev pub call_for : ℕ → BotMeeting → BotCall
call_for now m = BotCall.scheduling m.id (join_time m.starts_at now)

append_nil : (cs : List BotCall) → cs ++ [] ≡ cs
append_nil [] = refl
append_nil (c ∷ cs) = rw (append_nil cs) refl

append_assoc : (a b c : List BotCall) → (a ++ b) ++ c ≡ a ++ (b ++ c)
append_assoc [] b c = refl
append_assoc (x ∷ a) b c = rw (append_assoc a b c) refl

module _ (provider : Provider) (subs : List Subscription) (user : ℕ) (bot_name : String)
    (now : DateTime) where
  abbrev pub answer_at : Table → Checked
  answer_at t = check subs user feature_meeting_bot none now t

  -- A check that allows.
  abbrev pub allows : Result CheckError Decision → Bool
  allows (err raised) = false
  allows (ok decision) = decision.allowed

  -- The calls of a pass are those for the first k meetings; none if the check does not allow any.
  abbrev pub PrefixCalled : List BotMeeting → Sweep → Sweep → Type 0
  PrefixCalled ms s s' =
      (k : ℕ) × (s'.calls ≡ s.calls ++ map (call_for now.instant) (take k ms))
      × ((allows (answer_at s.counters).0 ≡ true) ⊎ (k ≡ 0))

  none_called : (ms : List BotMeeting) (s s' : Sweep) → s'.calls ≡ s.calls → PrefixCalled ms s s'
  none_called ms s s' e = (0, e ∙ sym (append_nil s.calls), inr refl)

  if_allowed-prefix :
      (m : BotMeeting) (ms : List BotMeeting) (answer : Result CheckError Decision) (s mid : Sweep)
      (rest : Sweep → Sweep)
      → answer ≡ (answer_at s.counters).0
      → mid.calls ≡ s.calls
      → ((s' : Sweep) → PrefixCalled ms s' (rest s'))
      → PrefixCalled (m ∷ ms) s (if_allowed provider subs user bot_name now m answer mid rest)
  if_allowed-prefix m ms (err raised) s mid rest q e h =
      none_called (m ∷ ms) s (record mid { raised = true }) e
  if_allowed-prefix m ms (ok decision) s mid rest q e h = either decision.allowed refl
    where
      next : Sweep
      next =
          booking provider subs user bot_name now m (book_bot provider m bot_name now.instant) mid

      more :
          decision.allowed ≡ true
          → PrefixCalled ms next (rest next)
          → PrefixCalled (m ∷ ms) s (rest next)
      more allowed (k, calls, none_if) = (
        suc k,
        calls
            ∙ ap
                (λ c.
                  (c ++ (call_for now.instant m ∷ [])) ++ map (call_for now.instant) (take k ms))
                e
            ∙ append_assoc s.calls (call_for now.instant m ∷ [])
                (map (call_for now.instant) (take k ms)),
        inl (sym (ap allows q) ∙ allowed),
      )

      either :
          (b : Bool) → decision.allowed ≡ b → PrefixCalled (m ∷ ms) s (if b then rest next else mid)
      either true allowed = more allowed (h next)
      either false denied = none_called (m ∷ ms) s mid e

  book_each-prefix :
      (ms : List BotMeeting) (s : Sweep)
      → PrefixCalled ms s (book_each provider subs user bot_name now ms s)
  unfolding book_each
  book_each-prefix [] s = none_called [] s s refl
  book_each-prefix (m ∷ ms) s =
      if_allowed-prefix m ms (answer_at s.counters).0 s
        (record s { counters = (answer_at s.counters).1 }) _ refl refl
        (λ s'. book_each-prefix ms s')

  -- A pass asks the provider for a bot for the first k of the meetings that await one, in their
  -- order and once each; and for none at all, unless the first check of the pass allows the user a
  -- bot.
  pub book_each-Prefix :
      (s : Sweep)
      → PrefixCalled
          (list_awaiting_bots user now.instant s.rows)
          s
          (book_each provider subs user bot_name now (list_awaiting_bots user now.instant s.rows) s)
  book_each-Prefix s = book_each-prefix (list_awaiting_bots user now.instant s.rows) s
