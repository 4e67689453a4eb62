-- ===== src/Meetings/Bots/Cleared.antt =====
-- When no meeting is left without a bot: src/workers/jobs/meetings_sweep.py.
use inbox_pilot.Prelude.{
  ℕ, ◌==◌, ◌≡◌, refl, sym, ap, subst, ◌∙◌, ◌&&◌, ◌||◌, not, String, Bool, true, false, Option, none,
  some, List, [], ◌∷◌, filter, any, All, DateTime, Result, ok, if◌then◌else◌, Bool-cases, inl, inr,
  arith,
}
use inbox_pilot.Billing.Rows.{Subscription}
use inbox_pilot.Billing.Usage.{Table}
use inbox_pilot.Billing.Entitlements.{Decision, CheckError}
use inbox_pilot.Meetings.Bots.{MeetingStatus, BotMeeting}
use inbox_pilot.Meetings.Bots.Store.{awaits_bot, list_awaiting_bots}
use inbox_pilot.Meetings.Bots.Booked.{answer_at}
use inbox_pilot.Meetings.Bots.Sweep.{
  Provider, join_time, booked_as, book_bot, put, Sweep, booking, if_allowed, book_each,
}

module _ (provider : Provider) (subs : List Subscription) (user : ℕ) (bot_name : String)
    (now : DateTime) where
  -- The row is none that awaits a bot, but for the rows of some ids.
  abbrev IsLeft : List BotMeeting → BotMeeting → Type 0
  IsLeft ms r =
      (not (awaits_bot user now.instant r) || any (λ (m : BotMeeting). r.id == m.id) ms) ≡ true

  drop_other : (a b c : Bool) → b ≡ false → (a || (b || c)) ≡ true → (a || c) ≡ true
  drop_other true b c e h = refl
  drop_other false true c e h = absurd (ground arith)
  drop_other false false c e h = h

  left_over : (a c : Bool) → a ≡ false → (not a || c) ≡ true
  left_over true c e = absurd (ground arith)
  left_over false c e = refl

  put-IsLeft :
      (m m' : BotMeeting) (ms rows : List BotMeeting)
      → m'.id ≡ m.id
      → awaits_bot user now.instant m' ≡ false
      → All (IsLeft (m ∷ ms)) rows
      → All (IsLeft ms) (put m' rows)
  put-IsLeft m m' ms [] same done h = tt
  put-IsLeft m m' ms (r ∷ rows) same done (l, h) =
      (here (r.id == m'.id) refl, put-IsLeft m m' ms rows same done h)
    where
      here : (b : Bool) → (r.id == m'.id) ≡ b → IsLeft ms (if b then m' else r)
      here true e = left_over (awaits_bot user now.instant m') _ done
      here false e =
          drop_other (not (awaits_bot user now.instant r)) (r.id == m.id) _
            (ap (λ n. r.id == n) (sym same) ∙ e) l

  -- The provider takes every booking, and on the tables of a kind, which the checks do not leave,
  -- they allow it.
  abbrev pub Accepts : (Table → Type 0) → Type 0
  Accepts P =
      ((m : BotMeeting) (join_at : Option ℕ)
        → (bot : String) × (provider.schedule_bot m bot_name join_at ≡ some bot))
      × ((t : Table)
          → P t
          → (d : Decision) × ((answer_at provider subs user bot_name now t).0 ≡ ok d)
            × (d.allowed ≡ true)
            × P (answer_at provider subs user bot_name now t).1)

  booked-done :
      (m : BotMeeting) (bot : String)
      → awaits_bot user now.instant
          (record m { bot_id = some bot; status = MeetingStatus.scheduled; status_detail = none })
        ≡ false
  booked-done m bot = ends_false (m.user_id == user)
    where
      ends_false : (b : Bool) → (b && false) ≡ false
      ends_false true = refl
      ends_false false = refl

  -- A step of the pass when nothing is refused.
  step_booked :
      (m : BotMeeting) (answer : Result CheckError Decision) (mid : Sweep) (rest : Sweep → Sweep)
      (d : Decision) (bot : String)
      → answer ≡ ok d
      → d.allowed ≡ true
      → provider.schedule_bot m bot_name (join_time m.starts_at now.instant) ≡ some bot
      → if_allowed provider subs user bot_name now m answer mid rest
        ≡ rest (booking provider subs user bot_name now m (booked_as m (some bot)) mid)
  unfolding book_bot
  step_booked m answer mid rest d bot a allowed given =
      ap (λ x. if_allowed provider subs user bot_name now m x mid rest) a
      ∙ chosen d.allowed allowed
      ∙ ap (λ o. rest (booking provider subs user bot_name now m (booked_as m o) mid)) given
    where
      next : Sweep
      next =
          booking provider subs user bot_name now m (book_bot provider m bot_name now.instant) mid

      chosen : (b : Bool) → b ≡ true → (if b then rest next else mid) ≡ rest next
      chosen true e = refl
      chosen false e = absurd (ground arith)

  book_each-IsLeft :
      (P : Table → Type 0) (ms : List BotMeeting) (s : Sweep)
      → Accepts P
      → P s.counters
      → All (IsLeft ms) s.rows
      → All (IsLeft []) (book_each provider subs user bot_name now ms s).rows
  unfolding book_each
  book_each-IsLeft P [] s accepts open_now h = h
  book_each-IsLeft P (m ∷ ms) s (taken, allowed) open_now h =
      let (bot, given) = taken m (join_time m.starts_at now.instant) in
      let (d, answer, granted, still) = allowed s.counters open_now in
      let mid : Sweep = record s {
        counters = (answer_at provider subs user bot_name now s.counters).1;
      } in
      let m' : BotMeeting = record m {
        bot_id = some bot;
        status = MeetingStatus.scheduled;
        status_detail = none;
      } in
      subst (λ (x : Sweep). All (IsLeft []) x.rows)
        (sym (
          step_booked m (answer_at provider subs user bot_name now s.counters).0 mid
            (λ s'. book_each provider subs user bot_name now ms s') d bot answer granted given))
        (book_each-IsLeft P ms
          (booking provider subs user bot_name now m (booked_as m (some bot)) mid) (taken, allowed)
          still (put-IsLeft m m' ms s.rows refl (booked-done m bot) h))

  left_self : (a c s : Bool) → s ≡ true → (not a || (s || c)) ≡ true
  left_self true c s e = rw e refl
  left_self false c s e = refl

  or_more : (a b c : Bool) → (a || b) ≡ true → (a || (c || b)) ≡ true
  or_more true b c h = refl
  or_more false b true h = refl
  or_more false b false h = h

  IsLeft-more :
      (m : BotMeeting) (ms rows : List BotMeeting)
      → All (IsLeft ms) rows
      → All (IsLeft (m ∷ ms)) rows
  IsLeft-more m ms [] h = tt
  IsLeft-more m ms (r ∷ rows) (l, h) =
      (or_more (not (awaits_bot user now.instant r)) _ (r.id == m.id) l, IsLeft-more m ms rows h)

  awaiting-IsLeft :
      (rows : List BotMeeting) → All (IsLeft (list_awaiting_bots user now.instant rows)) rows
  unfolding list_awaiting_bots
  awaiting-IsLeft [] = tt
  awaiting-IsLeft (r ∷ rows) = split (awaits_bot user now.instant r) refl (awaiting-IsLeft rows)
    where
      rest : List BotMeeting
      rest = filter (awaits_bot user now.instant) rows

      same_id : (r.id == r.id) ≡ true
      same_id = ground arith

      split :
          (b : Bool)
          → awaits_bot user now.instant r ≡ b
          → All (IsLeft rest) rows
          → All (IsLeft (if b then r ∷ rest else rest)) (r ∷ rows)
      split true e h = (
        left_self (awaits_bot user now.instant r) _ (r.id == r.id) same_id,
        IsLeft-more r rest rows h,
      )
      split false e h = (left_over (awaits_bot user now.instant r) _ e, h)

  none_awaiting :
      (rows : List BotMeeting)
      → All (IsLeft []) rows
      → list_awaiting_bots user now.instant rows ≡ []
  unfolding list_awaiting_bots
  none_awaiting [] h = refl
  none_awaiting (r ∷ rows) (l, h) = elim (Bool-cases (awaits_bot user now.instant r)) [
    | inl waits ↦ absurd (clash (awaits_bot user now.instant r) waits l)
    | inr idle ↦ rw idle (none_awaiting rows h)
  ]
    where
      clash : (a : Bool) → a ≡ true → (not a || false) ≡ true → ⊥
      clash true e h = ground arith
      clash false e h = ground arith

  -- If the provider takes every booking and the checks allow the user a bot, at first and on the
  -- counters that each check leaves, then after a pass no meeting of the user awaits a bot.
  pub book_each-Clears :
      (P : Table → Type 0) (s : Sweep)
      → Accepts P
      → P s.counters
      → list_awaiting_bots user now.instant
          (book_each provider subs user bot_name now
            (list_awaiting_bots user now.instant s.rows)
            s).rows
        ≡ []
  book_each-Clears P s accepts open_now =
      none_awaiting
        (book_each provider subs user bot_name now (list_awaiting_bots user now.instant s.rows)
          s).rows
        (book_each-IsLeft P (list_awaiting_bots user now.instant s.rows) s accepts open_now
          (awaiting-IsLeft s.rows))
