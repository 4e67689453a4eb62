-- ===== src/Meetings/Bots/Sound.antt =====
-- The states a meeting goes through: src/workers/jobs/meetings_sweep.py.
use inbox_pilot.Prelude.{
  ℕ, ◌==◌, ◌≡◌, refl, String, Bool, true, false, Option, none, some, List, [], ◌∷◌, find?, All,
  All-find?, truthy, DateTime, Result, err, ok, if◌then◌else◌,
}
use inbox_pilot.Billing.Rows.{Subscription}
use inbox_pilot.Billing.Usage.{Table}
use inbox_pilot.Billing.Entitlements.{Decision, CheckError, check, feature_meeting_bot}
use inbox_pilot.Meetings.Bots.{BotMeeting, MeetingSettings, Event, Texts}
use inbox_pilot.Meetings.Bots.Store.{
  list_enabled_settings, Meetings, list_awaiting_bots, list_scheduled_upcoming, awaits_bot,
  is_abandoned,
}
use inbox_pilot.Meetings.Bots.Tracked.{
  IsSound, if-IsSound, map-IsSound, filter-IsSound, put-IsSound, track-IsSound,
}
use inbox_pilot.Meetings.Bots.Job.{Outside, Job, swept_user, sweep_each, sweep_all}
use inbox_pilot.Meetings.Bots.Sweep.{
  Provider, BotCall, track, join_time, booked_as, book_bot, recalled, Sweep, booking, if_allowed,
  book_each, was_seen, recall_each, recalling, seen_ids, sweep_user, joined_with, join_found,
  join_now, expire_abandoned_media,
}

pair-IsSound :
    (b : Bool) (x y : BotMeeting × List BotCall)
    → IsSound x.0
    → IsSound y.0
    → IsSound (if b then x else y).0
pair-IsSound true x y h k = h
pair-IsSound false x y h k = k

triple-IsSound :
    (b : Bool) (x y : List BotMeeting × Table × List BotCall)
    → All IsSound x.0
    → All IsSound y.0
    → All IsSound (if b then x else y).0
triple-IsSound true x y h k = h
triple-IsSound false x y h k = k

job-IsSound :
    (b : Bool) (x y : Job)
    → All IsSound x.db.rows
    → All IsSound y.db.rows
    → All IsSound (if b then x else y).db.rows
job-IsSound true x y h k = h
job-IsSound false x y h k = k

booked-IsSound : (m : BotMeeting) (o : Option String) → IsSound m → IsSound (booked_as m o).1
booked-IsSound m none s = s
booked-IsSound m (some bot) s = refl

book_bot-IsSound :
    (provider : Provider) (m : BotMeeting) (bot_name : String) (now : ℕ)
    → IsSound m
    → IsSound (book_bot provider m bot_name now).1
unfolding book_bot
book_bot-IsSound provider m bot_name now s =
    booked-IsSound m (provider.schedule_bot m bot_name (join_time m.starts_at now)) s

module _ (provider : Provider) (subs : List Subscription) (user : ℕ) (bot_name : String)
    (now : DateTime) where
  pass-IsSound :
      (b : Bool) (x y : Sweep)
      → All IsSound x.rows
      → All IsSound y.rows
      → All IsSound (if b then x else y).rows
  pass-IsSound true x y h k = h
  pass-IsSound false x y h k = k

  if_allowed-IsSound :
      (m : BotMeeting) (answer : Result CheckError Decision) (s : Sweep) (rest : Sweep → Sweep)
      → IsSound m
      → All IsSound s.rows
      → ((s' : Sweep) → All IsSound s'.rows → All IsSound (rest s').rows)
      → All IsSound (if_allowed provider subs user bot_name now m answer s rest).rows
  if_allowed-IsSound m (err raised) s rest w h k = h
  if_allowed-IsSound m (ok d) s rest w h k =
      let x =
        booking provider subs user bot_name now m (book_bot provider m bot_name now.instant) s in
      pass-IsSound d.allowed (rest x) s
        (k x (
          put-IsSound (book_bot provider m bot_name now.instant).1 s.rows
            (book_bot-IsSound provider m bot_name now.instant w) h))
        h

  book_each-IsSound :
      (ms : List BotMeeting) (s : Sweep)
      → All IsSound ms
      → All IsSound s.rows
      → All IsSound (book_each provider subs user bot_name now ms s).rows
  unfolding book_each
  book_each-IsSound [] s w h = h
  book_each-IsSound (m ∷ ms) s (v, w) h =
      let (answer, counters) = check subs user feature_meeting_bot none now s.counters in
      if_allowed-IsSound m answer (record s { counters = counters }) _ v h
        (λ s' k. book_each-IsSound ms s' w k)

  recall_each-IsSound :
      (seen : List String) (ms : List BotMeeting) (s : Sweep)
      → All IsSound s.rows
      → All IsSound (recall_each provider subs user bot_name now seen ms s).rows
  recall_each-IsSound seen [] s h = h
  recall_each-IsSound seen (m ∷ ms) s h =
      pass-IsSound (was_seen seen m.calendar_event_id) _ _ (recall_each-IsSound seen ms s h)
        (recall_each-IsSound seen ms _ (put-IsSound (recalled m) s.rows refl h))

  recalling-IsSound :
      (seen : List String) (s : Sweep)
      → All IsSound s.rows
      → All IsSound (recalling provider subs user bot_name now seen s).rows
  recalling-IsSound seen s h =
      pass-IsSound s.raised s _ h
        (recall_each-IsSound seen (list_scheduled_upcoming user now.instant s.rows) s h)

module _ (texts : Texts) (provider : Provider) (subs : List Subscription) where
  -- What the jobs do to the table, in any order and at any time.
  pub data Step : List BotMeeting → List BotMeeting → Type 0 where
    swept :
        (outside : Outside) (now : ℕ) (all_settings : List MeetingSettings) (db : Meetings)
        (counters : Table) (calls : List BotCall)
        → Step db.rows
            (sweep_all texts provider subs outside now all_settings db counters calls).db.rows
    joined :
        (now : DateTime) (bot_name : String) (id : ℕ) (rows : List BotMeeting) (counters : Table)
        → Step rows (join_now texts provider subs now bot_name id rows counters).0

  pub data Reach (rows : List BotMeeting) : List BotMeeting → Type 0 where
    here : Reach rows rows
    next : {mid last : List BotMeeting} → Reach rows mid → Step mid last → Reach rows last

  joined_with-IsSound :
      (now : DateTime) (bot_name : String) (answer : Result CheckError Decision) (m : BotMeeting)
      → IsSound m
      → IsSound (joined_with texts provider subs now bot_name answer m).0
  joined_with-IsSound now bot_name (err raised) m s = s
  joined_with-IsSound now bot_name (ok d) m s =
      pair-IsSound d.allowed _ _ (book_bot-IsSound provider m bot_name now.instant s) s

  join_found-IsSound :
      (now : DateTime) (bot_name : String) (o : Option BotMeeting) (rows : List BotMeeting)
      (counters : Table)
      → ((m : BotMeeting) → o ≡ some m → IsSound m)
      → All IsSound rows
      → All IsSound (join_found texts provider subs now bot_name o rows counters).0
  join_found-IsSound now bot_name none rows counters w h = h
  join_found-IsSound now bot_name (some m) rows counters w h =
      let (answer, counters') = check subs m.user_id feature_meeting_bot none now counters in
      triple-IsSound (truthy m.bot_id) (rows, counters, []) _ h
        (put-IsSound (joined_with texts provider subs now bot_name answer m).0 rows
          (joined_with-IsSound now bot_name answer m (w m refl)) h)

  sweep_user-IsSound :
      (now : DateTime) (settings : MeetingSettings) (events : List Event) (db : Meetings)
      (counters : Table) (calls : List BotCall)
      → All IsSound db.rows
      → All IsSound (sweep_user texts provider subs now settings events db counters calls).0.rows
  unfolding sweep_user list_awaiting_bots
  sweep_user-IsSound now settings events db counters calls h =
      let tracked = track texts events settings now.instant db in
      let k = track-IsSound texts events settings now.instant db h in
      recalling-IsSound provider subs settings.user_id settings.bot_name now (seen_ids events) _ (
        book_each-IsSound provider subs settings.user_id settings.bot_name now
          (list_awaiting_bots settings.user_id now.instant tracked.rows) _
          (filter-IsSound (awaits_bot settings.user_id now.instant) tracked.rows k) k)

  swept_user-IsSound :
      (outside : Outside) (settings : MeetingSettings) (events : Option (List Event)) (job : Job)
      → All IsSound job.db.rows
      → All IsSound (swept_user texts provider subs outside settings events job).db.rows
  swept_user-IsSound outside settings none job h = h
  swept_user-IsSound outside settings (some events) job h =
      sweep_user-IsSound (outside.clock settings.user_id) settings events job.db job.counters
        job.calls h

  sweep_each-IsSound :
      (outside : Outside) (all_settings : List MeetingSettings) (job : Job)
      → All IsSound job.db.rows
      → All IsSound (sweep_each texts provider subs outside all_settings job).db.rows
  sweep_each-IsSound outside [] job h = h
  sweep_each-IsSound outside (settings ∷ more) job h =
      let events = outside.list_events settings.user_id in
      sweep_each-IsSound outside more _ (
        job-IsSound (outside.has_user settings.user_id)
          (swept_user texts provider subs outside settings events job) job
          (swept_user-IsSound outside settings events job h) h)

  Step-IsSound :
      {rows last : List BotMeeting} → Step rows last → All IsSound rows → All IsSound last
  unfolding join_now sweep_all expire_abandoned_media
  Step-IsSound (swept outside now all_settings db counters calls) h =
      map-IsSound _ _ (λ m s. if-IsSound (is_abandoned now m) _ m refl s)
        (sweep_each-IsSound outside (list_enabled_settings all_settings) _ h)
  Step-IsSound (joined now bot_name id rows counters) h =
      join_found-IsSound now bot_name (find? (λ (m : BotMeeting). m.id == id) rows) rows counters
        (λ m e. All-find? IsSound _ rows m h e) h

  -- However sweeps over all users and immediate joins follow one another, whatever the calendars,
  -- the provider and the checks answer: if at first no pending meeting has a bot and every
  -- scheduled meeting has one, this holds ever after.
  pub Reach-IsSound :
      {rows last : List BotMeeting} → All IsSound rows → Reach rows last → All IsSound last
  Reach-IsSound h here = h
  Reach-IsSound h (next before step) = Step-IsSound step (Reach-IsSound h before)
