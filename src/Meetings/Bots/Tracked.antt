-- ===== src/Meetings/Bots/Tracked.antt =====
-- The states of rows that the calendar's events write: src/services/meetings/store.py.
use inbox_pilot.Prelude.{
  ℕ, ◌==◌, ◌≡◌, refl, ◌&&◌, ◌||◌, not, String, str_eq, Bool, true, false, Option, none, some, List,
  [], ◌∷◌, ◌++◌, map, filter, any, All, is_some, if◌then◌else◌, Bool-cases, inl, inr,
}
use inbox_pilot.Meetings.Bots.{
  MeetingStatus, BotMeeting, MeetingSettings, Event, Texts, Link, link_from_event, event_bounds,
  skip_reason, attendee_emails,
}
use inbox_pilot.Meetings.Bots.Store.{
  Meetings, was_cancelled, still_ahead, of_event, new_meeting, with_link, with_bounds, refreshed,
  upsert_from_event,
}
use inbox_pilot.Meetings.Bots.Sweep.{tracked_id, track, put}

-- A pending meeting has no bot, and a scheduled one has.
abbrev pub fits : MeetingStatus → Option String → Bool
fits MeetingStatus.pending bot = not (is_some bot)
fits MeetingStatus.scheduled bot = is_some bot
fits other bot = true

abbrev pub IsSound : BotMeeting → Type 0
IsSound m = fits m.status m.bot_id ≡ true

either-IsSound :
    (b : Bool) (x y : Meetings)
    → All IsSound x.rows
    → All IsSound y.rows
    → All IsSound (if b then x else y).rows
either-IsSound true x y h k = h
either-IsSound false x y h k = k

pub if-IsSound :
    (b : Bool) (m r : BotMeeting) → IsSound m → IsSound r → IsSound (if b then m else r)
if-IsSound true m r h k = h
if-IsSound false m r h k = k

pub map-IsSound :
    (f : BotMeeting → BotMeeting) (rows : List BotMeeting)
    → ((m : BotMeeting) → IsSound m → IsSound (f m))
    → All IsSound rows
    → All IsSound (map f rows)
map-IsSound f [] keeps h = tt
map-IsSound f (m ∷ rows) keeps (s, h) = (keeps m s, map-IsSound f rows keeps h)

pub filter-IsSound :
    (p : BotMeeting → Bool) (rows : List BotMeeting)
    → All IsSound rows
    → All IsSound (filter p rows)
filter-IsSound p [] h = tt
filter-IsSound p (m ∷ rows) (s, h) = elim (Bool-cases (p m)) [
  | inl t ↦ rw t (s, filter-IsSound p rows h)
  | inr f ↦ rw f (filter-IsSound p rows h)
]

append-IsSound :
    (rows : List BotMeeting) (m : BotMeeting)
    → All IsSound rows
    → IsSound m
    → All IsSound (rows ++ (m ∷ []))
append-IsSound [] m h s = (s, tt)
append-IsSound (r ∷ rows) m (t, h) s = (t, append-IsSound rows m h s)

pub put-IsSound :
    (m : BotMeeting) (rows : List BotMeeting)
    → IsSound m
    → All IsSound rows
    → All IsSound (put m rows)
put-IsSound m rows s h = map-IsSound _ rows (λ r t. if-IsSound (r.id == m.id) m r s t) h

with_link-IsSound : (l : Link) (m : BotMeeting) → IsSound m → IsSound (with_link l m)
with_link-IsSound none m s = s
with_link-IsSound (some (url, platform)) m s = if-IsSound (str_eq url "") m _ s s

with_bounds-IsSound : (b : Option (ℕ × ℕ)) (m : BotMeeting) → IsSound m → IsSound (with_bounds b m)
with_bounds-IsSound none m s = s
with_bounds-IsSound (some (start, end)) m s = s

module _ (texts : Texts) where
  refreshed-IsSound : (e : Event) (m : BotMeeting) → IsSound m → IsSound (refreshed texts e m)
  refreshed-IsSound e m s = with_bounds-IsSound (event_bounds texts e) _ (
      with_link-IsSound (link_from_event texts e)
        (record m { title = e.summary; attendees = attendee_emails texts e }) s)

  upsert-IsSound :
      (user : ℕ) (event_id : String) (e : Event) (now : ℕ) (db : Meetings)
      → All IsSound db.rows
      → All IsSound (upsert_from_event texts user event_id e now db).rows
  unfolding upsert_from_event
  upsert-IsSound user event_id e now db h =
      either-IsSound (any (of_event user event_id) db.rows) _ _
        (map-IsSound _ db.rows
          (λ m s.
            if-IsSound (of_event user event_id m) _ m
              (if-IsSound
                (was_cancelled (refreshed texts e m).status
                  && still_ahead (event_bounds texts e) now)
                _ (refreshed texts e m) refl (refreshed-IsSound e m s))
              s)
          h)
        (append-IsSound db.rows _ h (
          refreshed-IsSound e (new_meeting db.next_id user event_id (link_from_event texts e) now)
            refl))

  tracked-IsSound :
      (o : Option String) (settings : MeetingSettings) (e : Event) (now : ℕ) (db : Meetings)
      → All IsSound db.rows
      → All IsSound (tracked_id texts o settings e now db).rows
  tracked-IsSound none settings e now db h = h
  tracked-IsSound (some id) settings e now db h =
      either-IsSound (str_eq id "" || is_some (skip_reason texts e settings now)) db _ h
        (upsert-IsSound settings.user_id id e now db h)

  pub track-IsSound :
      (es : List Event) (settings : MeetingSettings) (now : ℕ) (db : Meetings)
      → All IsSound db.rows
      → All IsSound (track texts es settings now db).rows
  track-IsSound [] settings now db h = h
  track-IsSound (e ∷ es) settings now db h =
      track-IsSound es settings now (tracked_id texts e.id settings e now db)
        (tracked-IsSound e.id settings e now db h)
