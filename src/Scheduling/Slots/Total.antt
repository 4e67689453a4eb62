-- ===== src/Scheduling/Slots/Total.antt =====
-- Calls with valid arguments: src/services/scheduling/slots.py.
use inbox_pilot.Prelude.{
  ℕ, ◌<◌, ◌+◌, ◌≡◌, refl, String, Option, some, List, [], ◌∷◌, ◌++◌, map, All, ok, minutes, days,
  arith, clock_minutes, Bool-cases, inl, inr,
}
use inbox_pilot.Scheduling.Slots.{
  Zone, Window, real_instant, Pass, window_starts, all_starts, sorted_set, Query, pass_of,
  cap_reached, available_slots,
}
use inbox_pilot.Scheduling.Slots.Walk.{walk_terminates}

-- Both ends of a window are clock times.
abbrev pub HasClocks : Window → Type 0
HasClocks w =
    ((a : ℕ) × (clock_minutes w.start ≡ some a)) × ((b : ℕ) × (clock_minutes w.end ≡ some b))

module _ (p : Pass) (day : ℕ) (i : 0 < p.interval) where
  window_total : (w : Window) → HasClocks w → (l : List ℕ) × (window_starts p day w ≡ ok l)
  unfolding window_starts
  window_total w ((a, start), (b, end)) =
      let (l, e) = walk_terminates p (days day + minutes b) (days day + minutes a) i in
      (l, rw start (rw end (rw e)))

  starts_total : (ws : List Window) → All HasClocks ws → (l : List ℕ) × (all_starts p day ws ≡ ok l)
  unfolding all_starts
  starts_total [] h = ([], refl)
  starts_total (w ∷ ws) h =
      let (starts, e) = window_total w h.0 in
      let (rest, e') = starts_total ws h.1 in (starts ++ rest, rw e (rw e'))

-- In a known zone, with an interval of at least a minute and windows whose ends are clock times,
-- the pass ends and gives a list: it neither raises nor runs for ever.
pub available_slots_total :
    (timezone_for : String → Option Zone) (z : Zone) (q : Query)
    → timezone_for q.timezone_name ≡ some z
    → 0 < q.interval_minutes
    → All HasClocks q.windows
    → (l : List ℕ) × (available_slots timezone_for q ≡ ok l)
unfolding available_slots
available_slots_total timezone_for z q zone i clocks =
    elim (Bool-cases (cap_reached q.max_bookings_per_day q.booked_today)) [
      | inl full ↦ ([], rw full)
      | inr room ↦
          let (found, e) = starts_total (pass_of z q) q.day (omega arith) q.windows clocks in
          (sorted_set (map (real_instant z) found), rw room (rw zone (rw e)))
    ]
