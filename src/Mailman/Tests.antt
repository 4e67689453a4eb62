-- ===== src/Mailman/Tests.antt =====
-- Mailman on a small table.
use inbox_pilot.Prelude.{
  ℕ, ◌+◌, ◌-◌, ◌*◌, ◌/◌, ◌≤◌, ◌≡◌, refl, length, All, minutes, second, String, true, false, Option,
  none, some, List, [], ◌∷◌, arith,
}
use inbox_pilot.Mailman.Scheduler.{
  MailmanSettings, spread, mode_interval, mode_times, mode_custom_daily, hm, slot_minutes, in_dnd,
  is_delivery_due, hm_all,
}
use inbox_pilot.Mailman.Scheduler.Spread.{Apart, Within, slots_spread}
use inbox_pilot.Mailman.Tick.{Mailbox, tick_row, tick_rows, tick, after_row}
use inbox_pilot.Mailman.Tick.Once.{released_to, released_once}
use inbox_pilot.Mailman.Tick.Rollback.{tick_rollback}

abbrev settings_of : ℕ → String → List String → Option ℕ → MailmanSettings
settings_of user_id mode custom last = record {
  user_id = user_id;
  is_active = true;
  timezone = "UTC";
  delivery_mode = mode;
  interval_hours = some 2;
  interval_minutes = none;
  times_per_day = some 3;
  custom_times = custom;
  active_window_start = "09:00";
  active_window_end = "21:00";
  dnd_enabled = false;
  dnd_start = none;
  dnd_end = none;
  last_delivery_at = last;
}

abbrev every_two_hours : MailmanSettings
every_two_hours = settings_of 1 mode_interval [] none

abbrev three_times : MailmanSettings
three_times = settings_of 2 mode_times [] none

abbrev malformed : MailmanSettings
malformed = settings_of 3 mode_custom_daily ("9am" ∷ []) none

-- Everyone has one message, and Gmail takes every change.
abbrev mail : Mailbox
mail = record {
  local = λ zone now. now;
  held_message_ids = λ user_id. some ("message" ∷ []);
  release = λ user_id message_ids. true;
}

abbrev now : ℕ
now = minutes 1000

slots_spread_example :
    (l : List ℕ) × (slot_minutes three_times ≡ some l)
    × (length l ≡ 3)
    × (1 ≤ (1260 - 540) / 3)
    × Apart ((1260 - 540) / 3) l
    × All (Within 540 1260) l
unfolding hm
slots_spread_example = slots_spread three_times 540 1260 refl refl refl (omega arith) (omega arith)

released_once_example :
    released_to 1
      (tick_rows mail
        (now + second * 60)
        (settings_of 1 mode_interval [] (some now) ∷ three_times ∷ [])).released
    ≡ false
unfolding tick_rows tick_row is_delivery_due in_dnd after_row slot_minutes hm spread
released_once_example =
    released_once mail mail now (now + second * 60) 1 (every_two_hours ∷ three_times ∷ [])
      (settings_of 1 mode_interval [] (some now) ∷ three_times ∷ []) (refl, (refl, tt)) refl
      (omega arith) refl

tick_rollback_example : tick mail now (every_two_hours ∷ malformed ∷ three_times ∷ []) ≡ (
  every_two_hours ∷ malformed ∷ three_times ∷ [],
  (tick_rows mail now (every_two_hours ∷ [])).released,
)
unfolding tick_rows tick_row is_delivery_due in_dnd after_row slot_minutes hm hm_all
tick_rollback_example =
    tick_rollback mail now (every_two_hours ∷ malformed ∷ three_times ∷ []) (every_two_hours ∷ [])
      (three_times ∷ []) malformed refl refl refl
