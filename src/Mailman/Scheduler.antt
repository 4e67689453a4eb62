-- ===== src/Mailman/Scheduler.antt =====
-- When a batch is due: src/services/mailman/scheduler.py, over the row of src/models/mailman.py. A
-- local time is the number of microseconds that its wall clock shows; `none` is a ValueError.
pub mod Cyclic
pub mod Spread
use inbox_pilot.Prelude.{
  ℕ, zero, suc, ◌+◌, ◌-◌, ◌*◌, ◌/◌, ◌%◌, ◌==◌, ltb, leb, ◌&&◌, ◌||◌, minutes, String, Bool, true,
  false, not, Option, none, some, List, [], ◌∷◌, map, str_eq, codes, is_digit, elem, truthy,
  or_else, if◌then◌else◌,
}

pub record MailmanSettings : Type 0 where
  pub user_id : ℕ
  pub is_active : Bool
  pub timezone : String
  pub delivery_mode : String
  pub interval_hours : Option ℕ
  pub interval_minutes : Option ℕ
  pub times_per_day : Option ℕ
  pub custom_times : List String
  pub active_window_start : String
  pub active_window_end : String
  pub dnd_enabled : Bool
  pub dnd_start : Option String
  pub dnd_end : Option String
  pub last_delivery_at : Option ℕ

abbrev pub mode_interval : String
mode_interval = "interval"

abbrev pub mode_times : String
mode_times = "times"

abbrev pub mode_custom_daily : String
mode_custom_daily = "custom_daily"

int_from : ℕ → List ℕ → Option ℕ
int_from n [] = some n
int_from n (c ∷ cs) =
    let rest = int_from (n * 10 + (c - b'0')) cs in if is_digit c then rest else none

-- `int(text)`, of a text of digits.
int : List ℕ → Option ℕ
unfolding int_from
int [] = none
int (c ∷ cs) = int_from 0 (c ∷ cs)

-- `h, m = value.split(":")`: a second colon is in `m`, which `int` refuses too.
split_colon : List ℕ → Option (List ℕ × List ℕ)
split_colon [] = none
split_colon (c ∷ cs) =
    let rest = split_colon cs in
    if c == b':' then some ([], cs) else elim rest [ none ↦ none | some (h, m) ↦ some (c ∷ h, m) ]

abbrev hm_of : Option ℕ → Option ℕ → Option ℕ
hm_of none m = none
hm_of (some h) none = none
hm_of (some h) (some m) = some (h * 60 + m)

-- `_hm`
unfoldable pub hm : String → Option ℕ
unfolding int split_colon
hm value = elim (split_colon (codes value)) [ none ↦ none | some (h, m) ↦ hm_of (int h) (int m) ]

abbrev pub minutes_of_day : ℕ → ℕ
minutes_of_day local = (local / minutes 1) % 1440

unfoldable pub hm_all : List String → Option (List ℕ)
hm_all [] = some []
hm_all (t ∷ ts) =
    let rest = hm_all ts in
    elim (hm t) [ none ↦ none | some m ↦ elim rest [ none ↦ none | some ms ↦ some (m ∷ ms) ] ]

-- `range(i, i + n)`
abbrev pub range_from : ℕ → ℕ → List ℕ
range_from i zero = []
range_from i (suc n) = i ∷ range_from (suc i) n

-- The slots of n deliveries from one minute of the day to another.
unfoldable pub spread : ℕ → ℕ → ℕ → List ℕ
spread n start end =
    let span = end - start in
    if n == 1 || leb end start
    then start ∷ []
    else map (λ i. start + i * (span / n)) (range_from 0 n)

abbrev spread_between : ℕ → Option ℕ → Option ℕ → Option (List ℕ)
spread_between n none end = none
spread_between n (some start) none = none
spread_between n (some start) (some end) = some (spread n start end)

-- A set, by its members.
unfoldable pub slot_minutes : MailmanSettings → Option (List ℕ)
slot_minutes s =
    let n = or_else s.times_per_day 0 in
    if str_eq s.delivery_mode mode_custom_daily
    then hm_all s.custom_times
    else if str_eq s.delivery_mode mode_times
    then (if n == 0
        then some []
        else spread_between n (hm s.active_window_start) (hm s.active_window_end))
    else some []

-- Whether a minute of the day is in the window between two, which may wrap past midnight.
unfoldable pub in_window : ℕ → ℕ → ℕ → Bool
in_window start end now =
    if start == end
    then false
    else if ltb start end
    then leb start now && ltb now end
    else leb start now || ltb now end

abbrev window_holds : Option ℕ → Option ℕ → ℕ → Option Bool
window_holds none end now = none
window_holds (some start) none now = none
window_holds (some start) (some end) now = some (in_window start end now)

abbrev pub hm? : Option String → Option ℕ
hm? none = none
hm? (some value) = hm value

unfoldable pub in_dnd : MailmanSettings → ℕ → Option Bool
in_dnd s now_local =
    if not s.dnd_enabled || (not (truthy s.dnd_start) || not (truthy s.dnd_end))
    then some false
    else window_holds (hm? s.dnd_start) (hm? s.dnd_end) (minutes_of_day now_local)

-- `minutes` of interval mode.
abbrev pub interval_of : MailmanSettings → ℕ
interval_of s = or_else s.interval_minutes (or_else s.interval_hours 0 * 60)

abbrev elapsed : Option ℕ → ℕ → ℕ → Bool
elapsed none interval now = true
elapsed (some last) interval now = leb (last + minutes interval) now

unfoldable pub is_delivery_due : MailmanSettings → ℕ → ℕ → Option Bool
is_delivery_due s now_local now_utc = elim (in_dnd s now_local) [
  | none ↦ none
  | some true ↦ some false
  | some false ↦
      if str_eq s.delivery_mode mode_interval
      then some
          (if interval_of s == 0 then false else elapsed s.last_delivery_at (interval_of s) now_utc)
      else elim (slot_minutes s) [
        | none ↦ none
        | some slots ↦ some (elem (minutes_of_day now_local) slots)
      ]
]
