-- ===== src/Mailman/Scheduler/Spread.antt =====
-- The delivery slots of a day that src/services/mailman/scheduler.py spreads over a window.
use native.Mathlib.Nat as Nat
use inbox_pilot.Prelude.{
  ℕ, zero, suc, ◌+◌, ◌-◌, ◌*◌, ◌/◌, ◌<◌, ◌≤◌, leb, ◌==◌, ◌≡◌, refl, subst, true, false, arith, List,
  [], ◌∷◌, map, length, some, All, or_else, str_eq, str_eq_apart,
}
use inbox_pilot.Mailman.Scheduler.{
  MailmanSettings, mode_times, mode_custom_daily, hm, slot_minutes, spread, range_from,
}

-- Each number of the list is a step further than the one before it.
abbrev pub Apart : ℕ → List ℕ → Type 0
Apart step [] = Unit
Apart step (x ∷ []) = Unit
Apart step (x ∷ y ∷ l) = (x + step ≡ y) × Apart step (y ∷ l)

abbrev pub Within : ℕ → ℕ → ℕ → Type 0
Within start end x = (start ≤ x) × (x < end)

length-slots : (start step i n : ℕ) → length (map (λ j. start + j * step) (range_from i n)) ≡ n
length-slots start step i zero = refl
length-slots start step i (suc n) = ground (arith, length-slots start step (suc i) n)

slots-Apart : (start step i n : ℕ) → Apart step (map (λ j. start + j * step) (range_from i n))
slots-Apart start step i zero = tt
slots-Apart start step i (suc zero) = tt
slots-Apart start step i (suc (suc n)) = (omega arith, slots-Apart start step (suc i) (suc n))

later :
    (start step end i n : ℕ) → 1 ≤ step → start + (i + suc n) * step ≤ end → start + i * step < end
later start step end i n p h = grind arith

slots-Within :
    (start step end i n : ℕ)
    → 1 ≤ step
    → start + (i + n) * step ≤ end
    → All (Within start end) (map (λ j. start + j * step) (range_from i n))
slots-Within start step end i zero p h = tt
slots-Within start step end i (suc n) p h = (
  (omega arith, later start step end i n p h),
  slots-Within start step end (suc i) n p
      (subst (λ k. start + k * step ≤ end) (let q : i + suc n ≡ suc i + n = omega arith in q) h),
)

step_pos : (n span : ℕ) → 2 ≤ n → n ≤ span → 1 ≤ span / n
step_pos n span h le =
    (Nat.le-div_iff_mul-le {k = n} {x = 1} {y = span} (omega arith)).1 (omega arith)

spread-Within :
    (n start end : ℕ)
    → 2 ≤ n
    → n ≤ end - start
    → (length (spread n start end) ≡ n)
      × Apart ((end - start) / n) (spread n start end)
      × All (Within start end) (spread n start end)
unfolding spread
spread-Within n start end two fits =
    let step = (end - start) / n in
    let one : (n == 1) ≡ false = ground arith in
    let ordered : leb end start ≡ false = ground arith in
    rw (one, ordered)
      (
        length-slots start step 0 n,
        slots-Apart start step 0 n,
        slots-Within start step end 0 n (step_pos n (end - start) two fits)
            (let q : n * step ≤ end - start = Nat.mul-div-le (end - start) n in omega arith),
      )

-- In times mode, if the window's ends are read and it has at least as many minutes as there are
-- deliveries, of which there are two or more, then the slots of a day are that many minutes, each
-- the same step after the one before it, and all of them in the window.
pub slots_spread :
    (s : MailmanSettings) (start end : ℕ)
    → str_eq s.delivery_mode mode_times ≡ true
    → hm s.active_window_start ≡ some start
    → hm s.active_window_end ≡ some end
    → 2 ≤ or_else s.times_per_day 0
    → or_else s.times_per_day 0 ≤ end - start
    → (l : List ℕ) × (slot_minutes s ≡ some l)
      × (length l ≡ or_else s.times_per_day 0)
      × (1 ≤ (end - start) / or_else s.times_per_day 0)
      × Apart ((end - start) / or_else s.times_per_day 0) l
      × All (Within start end) l
unfolding slot_minutes
slots_spread s start end mode opens closes two fits =
    let n = or_else s.times_per_day 0 in
    let daily : str_eq s.delivery_mode mode_custom_daily ≡ false =
      str_eq_apart s.delivery_mode mode_times mode_custom_daily refl mode in
    let some_n : (n == 0) ≡ false = ground arith in
    let (count, apart, within) = spread-Within n start end two fits in
    (
      spread n start end,
      rw (daily, mode, some_n, opens, closes) refl,
      count,
      step_pos n (end - start) two fits,
      apart,
      within,
    )
