-- ===== src/Scheduling/Slots/Walk.antt =====
-- The loop over one window: src/services/scheduling/slots.py.
use inbox_pilot.Prelude.{
  ℕ, zero, suc, ◌+◌, ◌*◌, ◌≤◌, ◌<◌, leb, ◌≡◌, refl, true, none, some, List, [], elem, arith,
  Bool-cases, Option-cases, inl, inr,
}
use inbox_pilot.Scheduling.Slots.{Pass, is_offered, walk, keep, window_fuel}

module _ (p : Pass) (window_end : ℕ) where
  -- With an interval of at least one, fuel past the end of the window is enough.
  walk_ends :
      (fuel cursor : ℕ)
      → 0 < p.interval
      → window_end < cursor + fuel
      → (l : List ℕ) × (walk p window_end (suc fuel) cursor ≡ some l)
  unfolding walk
  walk_ends zero cursor i h = ([], ground arith)
  walk_ends (suc fuel) cursor i h = elim (Bool-cases (leb (cursor + p.duration) window_end)) [
    | inr over ↦ ([], rw over)
    | inl within ↦
        let (l, e) = walk_ends fuel (cursor + p.interval) i (ground arith) in
        (keep p cursor l, rw within (rw e))
  ]

  -- A window always comes to its end.
  pub walk_terminates :
      (cursor : ℕ)
      → 0 < p.interval
      → (l : List ℕ) × (walk p window_end (window_fuel window_end) cursor ≡ some l)
  walk_terminates cursor i = walk_ends (suc window_end) cursor i (omega arith)

  -- With an interval of zero the loop of a window that has room for one meeting never ends.
  pub walk_endless :
      (fuel cursor : ℕ)
      → p.interval ≡ 0
      → cursor + p.duration ≤ window_end
      → walk p window_end fuel cursor ≡ none
  unfolding walk
  walk_endless zero cursor i h = refl
  walk_endless (suc fuel) cursor i h = ground (arith, walk_endless fuel (cursor + p.interval) i)

  -- The starts on the grid of a window, which fit into it and may be offered.
  abbrev pub OnGrid : ℕ → ℕ → Type 0
  OnGrid cursor x =
      ((k : ℕ) × (x ≡ cursor + k * p.interval))
      × (x + p.duration ≤ window_end)
      × (is_offered p x ≡ true)

  pub walk_sound :
      (fuel cursor : ℕ) (l : List ℕ) (x : ℕ)
      → walk p window_end fuel cursor ≡ some l
      → elem x l ≡ true
      → OnGrid cursor x
  unfolding walk
  walk_sound zero cursor l x e m = cc
  walk_sound (suc fuel) cursor l x e m = elim (Bool-cases (leb (cursor + p.duration) window_end)) [
    | inr over ↦ ground arith
    | inl within ↦ elim (Option-cases (walk p window_end fuel (cursor + p.interval))) [
      | inl endless ↦ ground arith
      | inr (rest, r) ↦ elim (Bool-cases (elem x rest)) [
        | inl later ↦
            let (step, fits, free) = walk_sound fuel (cursor + p.interval) rest x r later in
            let (k, q) = step in ((suc k, omega arith), fits, free)
        | inr here ↦ ((0, ground arith), ground arith, ground arith)
      ]
    ]
  ]

  next_start : (cursor k : ℕ) → cursor + suc k * p.interval ≡ cursor + p.interval + k * p.interval
  next_start cursor k = omega arith

  pub walk_complete :
      (fuel cursor k : ℕ) (l : List ℕ)
      → walk p window_end fuel cursor ≡ some l
      → cursor + k * p.interval + p.duration ≤ window_end
      → is_offered p (cursor + k * p.interval) ≡ true
      → elem (cursor + k * p.interval) l ≡ true
  unfolding walk
  walk_complete zero cursor k l e fits h = cc
  walk_complete (suc fuel) cursor zero l e fits h =
      let start : cursor + 0 * p.interval ≡ cursor = omega arith in
      rw start (ground (arith, rw start at h, rw start at fits))
  walk_complete (suc fuel) cursor (suc k) l e fits h =
      elim (Option-cases (walk p window_end fuel (cursor + p.interval))) [
        | inl endless ↦ ground arith
        | inr (rest, r) ↦
            let later : elem (cursor + p.interval + k * p.interval) rest ≡ true =
              walk_complete fuel (cursor + p.interval) k rest r (rw (next_start cursor k) at fits)
                (rw (next_start cursor k) at h) in
            rw (next_start cursor k) (ground arith)
      ]
