-- ===== src/Scheduling/Slots/Offer.antt =====
-- What `available_slots` of src/services/scheduling/slots.py offers, against the rule in words.
use inbox_pilot.Prelude.{
  ℕ, ◌+◌, ◌*◌, ◌≤◌, ◌==◌, ◌≡◌, refl, sym, subst, ◌⊎◌, ◌↔◌, String, true, false, Option, none, some,
  List, [], ◌∷◌, map, elem, any, ok, >>=-eq-ok, arith, Bool-cases, inl, inr,
}
use inbox_pilot.Scheduling.Slots.{
  Zone, Interval, Window, wall, real_instant, Pass, clashes, is_offered, walk, or_endless,
  window_fuel, window_starts, all_starts, sorted_set, Query, pass_of, cap_reached, available_slots,
}
use inbox_pilot.Scheduling.Slots.Walk.{walk_sound, walk_complete}
use inbox_pilot.Scheduling.Slots.Order.{
  Ascending, elem-append, elem-sorted_set, sorted_set-Ascending,
}

-- There is one in the list of which `P` holds.
abbrev pub AnyOf {ℓ} : {A : Type ℓ} → (A → Type 0) → List A → Type 0
AnyOf P [] = ⊥
AnyOf P (x ∷ xs) = P x ⊎ AnyOf P xs

-- A meeting at `x` keeps both buffers' distance to every commitment, before or after it.
abbrev pub KeepsClear : Pass → ℕ → List Interval → Type 0
KeepsClear p x [] = Unit
KeepsClear p x ((s, e) ∷ occupied) =
    ((e + p.pad_after + p.pad_before ≤ x) ⊎ (x + p.duration + p.pad_after + p.pad_before ≤ s))
    × KeepsClear p x occupied

clear_iff :
    (p : Pass) (x : ℕ) (occ : List Interval) → (any (clashes p x) occ ≡ false) ↔ KeepsClear p x occ
clear_iff p x [] = (λ h. tt, λ h. refl)
clear_iff p x ((s, e) ∷ occ) =
    let ih = clear_iff p x occ in ((λ h. ground (arith, ih)), (λ h. ground (arith, ih)))

offered_iff :
    (p : Pass) (x : ℕ) → (is_offered p x ≡ true) ↔ ((p.earliest ≤ x) × KeepsClear p x p.occupied)
offered_iff p x =
    let c = clear_iff p x p.occupied in ((λ h. ground (arith, c)), (λ h. ground (arith, c)))

ended : (o : Option (List ℕ)) (l : List ℕ) → or_endless o ≡ ok l → o ≡ some l
ended none l h = cc
ended (some starts) l h = cc

module _ (p : Pass) (day : ℕ) where
  -- A start of one window: on its grid, and the meeting fits into it.
  abbrev pub InWindow : ℕ → Window → Type 0
  InWindow x w =
      (c : ℕ) × (e : ℕ) × (k : ℕ) × (wall day w.start ≡ ok c)
      × (wall day w.end ≡ ok e)
      × (x ≡ c + k * p.interval)
      × (x + p.duration ≤ e)

  window_sound :
      (w : Window) (l : List ℕ) (x : ℕ)
      → window_starts p day w ≡ ok l
      → elem x l ≡ true
      → InWindow x w × (is_offered p x ≡ true)
  unfolding window_starts
  window_sound w l x h m =
      let (c, start, h1) = >>=-eq-ok (wall day w.start) _ h in
      let (e, end, h2) = >>=-eq-ok (wall day w.end) _ h1 in
      let (grid, fits, free) = walk_sound p e (window_fuel e) c l x (ended _ l h2) m in
      let (k, q) = grid in ((c, e, k, start, end, q, fits), free)

  window_complete :
      (w : Window) (l : List ℕ) (x : ℕ)
      → window_starts p day w ≡ ok l
      → InWindow x w
      → is_offered p x ≡ true
      → elem x l ≡ true
  unfolding window_starts
  window_complete w l x h (c, e, k, start, end, q, fits) free =
      let walked : walk p e (window_fuel e) c ≡ some l = ended _ l (rw start at (rw end at h)) in
      subst (λ y. elem y l ≡ true) (sym q)
        (walk_complete p e (window_fuel e) c k l walked (rw q at fits) (rw q at free))

  starts_sound :
      (ws : List Window) (l : List ℕ) (x : ℕ)
      → all_starts p day ws ≡ ok l
      → elem x l ≡ true
      → AnyOf (InWindow x) ws × (is_offered p x ≡ true)
  unfolding all_starts
  starts_sound [] l x h m = ground arith
  starts_sound (w ∷ ws) l x h m =
      let (starts, first, h1) = >>=-eq-ok (window_starts p day w) _ h in
      let (rest, others, h2) = >>=-eq-ok (all_starts p day ws) _ h1 in
      elim (Bool-cases (elem x starts)) [
        | inl here ↦ let (within, free) = window_sound w starts x first here in (inl within, free)
        | inr there ↦
            let (within, free) =
              starts_sound ws rest x others (ground (arith, elem-append x starts rest)) in
            (inr within, free)
      ]

  starts_complete :
      (ws : List Window) (l : List ℕ) (x : ℕ)
      → all_starts p day ws ≡ ok l
      → AnyOf (InWindow x) ws
      → is_offered p x ≡ true
      → elem x l ≡ true
  unfolding all_starts
  starts_complete [] l x h within free = absurd within
  starts_complete (w ∷ ws) l x h within free =
      let (starts, first, h1) = >>=-eq-ok (window_starts p day w) _ h in
      let (rest, others, h2) = >>=-eq-ok (all_starts p day ws) _ h1 in
      elim within [
        | inl here ↦
            ground (arith, elem-append x starts rest, window_complete w starts x first here free)
        | inr there ↦
            ground (arith, elem-append x starts rest, starts_complete ws rest x others there free)
      ]

elem-map :
    (f : ℕ → ℕ) (y : ℕ) (xs : List ℕ)
    → (elem y (map f xs) ≡ true) ↔ ((x : ℕ) × (elem x xs ≡ true) × (y ≡ f x))
elem-map f y [] = (λ h. ground arith, λ h. ground arith)
elem-map f y (z ∷ xs) = (
  λ h. elim (Bool-cases (y == f z)) [
    | inl here ↦ (z, ground arith, ground arith)
    | inr there ↦ let (x, m, q) = (elem-map f y xs).0 (ground arith) in (x, ground arith, q)
  ],
  λ (x, m, q). elim (Bool-cases (x == z)) [
    | inl here ↦ ground arith
    | inr there ↦ ground (arith, (elem-map f y xs).1 (x, ground arith, q))
  ],
)

-- A time that may be booked: the clock that a start shows once it is snapped onto an instant that
-- exists, where the start lies on the grid of a window that has room for the meeting, is not
-- before the notice is over, and keeps clear of all calendar events and reservations.
abbrev pub Bookable : Zone → Query → ℕ → Type 0
Bookable z q y =
    (x : ℕ) × AnyOf (InWindow (pass_of z q) q.day x) q.windows
    × ((pass_of z q).earliest ≤ x)
    × KeepsClear (pass_of z q) x (pass_of z q).occupied
    × (y ≡ real_instant z x)

module _ (z : Zone) (q : Query) where
  abbrev p : Pass
  p = pass_of z q

  found-Bookable :
      (found : List ℕ) (y : ℕ)
      → all_starts p q.day q.windows ≡ ok found
      → (elem y (sorted_set (map (real_instant z) found)) ≡ true) ↔ Bookable z q y
  found-Bookable found y h = rw (elem-sorted_set y (map (real_instant z) found)) (
    λ m.
        let (x, there, shown) = (elem-map (real_instant z) y found).0 m in
        let (within, free) = starts_sound p q.day q.windows found x h there in
        let (late, clear) = (offered_iff p x).0 free in (x, within, late, clear, shown),
    λ (x, within, late, clear, shown). (elem-map (real_instant z) y found).1 (
      x,
      starts_complete p q.day q.windows found x h within ((offered_iff p x).1 (late, clear)),
      shown,
    ),
  )

-- Below the day's cap and in a zone that the database knows, the slots that a call returns are in
-- strictly ascending order, and they are the bookable times: every one of them is bookable, and
-- every bookable time is among them.
pub slots-Bookable :
    (timezone_for : String → Option Zone) (z : Zone) (q : Query) (l : List ℕ)
    → timezone_for q.timezone_name ≡ some z
    → cap_reached q.max_bookings_per_day q.booked_today ≡ false
    → available_slots timezone_for q ≡ ok l
    → Ascending l × ((y : ℕ) → (elem y l ≡ true) ↔ Bookable z q y)
unfolding available_slots
slots-Bookable timezone_for z q l zone room h =
    let (found, starts, h1) =
      >>=-eq-ok (all_starts (pass_of z q) q.day q.windows)
        (λ found. ok (sorted_set (map (real_instant z) found))) (rw zone at (rw room at h)) in
    let l_is : sorted_set (map (real_instant z) found) ≡ l = cc in
    subst (λ l. Ascending l × ((y : ℕ) → (elem y l ≡ true) ↔ Bookable z q y)) l_is
      (sorted_set-Ascending _, λ y. found-Bookable z q found y starts)
