-- ===== src/Scheduling/Availability/Cache.antt =====
-- Reading through the per-day cache of src/services/scheduling/availability.py.
use inbox_pilot.Prelude.{
  ℕ, suc, ◌+◌, ◌≤◌, ◌==◌, ltb, ◌≡◌, refl, ap, ◌∙◌, sym, subst, ◌&&◌, ◌||◌, days, Bool, true, false,
  not, some, List, [], ◌∷◌, ◌++◌, filter, any, is_some, arith, Bool-cases, Option-cases, inl, inr,
}
use inbox_pilot.Scheduling.Slots.{Zone, Interval}
use inbox_pilot.Scheduling.Availability.{
  Cache, Calendar, day_list, least, greatest, midnight, touches, same_interval, dict_keys, get_day,
  merged, elem_day, fill, fill_from, fetch_missing, busy_between,
}

abbrev pub mem : Interval → List Interval → Bool
mem i l = any (same_interval i) l

same→eq : (i j : Interval) → same_interval i j ≡ true → i ≡ j
same→eq i j h = ground arith

mem-filter :
    (p : Interval → Bool) (i : Interval) (l : List Interval) → mem i (filter p l) ≡ (mem i l && p i)
mem-filter p i [] = refl
mem-filter p i (j ∷ l) = elim (Bool-cases (same_interval i j)) [
  | inl same ↦ (let e : p i ≡ p j = ap p (same→eq i j same) in ground (arith, mem-filter p i l))
  | inr other ↦ ground (arith, mem-filter p i l)
]

mem-append : (i : Interval) (k l : List Interval) → mem i (k ++ l) ≡ (mem i k || mem i l)
mem-append i [] l = refl
mem-append i (j ∷ k) l = ground (arith, mem-append i k l)

mem-dict_keys : (i : Interval) (l : List Interval) → mem i (dict_keys l) ≡ mem i l
unfolding dict_keys
mem-dict_keys i [] = refl
mem-dict_keys i (j ∷ l) =
    ground (arith, mem-filter (λ k. not (same_interval k j)) i (dict_keys l), mem-dict_keys i l)

least_bounds :
    (m day : ℕ) (ms : List ℕ)
    → elem_day day (m ∷ ms) ≡ true
    → (least m ms ≤ day) × (day ≤ greatest m ms)
least_bounds m day [] h = ground arith
least_bounds m day (x ∷ xs) h = ground (arith, least_bounds x day xs)

module _ (z : Zone) (events : List Interval) where
  -- A list of intervals is what the calendar holds of a day.
  abbrev pub IsDay : ℕ → List Interval → Type 0
  IsDay day l = (i : Interval) → mem i l ≡ (mem i events && touches z day i)

  -- What is cached of any day is what the calendar holds of it.
  abbrev pub IsCoherent : Cache → Type 0
  IsCoherent cached = (day : ℕ) (l : List Interval) → cached day ≡ some l → IsDay day l

  -- Midnights come in the order of the days, and `busy_windows` returns the events that overlap
  -- the window.
  abbrev pub MidnightsInOrder : Type 0
  MidnightsInOrder = (a b : ℕ) → a ≤ b → midnight z a ≤ midnight z b

  abbrev pub Reads : Calendar → Type 0
  Reads calendar = (a b : ℕ) → calendar a b ≡ some (filter (λ i. ltb i.0 b && ltb a i.1) events)

  mem-merged :
      (cached : Cache) (i : Interval) (wanted : List ℕ)
      → ((day : ℕ) → elem_day day wanted ≡ true → IsDay day (get_day cached day))
      → mem i (merged cached wanted) ≡ (mem i events && any (λ day. touches z day i) wanted)
  unfolding merged
  mem-merged cached i [] h = ground arith
  mem-merged cached i (day ∷ rest) h = ground (
    arith,
    mem-append i (get_day cached day) (merged cached rest),
    h day (ground arith) i,
    mem-merged cached i rest (λ d m. h d (ground arith)),
  )

  -- A day that is cached is not missing, and one that is wanted and not cached is.
  elem-missing :
      (cached : Cache) (day : ℕ) (wanted : List ℕ)
      → elem_day day (filter (λ d. not (is_some (cached d))) wanted)
        ≡ (elem_day day wanted && not (is_some (cached day)))
  elem-missing cached day [] = refl
  elem-missing cached day (d ∷ ds) = elim (Bool-cases (day == d)) [
    | inl same ↦
        (let e : is_some (cached day) ≡ is_some (cached d) =
            ap (λ x. is_some (cached x)) (let q : day ≡ d = ground arith in q) in
          ground (arith, elem-missing cached day ds))
    | inr other ↦ ground (arith, elem-missing cached day ds)
  ]

  -- An event that a fetch over the missing days returns.
  spans : ℕ → List ℕ → Interval → Bool
  spans m ms i = ltb i.0 (midnight z (suc (greatest m ms))) && ltb (midnight z (least m ms)) i.1

  module _ (ordered : MidnightsInOrder) where
    -- Such a fetch holds every event of each of them.
    spanned :
        (m day : ℕ) (ms : List ℕ) (i : Interval)
        → elem_day day (m ∷ ms) ≡ true
        → touches z day i ≡ true
        → spans m ms i ≡ true
    unfolding spans
    spanned m day ms i there t =
        let (low, high) = least_bounds m day ms there in
        ground (
          arith,
          ordered (least m ms) day low,
          ordered (suc day) (suc (greatest m ms)) (omega arith),
        )

    fetched-IsDay :
        (m day : ℕ) (ms : List ℕ)
        → elem_day day (m ∷ ms) ≡ true
        → IsDay day (filter (touches z day) (filter (spans m ms) events))
    fetched-IsDay m day ms there i =
        mem-filter (touches z day) i (filter (spans m ms) events)
        ∙ (elim (Bool-cases (touches z day i)) [
          | inl t ↦
              rw t (ground (arith, mem-filter (spans m ms) i events, spanned m day ms i there t))
          | inr f ↦ rw f (ground arith)
        ])

    fill-IsCoherent :
        (cached : Cache) (m : ℕ) (ms : List ℕ)
        → IsCoherent cached
        → IsCoherent (fill z cached (m ∷ ms) (filter (spans m ms) events))
    fill-IsCoherent cached m ms h day l e = elim (Bool-cases (elem_day day (m ∷ ms))) [
      | inl missing ↦
          subst (IsDay day)
            (let q : some (filter (touches z day) (filter (spans m ms) events)) ≡ some l =
                rw missing at e in
              cc)
            (fetched-IsDay m day ms missing)
      | inr held ↦ h day l (rw held at e)
    ]

    -- The answer over the wanted days, from a cache that holds all of them.
    answer :
        (cached : Cache) (wanted : List ℕ)
        → IsCoherent cached
        → ((day : ℕ) → elem_day day wanted ≡ true → is_some (cached day) ≡ true)
        → (i : Interval)
        → mem i (dict_keys (merged cached wanted))
          ≡ (mem i events && any (λ day. touches z day i) wanted)
    answer cached wanted h full i =
        mem-dict_keys i (merged cached wanted)
        ∙ mem-merged cached i wanted (λ day there. elim (Option-cases (cached day)) [
          | inl absent ↦ absurd (ground (arith, full day there))
          | inr (l, e) ↦ rw (e, get_day) (h day l e)
        ])

    read_spans :
        (calendar : Calendar) (m : ℕ) (ms : List ℕ)
        → Reads calendar
        → calendar (midnight z (least m ms)) (z.to_instant (days (greatest m ms) + days 1))
          ≡ some (filter (spans m ms) events)
    unfolding spans
    read_spans calendar m ms reads =
        let next : days (greatest m ms) + days 1 ≡ days (suc (greatest m ms)) = omega arith in
        rw next (reads (midnight z (least m ms)) (midnight z (suc (greatest m ms))))

    filled :
        (cached : Cache) (missing : List ℕ) (fetched : List Interval) (day : ℕ)
        → (elem_day day missing || is_some (cached day)) ≡ true
        → is_some (fill z cached missing fetched day) ≡ true
    filled cached missing fetched day h = ground arith

    abbrev missing_from : Cache → List ℕ → List ℕ
    missing_from cached wanted = filter (λ day. not (is_some (cached day))) wanted

    fetch_missing_lem :
        (calendar : Calendar) (cached : Cache) (wanted missing : List ℕ)
        → Reads calendar
        → IsCoherent cached
        → missing ≡ missing_from cached wanted
        → (l : List Interval) × ((fetch_missing z calendar cached wanted missing).0 ≡ some l)
          × ((i : Interval) → mem i l ≡ (mem i events && any (λ day. touches z day i) wanted))
          × IsCoherent (fetch_missing z calendar cached wanted missing).1
    unfolding fetch_missing fill_from
    fetch_missing_lem calendar cached wanted [] reads h e = (
      dict_keys (merged cached wanted),
      refl,
      answer cached wanted h (λ day there.
          let held : elem_day day (missing_from cached wanted) ≡ false =
            ap (elem_day day) (sym e) in
          ground (arith, elem-missing cached day wanted)),
      h,
    )
    fetch_missing_lem calendar cached wanted (m ∷ ms) reads h e =
        let fetched : List Interval = filter (spans m ms) events in
        let cached' : Cache = fill z cached (m ∷ ms) fetched in
        let coherent : IsCoherent cached' = fill-IsCoherent cached m ms h in
        rw (read_spans calendar m ms reads) (
          dict_keys (merged cached' wanted),
          refl,
          answer cached' wanted coherent (λ day there.
              let known : elem_day day (m ∷ ms) ≡ elem_day day (missing_from cached wanted) =
                ap (elem_day day) e in
              filled cached (m ∷ ms) fetched day
                (ground (arith, known, elem-missing cached day wanted))),
          coherent,
        )

-- If midnights come in the order of the days, the calendar returns the events that overlap a
-- window, and the cache holds of no day anything else than the calendar does, then reading a range
-- of days succeeds with exactly the events that touch one of its days, whichever days were cached,
-- and leaves a cache that is right for every day.
pub busy_between_lem :
    (z : Zone) (events : List Interval) (calendar : Calendar) (cached : Cache) (first last : ℕ)
    → MidnightsInOrder z events
    → Reads z events calendar
    → IsCoherent z events cached
    → (l : List Interval) × ((busy_between z calendar cached first last).0 ≡ some l)
      × ((i : Interval)
          → mem i l ≡ (mem i events && any (λ day. touches z day i) (day_list first last)))
      × IsCoherent z events (busy_between z calendar cached first last).1
unfolding busy_between
busy_between_lem z events calendar cached first last ordered reads h =
    fetch_missing_lem z events ordered calendar cached (day_list first last) _ reads h refl
