-- ===== src/Scheduling/Bookings/Exclusion.antt =====
-- Writes under the exclusion constraint of src/models/scheduling.py.
use inbox_pilot.Prelude.{
  ◌==◌, ◌≡◌, ◌≢◌, refl, false, some, List, [], ◌∷◌, ◌++◌, any, All, arith, Bool-cases, inl, inr,
  subst,
}
use inbox_pilot.Scheduling.Bookings.{
  Booking, is_live, collide, other_collides, put_booking, insert_booking, update_booking,
}

-- Ids are distinct, and no row collides with a later one.
abbrev pub NoOverlap : List Booking → Type 0
NoOverlap [] = Unit
NoOverlap (b ∷ rows) = All (λ r. (r.id ≢ b.id) × (collide b r ≡ false)) rows × NoOverlap rows

pub collide_comm : (a b : Booking) → collide a b ≡ collide b a
unfolding collide
collide_comm a b = ground arith

append_clear :
    (a b : Booking) (rows : List Booking)
    → All (λ r. (r.id ≢ a.id) × (collide a r ≡ false)) rows
    → b.id ≢ a.id
    → collide a b ≡ false
    → All (λ r. (r.id ≢ a.id) × (collide a r ≡ false)) (rows ++ b ∷ [])
append_clear a b [] h ne c = ((ne, c), tt)
append_clear a b (r ∷ rows) h ne c = (h.0, append_clear a b rows h.1 ne c)

pub append-NoOverlap :
    (b : Booking) (rows : List Booking)
    → NoOverlap rows
    → All (λ r. r.id ≢ b.id) rows
    → any (other_collides b) rows ≡ false
    → NoOverlap (rows ++ b ∷ [])
append-NoOverlap b [] h new free = (tt, tt)
append-NoOverlap b (r ∷ rows) h new free = (
  append_clear r b rows h.0 (ground arith) (ground (arith, collide_comm r b)),
  append-NoOverlap b rows h.1 new.1 (ground arith),
)

-- A flush that inserts a row with a new id keeps the table free of overlaps.
pub insert-NoOverlap :
    (b : Booking) (rows rows' : List Booking)
    → NoOverlap rows
    → All (λ r. r.id ≢ b.id) rows
    → insert_booking b rows ≡ some rows'
    → NoOverlap rows'
unfolding insert_booking
insert-NoOverlap b rows rows' h new e = elim (Bool-cases (any (other_collides b) rows)) [
  | inl taken ↦ ground arith
  | inr free ↦ subst NoOverlap (ground arith) (append-NoOverlap b rows h new free)
]

put_clear :
    (a b : Booking) (rows : List Booking)
    → All (λ r. (r.id ≢ a.id) × (collide a r ≡ false)) rows
    → b.id ≢ a.id
    → collide a b ≡ false
    → All (λ r. (r.id ≢ a.id) × (collide a r ≡ false)) (put_booking b rows)
unfolding put_booking
put_clear a b [] h ne c = tt
put_clear a b (r ∷ rows) h ne c = elim (Bool-cases (r.id == b.id)) [
  | inl same ↦ rw same ((ne, c), put_clear a b rows h.1 ne c)
  | inr other ↦ rw other (h.0, put_clear a b rows h.1 ne c)
]

-- A row that takes the place of one with its id is clear of the rows that follow.
head_clear :
    (a b : Booking) (rows : List Booking)
    → a.id ≡ b.id
    → All (λ r. (r.id ≢ a.id) × (collide a r ≡ false)) rows
    → any (other_collides b) rows ≡ false
    → All (λ r. (r.id ≢ b.id) × (collide b r ≡ false)) (put_booking b rows)
unfolding put_booking
head_clear a b [] same h free = tt
head_clear a b (r ∷ rows) same h free =
    let apart : r.id ≢ b.id = ground arith in
    let other : (r.id == b.id) ≡ false = ground arith in
    rw other ((apart, ground arith), head_clear a b rows same h.1 (ground arith))

-- A write that collides with no other row keeps the table free of overlaps.
pub put-NoOverlap :
    (b : Booking) (rows : List Booking)
    → NoOverlap rows
    → any (other_collides b) rows ≡ false
    → NoOverlap (put_booking b rows)
unfolding put_booking
put-NoOverlap b [] h free = tt
put-NoOverlap b (r ∷ rows) h free = elim (Bool-cases (r.id == b.id)) [
  | inl same ↦ rw same (
    head_clear r b rows (ground arith) h.0 (ground arith),
    put-NoOverlap b rows h.1 (ground arith),
  )
  | inr other ↦ rw other (
    put_clear r b rows h.0 (ground arith) (ground (arith, collide_comm r b)),
    put-NoOverlap b rows h.1 (ground arith),
  )
]

pub update-NoOverlap :
    (b : Booking) (rows rows' : List Booking)
    → NoOverlap rows
    → update_booking b rows ≡ some rows'
    → NoOverlap rows'
unfolding update_booking
update-NoOverlap b rows rows' h e = elim (Bool-cases (any (other_collides b) rows)) [
  | inl taken ↦ ground arith
  | inr free ↦ subst NoOverlap (ground arith) (put-NoOverlap b rows h free)
]

-- A row that holds no slot collides with none.
pub idle_clear :
    (b : Booking) (rows : List Booking)
    → is_live b.status ≡ false
    → any (other_collides b) rows ≡ false
unfolding collide
idle_clear b [] h = refl
idle_clear b (r ∷ rows) h = ground (arith, idle_clear b rows h)
