-- ===== src/Scheduling/Slots/Order.antt =====
-- The set that `sorted` puts in order: src/services/scheduling/slots.py.
use inbox_pilot.Prelude.{ℕ, ◌<◌, ◌==◌, ◌≡◌, refl, ◌||◌, List, [], ◌∷◌, ◌++◌, elem, All, arith}
use inbox_pilot.Scheduling.Slots.{insert_sorted, sorted_set}

-- Strictly ascending: in order, and each time once.
abbrev pub Ascending : List ℕ → Type 0
Ascending [] = Unit
Ascending (x ∷ xs) = All (λ y. x < y) xs × Ascending xs

pub elem-append : (x : ℕ) (xs ys : List ℕ) → elem x (xs ++ ys) ≡ (elem x xs || elem x ys)
elem-append x [] ys = refl
elem-append x (y ∷ xs) ys = ground (arith, elem-append x xs ys)

elem-insert : (x y : ℕ) (ys : List ℕ) → elem x (insert_sorted y ys) ≡ ((x == y) || elem x ys)
unfolding insert_sorted
elem-insert x y [] = refl
elem-insert x y (z ∷ ys) = ground (arith, elem-insert x y ys)

pub elem-sorted_set : (x : ℕ) (xs : List ℕ) → elem x (sorted_set xs) ≡ elem x xs
unfolding sorted_set
elem-sorted_set x [] = refl
elem-sorted_set x (y ∷ xs) = ground (arith, elem-insert x y (sorted_set xs), elem-sorted_set x xs)

below_insert :
    (b x : ℕ) (xs : List ℕ) → b < x → All (λ y. b < y) xs → All (λ y. b < y) (insert_sorted x xs)
unfolding insert_sorted
below_insert b x [] h k = (h, tt)
below_insert b x (y ∷ ys) h k = ground (arith, below_insert b x ys h k.1)

below_trans : (x y : ℕ) (ys : List ℕ) → x < y → All (λ z. y < z) ys → All (λ z. x < z) ys
below_trans x y [] h k = tt
below_trans x y (z ∷ ys) h k = (omega arith, below_trans x y ys h k.1)

insert-Ascending : (x : ℕ) (xs : List ℕ) → Ascending xs → Ascending (insert_sorted x xs)
unfolding insert_sorted
insert-Ascending x [] h = (tt, tt)
insert-Ascending x (y ∷ ys) h =
    ground (arith, below_insert y x ys, insert-Ascending x ys h.1, below_trans x y ys)

pub sorted_set-Ascending : (xs : List ℕ) → Ascending (sorted_set xs)
unfolding sorted_set
sorted_set-Ascending [] = tt
sorted_set-Ascending (x ∷ xs) = insert-Ascending x (sorted_set xs) (sorted_set-Ascending xs)
