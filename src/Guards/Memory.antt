-- ===== src/Guards/Memory.antt =====
-- A Redis that keeps its entries in a function, with the laws that Guards.Redis asks for.
use inbox_pilot.Prelude.{
  ℕ, ◌+◌, ◌≡◌, suc, refl, Bool, true, false, none, some, List, [], ◌∷◌, text_eq, is_some, not,
  Bool-cases, inl, inr, if◌then◌else◌, arith,
}
use inbox_pilot.Guards.{Entry, seen, count, until, expiring, Redis}

abbrev pub Memory : Type 0
Memory = List ℕ → Entry

abbrev pub written : List ℕ → Entry → Memory → Memory
written k e s j = if text_eq j k then e else s j

text_eq_refl : (k : List ℕ) → text_eq k k ≡ true
text_eq_refl [] = refl
text_eq_refl (c ∷ k) = ground (arith, text_eq_refl k)

pub written_at : (k : List ℕ) (e : Entry) (s : Memory) → written k e s k ≡ e
written_at k e s = rw (text_eq_refl k) refl

abbrev pub nx : List ℕ → ℕ → ℕ → Memory → Bool × Memory
nx k ttl now s =
    if is_some (seen now (s k))
    then (false, s)
    else (true, written k (some (1, some (now + ttl))) s)

pub nx-answer :
    (k : List ℕ) (ttl now : ℕ) (s : Memory) → (nx k ttl now s).0 ≡ not (is_some (seen now (s k)))
nx-answer k ttl now s = ground arith

pub nx-entry :
    (k : List ℕ) (ttl now : ℕ) (s : Memory)
    → (nx k ttl now s).1 k ≡ (if is_some (seen now (s k)) then s k else some (1, some (now + ttl)))
nx-entry k ttl now s = elim (Bool-cases (is_some (seen now (s k)))) [
  | inl there ↦ rw there refl
  | inr free ↦ rw free (written_at k _ s)
]

pub nx-other :
    (k k' : List ℕ) (ttl now : ℕ) (s : Memory) → text_eq k' k ≡ false → (nx k ttl now s).1 k' ≡ s k'
nx-other k k' ttl now s apart = elim (Bool-cases (is_some (seen now (s k)))) [
  | inl there ↦ rw there refl
  | inr free ↦ rw (free, apart) refl
]

abbrev pub memory : Redis Memory
memory = record {
  entry = λ s k. s k;
  set_nx = λ k ttl now s. nx k ttl now s;
  set = λ k ttl now s. written k (some (1, some (now + ttl))) s;
  incr = λ k now s. (
    suc (count (seen now (s k))),
    written k (some (suc (count (seen now (s k))), until (seen now (s k)))) s,
  );
  expire = λ k ttl now s. written k (expiring (seen now (s k)) (now + ttl)) s;
  delete = λ k s. written k none s;
  set_nx-answer = λ k ttl now s. nx-answer k ttl now s;
  set_nx-entry = λ k ttl now s. nx-entry k ttl now s;
  set_nx-other = λ k k' ttl now s apart. nx-other k k' ttl now s apart;
  set-entry = λ k ttl now s. written_at k _ s;
  incr-answer = λ k now s. refl;
  incr-entry = λ k now s. written_at k _ s;
  expire-entry = λ k ttl now s. written_at k _ s;
  delete-entry = λ k s. written_at k _ s;
}

abbrev pub empty : Memory
empty k = none
