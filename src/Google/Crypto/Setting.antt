-- ===== src/Google/Crypto/Setting.antt =====
-- The keys that a setting holds: `_fernet` of src/core/crypto.py.
use mathlib.Core.List.{reverse, reverse-append, reverse-cons, reverse-reverse}
use inbox_pilot.Prelude.{
  ℕ, zero, suc, ◌==◌, ◌≡◌, refl, sym, ap, subst, ◌∙◌, false, some, List, [], ◌∷◌, ◌++◌, map, filter,
  nonempty, All, is_space, ok, arith,
}
use inbox_pilot.Prelude.Text.{lstrip, strip}
use inbox_pilot.Google.Crypto.{Fernet, split_commas, usable, fernets, fernet_of, multi_fernet}

abbrev pub blanks : ℕ → List ℕ
blanks zero = []
blanks (suc n) = b' ' ∷ blanks n

-- A text between commas, with blanks around it.
abbrev pub padded : ℕ → List ℕ → ℕ → List ℕ
padded m w n = blanks m ++ (w ++ blanks n)

abbrev pub joined : List (List ℕ) → List ℕ
joined [] = []
joined (e ∷ []) = e
joined (e ∷ f ∷ es) = e ++ (b',' ∷ joined (f ∷ es))

-- The characters of a key: no white space and no comma.
abbrev pub IsPlain : List ℕ → Type 0
IsPlain w = All (λ c. (is_space c ≡ false) × ((c == b',') ≡ false)) w

abbrev HasNoComma : List ℕ → Type 0
HasNoComma w = All (λ c. (c == b',') ≡ false) w

append-HasNoComma : (s t : List ℕ) → HasNoComma s → HasNoComma t → HasNoComma (s ++ t)
append-HasNoComma [] t h k = k
append-HasNoComma (c ∷ s) t (h, hs) k = (h, append-HasNoComma s t hs k)

blanks-HasNoComma : (n : ℕ) → HasNoComma (blanks n)
blanks-HasNoComma zero = tt
blanks-HasNoComma (suc n) = (refl, blanks-HasNoComma n)

plain-HasNoComma : (w : List ℕ) → IsPlain w → HasNoComma w
plain-HasNoComma [] h = tt
plain-HasNoComma (c ∷ w) ((dark, other), h) = (other, plain-HasNoComma w h)

padded-HasNoComma : (m : ℕ) (w : List ℕ) (n : ℕ) → IsPlain w → HasNoComma (padded m w n)
padded-HasNoComma m w n h =
    append-HasNoComma (blanks m) _ (blanks-HasNoComma m)
      (append-HasNoComma w (blanks n) (plain-HasNoComma w h) (blanks-HasNoComma n))

split_commas-one : (w : List ℕ) → HasNoComma w → split_commas w ≡ w ∷ []
split_commas-one [] h = refl
split_commas-one (c ∷ w) (other, h) = rw (other, split_commas-one w h) refl

split_commas-first :
    (w s : List ℕ) → HasNoComma w → split_commas (w ++ (b',' ∷ s)) ≡ w ∷ split_commas s
split_commas-first [] s h = refl
split_commas-first (c ∷ w) s (other, h) = rw (other, split_commas-first w s h) refl

split_commas-joined :
    (e : List ℕ) (es : List (List ℕ))
    → All HasNoComma (e ∷ es)
    → split_commas (joined (e ∷ es)) ≡ e ∷ es
split_commas-joined e [] (h, hs) = split_commas-one e h
split_commas-joined e (f ∷ es) (h, hs) =
    split_commas-first e _ h ∙ ap (λ rest. e ∷ rest) (split_commas-joined f es hs)

lstrip-blanks : (n : ℕ) (s : List ℕ) → lstrip (blanks n ++ s) ≡ lstrip s
unfolding lstrip
lstrip-blanks zero s = refl
lstrip-blanks (suc n) s = lstrip-blanks n s

lstrip-plain : (c : ℕ) (w s : List ℕ) → is_space c ≡ false → lstrip ((c ∷ w) ++ s) ≡ (c ∷ w) ++ s
unfolding lstrip
lstrip-plain c w s dark = rw dark refl

blanks-more : (n : ℕ) → blanks n ++ (b' ' ∷ []) ≡ b' ' ∷ blanks n
blanks-more zero = refl
blanks-more (suc n) = ap (λ s. b' ' ∷ s) (blanks-more n)

reverse-blanks : (n : ℕ) → reverse (blanks n) ≡ blanks n
reverse-blanks zero = refl
reverse-blanks (suc n) =
    reverse-cons b' ' (blanks n) ∙ ap (λ s. s ++ (b' ' ∷ [])) (reverse-blanks n) ∙ blanks-more n

append-IsPlain : (s t : List ℕ) → IsPlain s → IsPlain t → IsPlain (s ++ t)
append-IsPlain [] t h k = k
append-IsPlain (c ∷ s) t (h, hs) k = (h, append-IsPlain s t hs k)

reverse-IsPlain : (w : List ℕ) → IsPlain w → IsPlain (reverse w)
reverse-IsPlain [] h = tt
reverse-IsPlain (c ∷ w) (h, hs) =
    subst IsPlain (sym (reverse-cons c w))
      (append-IsPlain (reverse w) (c ∷ []) (reverse-IsPlain w hs) (h, tt))

lstrip-IsPlain : (w : List ℕ) → IsPlain w → lstrip w ≡ w
unfolding lstrip
lstrip-IsPlain [] h = refl
lstrip-IsPlain (c ∷ w) ((dark, other), h) = rw dark refl

strip-padded :
    (m : ℕ) (c : ℕ) (w : List ℕ) (n : ℕ) → IsPlain (c ∷ w) → strip (padded m (c ∷ w) n) ≡ c ∷ w
unfolding strip
strip-padded m c w n h =
    let key : List ℕ = c ∷ w in
    let left : lstrip (padded m key n) ≡ key ++ blanks n =
      lstrip-blanks m (key ++ blanks n) ∙ lstrip-plain c w (blanks n) h.0.0 in
    let turned : reverse (key ++ blanks n) ≡ blanks n ++ reverse key =
      reverse-append key (blanks n) ∙ ap (λ s. s ++ reverse key) (reverse-blanks n) in
    let right : lstrip (blanks n ++ reverse key) ≡ reverse key =
      lstrip-blanks n (reverse key) ∙ lstrip-IsPlain (reverse key) (reverse-IsPlain key h) in
    ap (λ s. reverse (lstrip (reverse s))) left
    ∙ ap (λ s. reverse (lstrip s)) turned
    ∙ ap reverse right
    ∙ reverse-reverse key

lstrip-blank : (n : ℕ) → lstrip (blanks n) ≡ []
unfolding lstrip
lstrip-blank zero = refl
lstrip-blank (suc n) = lstrip-blank n

strip-blanks : (n : ℕ) → strip (blanks n) ≡ []
unfolding strip lstrip
strip-blanks n = ap (λ s. reverse (lstrip (reverse s))) (lstrip-blank n)

module _ {K : Type 0} (lib : Fernet K) where
  -- The texts between the commas of a setting, and the keys that they stand for, in their order: a
  -- blank text stands for none.
  pub data Spells : List (List ℕ) → List K → Type 0 where
    done : Spells [] []
    blank : (n : ℕ) (es : List (List ℕ)) (ks : List K) → Spells es ks → Spells (blanks n ∷ es) ks
    key :
        (m : ℕ) (c : ℕ) (w : List ℕ) (n : ℕ) (k : K) (es : List (List ℕ)) (ks : List K)
        → IsPlain (c ∷ w)
        → lib.fernet (c ∷ w) ≡ some k
        → Spells es ks
        → Spells (padded m (c ∷ w) n ∷ es) (k ∷ ks)

  Spells-HasNoComma : {es : List (List ℕ)} {ks : List K} → Spells es ks → All HasNoComma es
  Spells-HasNoComma done = tt
  Spells-HasNoComma (blank n es ks s) = (blanks-HasNoComma n, Spells-HasNoComma s)
  Spells-HasNoComma (key m c w n k es ks plain e s) =
      (padded-HasNoComma m (c ∷ w) n plain, Spells-HasNoComma s)

  Spells-fernets :
      {es : List (List ℕ)} {ks : List K}
      → Spells es ks
      → fernets lib (filter nonempty (map strip es)) ≡ some ks
  Spells-fernets done = refl
  Spells-fernets (blank n es ks s) = rw (strip-blanks n) (Spells-fernets s)
  Spells-fernets (key m c w n k es ks plain e s) =
      rw (strip-padded m c w n plain, e, Spells-fernets s) refl

  usable-fernets :
      (texts : List (List ℕ)) (k : K) (ks : List K)
      → fernets lib texts ≡ some (k ∷ ks)
      → fernet_of lib texts ≡ ok (k ∷ ks)
  usable-fernets [] k ks e = absurd (ground arith)
  usable-fernets (t ∷ texts) k ks e = ap usable e

  -- The keys of a setting's MultiFernet.
  pub multi_fernet-Spells :
      (es : List (List ℕ)) (k : K) (ks : List K)
      → Spells es (k ∷ ks)
      → multi_fernet lib (joined es) ≡ ok (k ∷ ks)
  unfolding multi_fernet
  multi_fernet-Spells es k ks s = all_of es s (Spells-HasNoComma s)
    where
      all_of :
          (es : List (List ℕ))
          → Spells es (k ∷ ks)
          → All HasNoComma es
          → fernet_of lib (filter nonempty (map strip (split_commas (joined es)))) ≡ ok (k ∷ ks)
      all_of [] s h = absurd (let e = Spells-fernets s in ground arith)
      all_of (e ∷ es) s h =
          ap (λ texts. fernet_of lib (filter nonempty (map strip texts)))
            (split_commas-joined e es h)
          ∙ usable-fernets _ k ks (Spells-fernets s)
