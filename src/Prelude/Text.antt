-- ===== src/Prelude/Text.antt =====
-- Text as the list of its code points, and clock times.
use Prim.Native.Nat.{ℕ, ◌+◌, ◌-◌, ◌*◌}
use Prim.Native.Char.{code}
use Prim.Native.String.{String}
use mathlib.Core.Path.{◌≡◌, refl, ap, ◌∙◌}
use native.Mathlib.Omega.{arith}
use mathlib.Core.Bool.{Bool, ◌&&◌, ◌||◌, true, false}
use mathlib.Core.Option.{Option, none, some}
use mathlib.Core.List.{List, [], ◌∷◌, ◌++◌, reverse}
use text.Mathlib.TextEquality.{Char-path}
use inbox_pilot.Prelude.Tests.{leb, ltb, ◌==◌, if◌then◌else◌}

abbrev pub codes : String → List ℕ
codes String.[] = []
codes (String.◌∷◌ c s) = code c ∷ codes s

-- The characters that `str.strip` takes off.
abbrev pub is_space : ℕ → Bool
is_space c =
    c == 32
    || ((leb 9 c && leb c 13)
        || ((leb 28 c && leb c 31)
            || (c == 0x85
                || (c == 0xa0
                    || (c == 0x1680
                        || ((leb 0x2000 c && leb c 0x200a)
                            || (c == 0x2028
                                || (c == 0x2029
                                    || (c == 0x202f || (c == 0x205f || c == 0x3000))))))))))

unfoldable pub lstrip : List ℕ → List ℕ
lstrip [] = []
lstrip (c ∷ cs) = let rest = lstrip cs in if is_space c then rest else c ∷ cs

-- `s.strip()`
unfoldable pub strip : List ℕ → List ℕ
unfolding lstrip
strip s = reverse (lstrip (reverse (lstrip s)))

-- Equality of texts.
abbrev pub text_eq : List ℕ → List ℕ → Bool
text_eq [] [] = true
text_eq [] (d ∷ t) = false
text_eq (c ∷ s) [] = false
text_eq (c ∷ s) (d ∷ t) = c == d && text_eq s t

pub text_eq→eq : (s t : List ℕ) → text_eq s t ≡ true → s ≡ t
text_eq→eq [] [] h = refl
text_eq→eq [] (d ∷ t) h = absurd (ground arith)
text_eq→eq (c ∷ s) [] h = absurd (ground arith)
text_eq→eq (c ∷ s) (d ∷ t) h =
    let q : c ≡ d = ground arith in let q' : s ≡ t = text_eq→eq s t (ground arith) in cc

pub text_eq-codes : (s t : String) → text_eq (codes s) (codes t) ≡ true → s ≡ t
text_eq-codes String.[] String.[] h = refl
text_eq-codes String.[] (String.◌∷◌ d t) h = absurd (ground arith)
text_eq-codes (String.◌∷◌ c s) String.[] h = absurd (ground arith)
text_eq-codes (String.◌∷◌ c s) (String.◌∷◌ d t) h =
    let q : code c ≡ code d = ground arith in
    let first : c ≡ d = Char-path c d q in
    let rest : s ≡ t = text_eq-codes s t (ground arith) in
    ap (λ x. String.◌∷◌ x s) first ∙ ap (λ x. String.◌∷◌ d x) rest

-- What follows a common beginning.
pub text_eq-append : (p s t : List ℕ) → text_eq (p ++ s) (p ++ t) ≡ text_eq s t
text_eq-append [] s t = refl
text_eq-append (c ∷ p) s t = ground (arith, text_eq-append p s t)

abbrev pub text_in : List ℕ → List (List ℕ) → Bool
text_in s [] = false
text_in s (t ∷ ts) = text_eq s t || text_in s ts

-- A text that is not empty.
abbrev pub nonempty : List ℕ → Bool
nonempty [] = false
nonempty (c ∷ s) = true

abbrev pub is_digit : ℕ → Bool
is_digit c = leb b'0' c && leb c b'9'

-- "HH:MM", as the schemas normalise every clock time that they store, in minutes since midnight;
-- `none` is the ValueError.
hh_mm : List ℕ → Option ℕ
hh_mm (a ∷ b ∷ c ∷ d ∷ e ∷ []) =
    let hour = (a - b'0') * 10 + (b - b'0') in
    let minute = (d - b'0') * 10 + (e - b'0') in
    if is_digit a
      && (is_digit b
          && (c == b':' && (is_digit d && (is_digit e && (ltb hour 24 && ltb minute 60)))))
    then some (hour * 60 + minute)
    else none
hh_mm _ = none

unfoldable pub clock_minutes : String → Option ℕ
unfolding hh_mm
clock_minutes value = hh_mm (codes value)
