-- ===== src/Mail/Mime/Headers.antt =====
-- Which header is read: src/integrations/google/mime.py.
use inbox_pilot.Prelude.{
  ◌≡◌, refl, sym, ap, ◌∙◌, ◌&&◌, not, Bool, true, false, Option, none, some, List, [], ◌∷◌, ◌++◌,
  nonempty, text_eq, text_eq→eq, any, if◌then◌else◌, Bool-cases, inl, inr, arith,
}
use inbox_pilot.Mail.Mime.{
  Text, Header, text_of, HeaderMap, named, get, header_into, headers_into, headers,
}

-- The value of the first header of a name, however the name is written.
abbrev pub first_value : (Text → Text) → Text → List Header → Option Text
first_value lower name [] = none
first_value lower name (h ∷ hs) =
    let rest = first_value lower name hs in
    if text_eq (lower (text_of h.name)) name then some (text_of h.value) else rest

abbrev or_else : Option Text → Option Text → Option Text
or_else none fallback = fallback
or_else (some t) fallback = some t

get-append :
    (name : Text) (out : HeaderMap) (e : Text × Text)
    → get name (out ++ (e ∷ [])) ≡ or_else (get name out) (get name (e ∷ []))
get-append name [] e = refl
get-append name (d ∷ out) e = elim (Bool-cases (named name d)) [
  | inl here ↦ rw here refl
  | inr other ↦ rw other (get-append name out e)
]

get-none : (name : Text) (out : HeaderMap) → any (named name) out ≡ false → get name out ≡ none
get-none name [] h = refl
get-none name (d ∷ out) h = elim (Bool-cases (named name d)) [
  | inl here ↦ absurd (ground arith)
  | inr other ↦ rw other (get-none name out (ground arith))
]

get-some :
    (name : Text) (out : HeaderMap) (fallback : Option Text)
    → any (named name) out ≡ true
    → or_else (get name out) fallback ≡ get name out
get-some name [] fallback h = absurd (ground arith)
get-some name (d ∷ out) fallback h = elim (Bool-cases (named name d)) [
  | inl here ↦ rw here refl
  | inr other ↦ rw other (get-some name out fallback (ground arith))
]

or_else-none : (o : Option Text) → or_else o none ≡ o
or_else-none none = refl
or_else-none (some t) = refl

or_else_assoc : (a b c : Option Text) → or_else (or_else a b) c ≡ or_else a (or_else b c)
or_else_assoc none b c = refl
or_else_assoc (some t) b c = refl

-- A header that is put in is found under its name, unless the name was there.
get-put :
    (name key v : Text) (out : HeaderMap)
    → nonempty name ≡ true
    → get name (if nonempty key && not (any (named key) out) then out ++ ((key, v) ∷ []) else out)
      ≡ or_else (get name out) (if text_eq key name then some v else none)
get-put name key v out full = elim (Bool-cases (text_eq key name)) [
  | inl same ↦
      (let q : name ≡ key = sym (text_eq→eq key name same) in
        let full' : nonempty key ≡ true = rw⁻¹ q full in
        elim (Bool-cases (any (named key) out)) [
          | inl there ↦ rw (full', there) (sym (get-some name out _ (rw q there)))
          | inr new ↦ rw (full', new) (get-append name out (key, v) ∙ rw same refl)
        ])
  | inr other ↦
      (let single : get name ((key, v) ∷ []) ≡ none = rw other refl in
        elim (Bool-cases (nonempty key && not (any (named key) out))) [
          | inl put ↦ rw (put, other) (get-append name out (key, v) ∙ rw single refl)
          | inr kept ↦ rw (kept, other) (sym (or_else-none (get name out)))
        ])
]

either_first :
    (b : Bool) (v : Text) (rest : Option Text)
    → or_else (if b then some v else none) rest ≡ (if b then some v else rest)
either_first true v rest = refl
either_first false v rest = refl

get-headers_into :
    (lower : Text → Text) (name : Text) (out : HeaderMap) (hs : List Header)
    → nonempty name ≡ true
    → get name (headers_into lower out hs) ≡ or_else (get name out) (first_value lower name hs)
get-headers_into lower name out [] full = sym (or_else-none (get name out))
get-headers_into lower name out (h ∷ hs) full =
    let key = lower (text_of h.name) in
    get-headers_into lower name (header_into lower out h) hs full
    ∙ ap (λ o. or_else o (first_value lower name hs)) (get-put name key (text_of h.value) out full)
    ∙ or_else_assoc (get name out) _ (first_value lower name hs)
    ∙ ap (or_else (get name out))
        (either_first (text_eq key name) (text_of h.value) (first_value lower name hs))

-- The map of a message's headers holds under every name that is not empty, in lower case, the
-- value of the first header of that name, and nothing if there is none.
pub headers-first :
    (lower : Text → Text) (name : Text) (hs : List Header)
    → nonempty name ≡ true
    → get name (headers lower hs) ≡ first_value lower name hs
unfolding headers
headers-first lower name hs full = get-headers_into lower name [] hs full
