-- ===== src/Mail/Mime/Addresses.antt =====
-- Which addresses are read: src/integrations/google/mime.py.
use inbox_pilot.Prelude.{
  ℕ, ◌==◌, ◌≡◌, refl, sym, subst, ◌∙◌, ◌&&◌, not, Bool, true, false, some, List, [], ◌∷◌, ◌++◌,
  strip, nonempty, text_eq, text_eq→eq, text_in, if◌then◌else◌, Bool-cases, inl, inr, arith,
}
use inbox_pilot.Mail.Mime.{
  Text, HeaderMap, before_c, has_c, after_c, AddressParser, canonical_address, canonical_step,
  canonical_into, recipient_addresses, addressed_to, raw_values, recipient_headers,
}

before_c-append : (c : ℕ) (s t : Text) → has_c c s ≡ false → before_c c (s ++ (c ∷ t)) ≡ s
before_c-append c [] t h = ground arith
before_c-append c (d ∷ s) t h =
    let apart : (d == c) ≡ false = ground arith in
    rw (apart, before_c-append c s t (ground arith)) refl

before_c-absent : (c : ℕ) (s : Text) → has_c c s ≡ false → before_c c s ≡ s
before_c-absent c [] h = refl
before_c-absent c (d ∷ s) h =
    let apart : (d == c) ≡ false = ground arith in
    rw (apart, before_c-absent c s (ground arith)) refl

after_c-append : (c : ℕ) (s t : Text) → has_c c s ≡ false → after_c c (s ++ (c ∷ t)) ≡ t
after_c-append c [] t h = ground arith
after_c-append c (d ∷ s) t h =
    let apart : (d == c) ≡ false = ground arith in
    rw (apart, after_c-append c s t (ground arith)) refl

has_c-append : (c : ℕ) (s t : Text) → has_c c (s ++ (c ∷ t)) ≡ true
has_c-append c [] t = ground arith
has_c-append c (d ∷ s) t = ground (arith, has_c-append c s t)

has_c-both : (c : ℕ) (s t : Text) → has_c c s ≡ false → has_c c t ≡ false → has_c c (s ++ t) ≡ false
has_c-both c [] t h k = k
has_c-both c (d ∷ s) t h k =
    let rest : has_c c (s ++ t) ≡ false = has_c-both c s t (ground arith) k in ground arith

text_eq_refl : (s : Text) → text_eq s s ≡ true
text_eq_refl [] = refl
text_eq_refl (c ∷ s) = ground (arith, text_eq_refl s)

text_in-append :
    (s t : Text) (ss : List Text) → text_in s ss ≡ true → text_in s (ss ++ (t ∷ [])) ≡ true
text_in-append s t [] h = absurd (ground arith)
text_in-append s t (u ∷ us) h = elim (Bool-cases (text_eq s u)) [
  | inl here ↦ rw here refl
  | inr other ↦ rw other (text_in-append s t us (rw other at h))
]

text_in-last : (s : Text) (ss : List Text) → text_in s (ss ++ (s ∷ [])) ≡ true
text_in-last s [] = rw (text_eq_refl s) refl
text_in-last s (u ∷ us) = elim (Bool-cases (text_eq s u)) [
  | inl here ↦ rw here refl
  | inr other ↦ rw other (text_in-last s us)
]

nonempty-append : (s t : Text) → nonempty s ≡ true → nonempty (s ++ t) ≡ true
nonempty-append [] t h = absurd (ground arith)
nonempty-append (c ∷ s) t h = refl

module _ (lib : AddressParser) where
  -- The address that a header value or an address comes to.
  abbrev pub address_in : Text → Text
  address_in value = lib.lower (strip (lib.parseaddr value))

  -- A mailbox with or without a tag is the mailbox.
  canonical-tagged :
      (user tag domain value : Text)
      → nonempty user ≡ true
      → nonempty domain ≡ true
      → has_c b'@' user ≡ false
      → has_c b'+' user ≡ false
      → has_c b'@' tag ≡ false
      → address_in value ≡ (user ++ (b'+' ∷ tag)) ++ (b'@' ∷ domain)
      → canonical_address lib value ≡ user ++ (b'@' ∷ domain)
  unfolding canonical_address
  canonical-tagged user tag domain value u d at plus tag_at e =
      let whole = user ++ (b'+' ∷ tag) in
      let no_at : has_c b'@' whole ≡ false = has_c-both b'@' user (b'+' ∷ tag) at (ground arith) in
      let full : nonempty whole ≡ true = nonempty-append user (b'+' ∷ tag) u in
      rw
        (
          e,
          has_c-append b'@' whole domain,
          before_c-append b'@' whole domain no_at,
          after_c-append b'@' whole domain no_at,
          full,
          d,
          before_c-append b'+' user tag plus,
        )
        refl

  canonical-plain :
      (user domain value : Text)
      → nonempty user ≡ true
      → nonempty domain ≡ true
      → has_c b'@' user ≡ false
      → has_c b'+' user ≡ false
      → address_in value ≡ user ++ (b'@' ∷ domain)
      → canonical_address lib value ≡ user ++ (b'@' ∷ domain)
  unfolding canonical_address
  canonical-plain user domain value u d at plus e =
      rw
        (
          e,
          has_c-append b'@' user domain,
          before_c-append b'@' user domain at,
          after_c-append b'@' user domain at,
          u,
          d,
          before_c-absent b'+' user plus,
        )
        refl

  canonical_into-keeps :
      (s : Text) (out as' : List Text)
      → text_in s out ≡ true
      → text_in s (canonical_into lib out as') ≡ true
  canonical_into-keeps s out [] h = h
  canonical_into-keeps s out (a ∷ as') h =
      let c = canonical_address lib a in
      canonical_into-keeps s (canonical_step lib out a) as'
        (kept (nonempty c && not (text_in c out)) c)
    where
      kept : (b : Bool) (c : Text) → text_in s (if b then out ++ (c ∷ []) else out) ≡ true
      kept true c = text_in-append s c out h
      kept false c = h

  entered :
      (c : Text) (out : List Text)
      → nonempty c ≡ true
      → text_in c (if nonempty c && not (text_in c out) then out ++ (c ∷ []) else out) ≡ true
  entered c out full = elim (Bool-cases (text_in c out)) [
    | inl there ↦ rw (full, there) there
    | inr new ↦ rw (full, new) (text_in-last c out)
  ]

  -- Every address that is parsed is among the recipients in its canonical form.
  canonical_into-has :
      (a : Text) (out as' : List Text)
      → text_in a as' ≡ true
      → nonempty (canonical_address lib a) ≡ true
      → text_in (canonical_address lib a) (canonical_into lib out as') ≡ true
  canonical_into-has a out [] there full = absurd (ground arith)
  canonical_into-has a out (b ∷ bs) there full = elim (Bool-cases (text_eq a b)) [
    | inr other ↦ canonical_into-has a (canonical_step lib out b) bs (rw other at there) full
    | inl same ↦
        (let q : a ≡ b = text_eq→eq a b same in
          let c = canonical_address lib a in
          let here : text_in c (if nonempty c && not (text_in c out) then out ++ (c ∷ []) else out)
              ≡ true =
            entered c out full in
          subst (λ x. text_in c (canonical_into lib out (x ∷ bs)) ≡ true) q
            (canonical_into-keeps c (canonical_step lib out a) bs here))
  ]

  -- Mail to the tagged alias of an account is mail to the account: if one of the addresses that
  -- are parsed from the To, Cc and Bcc of a message is user+tag@domain, the message counts as
  -- addressed to user@domain, whatever the tag is. The user is not empty and holds no + and no @,
  -- the tag holds no @, the domain is not empty.
  pub addressed_to-tagged :
      (header_map : HeaderMap) (user tag domain a account : Text)
      → nonempty user ≡ true
      → nonempty domain ≡ true
      → has_c b'@' user ≡ false
      → has_c b'+' user ≡ false
      → has_c b'@' tag ≡ false
      → text_in a (lib.getaddresses (raw_values recipient_headers header_map)) ≡ true
      → address_in a ≡ (user ++ (b'+' ∷ tag)) ++ (b'@' ∷ domain)
      → address_in account ≡ user ++ (b'@' ∷ domain)
      → nonempty account ≡ true
      → addressed_to lib header_map (some account) ≡ true
  unfolding addressed_to recipient_addresses
  addressed_to-tagged header_map user tag domain a account u d at plus tag_at there tagged plain
        given =
      let parsed = lib.getaddresses (raw_values recipient_headers header_map) in
      let t : canonical_address lib a ≡ user ++ (b'@' ∷ domain) =
        canonical-tagged user tag domain a u d at plus tag_at tagged in
      let p : canonical_address lib account ≡ user ++ (b'@' ∷ domain) =
        canonical-plain user domain account u d at plus plain in
      let full : nonempty (canonical_address lib a) ≡ true =
        rw t (nonempty-append user (b'@' ∷ domain) u) in
      let listed = canonical_into-has a [] parsed there full in rw (given, p ∙ sym t, listed) refl
