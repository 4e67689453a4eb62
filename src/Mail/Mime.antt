-- ===== src/Mail/Mime.antt =====
-- Headers and addresses of a message: src/integrations/google/mime.py. What the code uses of
-- Python's email, html and base64 packages, and `str.lower`, are section parameters.
pub mod Headers
pub mod Addresses
pub mod Parts
use inbox_pilot.Prelude.{
  ℕ, ◌==◌, ◌&&◌, ◌||◌, not, Bool, true, false, Option, none, some, List, [], ◌∷◌, ◌++◌, codes,
  strip, nonempty, text_eq, text_in, find?, any, is_some, if◌then◌else◌,
}

abbrev pub Text : Type 0
Text = List ℕ

-- A header as Gmail gives it: either half may be missing.
pub record Header : Type 0 where
  pub name : Option Text
  pub value : Option Text

abbrev pub text_of : Option Text → Text
text_of none = []
text_of (some t) = t

-- A dict of headers, in the order of insertion.
abbrev pub HeaderMap : Type 0
HeaderMap = List (Text × Text)

abbrev pub named : Text → Text × Text → Bool
named name entry = text_eq entry.0 name

abbrev pub value_of : Option (Text × Text) → Option Text
value_of none = none
value_of (some (name, value)) = some value

-- `out.get(name)`
abbrev pub get : Text → HeaderMap → Option Text
get name out = value_of (find? (named name) out)

abbrev pub header_into : (Text → Text) → HeaderMap → Header → HeaderMap
header_into lower out h =
    let name = lower (text_of h.name) in
    if nonempty name && not (any (named name) out)
    then out ++ ((name, text_of h.value) ∷ [])
    else out

abbrev pub headers_into : (Text → Text) → HeaderMap → List Header → HeaderMap
headers_into lower out [] = out
headers_into lower out (h ∷ hs) = headers_into lower (header_into lower out h) hs

unfoldable pub headers : (Text → Text) → List Header → HeaderMap
headers lower hs = headers_into lower [] hs

-- `text.partition(c)`: what stands before the first c, whether there is one, and what stands
-- behind it.
abbrev pub before_c : ℕ → Text → Text
before_c c [] = []
before_c c (d ∷ ds) = let rest = before_c c ds in if d == c then [] else d ∷ rest

abbrev pub has_c : ℕ → Text → Bool
has_c c [] = false
has_c c (d ∷ ds) = d == c || has_c c ds

abbrev pub after_c : ℕ → Text → Text
after_c c [] = []
after_c c (d ∷ ds) = let rest = after_c c ds in if d == c then ds else rest

-- `parseaddr` and `getaddresses`, less the display names.
pub record AddressParser : Type 0 where
  pub lower : Text → Text
  pub parseaddr : Text → Text
  pub getaddresses : List Text → List Text

abbrev pub recipient_headers : List Text
recipient_headers = codes "to" ∷ codes "cc" ∷ codes "bcc" ∷ []

abbrev pub raw_values : List Text → HeaderMap → List Text
raw_values [] header_map = []
raw_values (name ∷ names) header_map =
    let value = strip (text_of (get name header_map)) in
    let rest = raw_values names header_map in if nonempty value then value ∷ rest else rest

module _ (lib : AddressParser) where
  unfoldable pub canonical_address : Text → Text
  canonical_address value =
      let address = lib.lower (strip (lib.parseaddr value)) in
      let local_part = before_c b'@' address in
      let domain = after_c b'@' address in
      if has_c b'@' address && (nonempty local_part && nonempty domain)
      then before_c b'+' local_part ++ (b'@' ∷ domain)
      else []

  abbrev pub canonical_step : List Text → Text → List Text
  canonical_step out a =
      let canonical = canonical_address a in
      if nonempty canonical && not (text_in canonical out) then out ++ (canonical ∷ []) else out

  abbrev pub canonical_into : List Text → List Text → List Text
  canonical_into out [] = out
  canonical_into out (a ∷ as') = canonical_into (canonical_step out a) as'

  unfoldable pub recipient_addresses : HeaderMap → List Text
  recipient_addresses header_map =
      canonical_into [] (lib.getaddresses (raw_values recipient_headers header_map))

  -- `addressed_to` is called with one address, which may be missing.
  abbrev pub addressed : Option Text → List Text → Bool
  addressed none recipients = false
  addressed (some a) recipients = nonempty a && text_in (canonical_address a) recipients

  unfoldable pub addressed_to : HeaderMap → Option Text → Bool
  addressed_to header_map address = addressed address (recipient_addresses header_map)
