-- ===== src/Mail/Mime/Parts.antt =====
-- The tree of a message's parts, and the text that is read from it: `decode_body`, `walk` and what
-- stands behind them in src/integrations/google/mime.py. Bytes are lists of numbers.
pub mod Bounded
use inbox_pilot.Prelude.{
  ℕ, zero, suc, ◌+◌, ◌-◌, ◌%◌, ltb, ◌==◌, ◌&&◌, ◌||◌, not, Bool, true, false, Option, none, some,
  List, [], ◌∷◌, ◌++◌, codes, strip, nonempty, text_eq, length, if◌then◌else◌,
}
use inbox_pilot.Mail.Mime.{Text, Header, text_of, before_c}

-- A part's own fields.
pub record Fields : Type 0 where
  pub mime_type : Option Text
  pub filename : Option Text
  pub body_data : Option Text
  pub headers : List Header

mutual
  pub data Part : Type 0 where
    part : Fields → Parts → Part

  pub data Parts : Type 0 where
    nil : Parts
    cons : Part → Parts → Parts

abbrev pub max_depth : ℕ
max_depth = 10

abbrev pub max_body_chars : ℕ
max_body_chars = 500000

-- What the code uses of Python: `str.lower`, `urlsafe_b64decode` and `bytes.decode`, which may
-- raise, `bytes.decode` with replacement characters, `html.unescape`, and `strip_html`.
pub record Decoder : Type 0 where
  pub lower : Text → Text
  pub urlsafe_b64decode : Text → Option (List ℕ)
  pub decode : List ℕ → Text → Option Text
  pub decode_replacing : List ℕ → Text
  pub unescape : Text → Text
  pub strip_html : Text → Text

abbrev pub starts_with : Text → Text → Bool
starts_with [] t = true
starts_with (c ∷ s) [] = false
starts_with (c ∷ s) (d ∷ t) = c == d && starts_with s t

abbrev drop : ℕ → Text → Text
drop zero t = t
drop (suc n) [] = []
drop (suc n) (c ∷ t) = drop n t

-- `sub in text`, and `text.split(sub, 1)[1]`.
abbrev pub has_sub : Text → Text → Bool
has_sub sub [] = starts_with sub []
has_sub sub (c ∷ t) = starts_with sub (c ∷ t) || has_sub sub t

abbrev pub behind : Text → Text → Text
behind sub [] = []
behind sub (c ∷ t) =
    let rest = behind sub t in if starts_with sub (c ∷ t) then drop (length sub) (c ∷ t) else rest

-- `text.strip("\"'")`
abbrev is_quote : ℕ → Bool
is_quote c = c == 34 || c == 39

abbrev unquote_left : Text → Text
unquote_left [] = []
unquote_left (c ∷ t) = let rest = unquote_left t in if is_quote c then rest else c ∷ t

abbrev unquote_right : Text → Text
unquote_right [] = []
unquote_right (c ∷ t) =
    let rest = unquote_right t in if is_quote c && not (nonempty rest) then [] else c ∷ rest

abbrev pub strip_quotes : Text → Text
strip_quotes t = unquote_right (unquote_left t)

abbrev repeat : ℕ → ℕ → Text
repeat zero c = []
repeat (suc n) c = c ∷ repeat n c

-- `data + "=" * (-len(data) % 4)`
abbrev pub padded : Text → Text
padded t = t ++ repeat ((4 - length t % 4) % 4) b'='

abbrev pub if_text : Text → Option Text
if_text t = if nonempty t then some t else none

module _ (lib : Decoder) where
  -- `_charset`: of the first Content-Type alone.
  unfoldable pub charset : List Header → Option Text
  charset [] = none
  charset (h ∷ hs) =
      let rest = charset hs in
      let value = lib.lower (text_of h.value) in
      if text_eq (lib.lower (text_of h.name)) (codes "content-type")
      then (if has_sub (codes "charset=") value
          then if_text (strip_quotes (strip (before_c b';' (behind (codes "charset=") value))))
          else none)
      else rest

  abbrev decoded_or : Option Text → Text → Text
  decoded_or none fallback = fallback
  decoded_or (some t) fallback = t

  abbrev pub in_utf8 : List ℕ → Text
  in_utf8 raw = decoded_or (lib.decode raw (codes "utf-8")) (lib.decode_replacing raw)

  abbrev pub in_charset : List ℕ → Option Text → Text
  in_charset raw none = in_utf8 raw
  in_charset raw (some c) = decoded_or (lib.decode raw c) (in_utf8 raw)

  abbrev pub decoded : Option (List ℕ) → Option Text → Text
  decoded none c = []
  decoded (some raw) c = in_charset raw c

  abbrev pub decode_data : Option Text → Option Text → Text
  decode_data none c = []
  decode_data (some t) c = if nonempty t then decoded (lib.urlsafe_b64decode (padded t)) c else []

  unfoldable pub decode_body : Fields → Text
  decode_body f = decode_data f.body_data (charset f.headers)

-- What a walk has gathered.
pub record Gathered : Type 0 where
  pub plain : List Text
  pub markup : List Text
  pub attachments : List Text

abbrev pub total : List Text → ℕ
total [] = 0
total (t ∷ ts) = length t + total ts

module _ (lib : Decoder) where
  -- A part that is neither an attachment nor a container.
  abbrev pub take_leaf : Fields → Text → Gathered → Gathered
  take_leaf f mime_type g =
      if text_eq mime_type (codes "text/plain") && ltb (total g.plain) max_body_chars
      then record g { plain = g.plain ++ (decode_body lib f ∷ []) }
      else if text_eq mime_type (codes "text/html") && ltb (total g.markup) max_body_chars
      then record g { markup = g.markup ++ (decode_body lib f ∷ []) }
      else g

  abbrev pub take_part : Fields → Gathered → Gathered → Gathered
  take_part f g children =
      let mime_type = lib.lower (text_of f.mime_type) in
      if nonempty (text_of f.filename)
      then record g { attachments = g.attachments ++ (text_of f.filename ∷ []) }
      else if starts_with (codes "multipart/") mime_type
      then children
      else take_leaf f mime_type g

  -- `_visit`; what it makes of the children is taken for a container alone.
  mutual
    pub visit : Part → ℕ → Gathered → Gathered
    visit (part f children) depth g =
        let inner = visit_all children (suc depth) g in
        if ltb max_depth depth then g else take_part f g inner

    pub visit_all : Parts → ℕ → Gathered → Gathered
    visit_all nil depth g = g
    visit_all (cons p ps) depth g = visit_all ps depth (visit p depth g)

  abbrev pub nothing : Gathered
  nothing = record { plain = []; markup = []; attachments = [] }

  -- `"\n".join(t for t in texts if t)`
  abbrev pub join_lines : List Text → Text
  join_lines [] = []
  join_lines (t ∷ ts) =
      let rest = join_lines ts in
      if nonempty t then (if nonempty rest then t ++ (10 ∷ rest) else t) else rest

  unfoldable pub walk : Part → Text × Text × List Text
  walk payload =
      let g = visit payload 0 nothing in (join_lines g.plain, join_lines g.markup, g.attachments)

  unfoldable pub body_text : Part → Text × List Text
  body_text payload =
      let (plain, markup, attachments) = walk payload in
      let text = strip plain in
      (
        if nonempty text then text else if nonempty markup then lib.strip_html markup else [],
        attachments,
      )

  -- Gmail's preview, or the fallback.
  unfoldable pub snippet_of : Option Text → Text → Text
  snippet_of snippet fallback =
      let text = strip (lib.unescape (text_of snippet)) in
      if nonempty text then text else strip fallback

  unfoldable pub reply_subject : Option Text → Text
  reply_subject subject =
      let text = strip (text_of subject) in
      if nonempty text
      then (if starts_with (codes "re:") (lib.lower text) then text else codes "Re: " ++ text)
      else codes "Re:"

-- Of both texts those that are not blank, stripped and joined by a space.
abbrev both_texts : Text → Text → Text
both_texts [] b = b
both_texts (c ∷ a) [] = c ∷ a
both_texts (c ∷ a) (d ∷ b) = (c ∷ a) ++ (b' ' ∷ (d ∷ b))

unfoldable pub build_references : Option Text → Option Text → Option Text
build_references previous_references message_id =
    if_text (both_texts (strip (text_of previous_references)) (strip (text_of message_id)))
