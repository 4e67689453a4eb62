-- ===== src/Mail/Mime/Parts/Bounded.antt =====
-- What a walk over a message's parts reads, and how much: src/integrations/google/mime.py.
use inbox_pilot.Prelude.{
  ℕ, suc, ◌<◌, ltb, ltb→lt, ◌≡◌, refl, sym, ap, ◌∙◌, ◌⊎◌, ◌&&◌, Bool, true, false, List, [], ◌∷◌,
  ◌++◌, codes, nonempty, text_eq, if◌then◌else◌, Bool-cases, inl, inr, arith,
}
use inbox_pilot.Mail.Mime.{Text, text_of}
use inbox_pilot.Mail.Mime.Parts.{
  Fields, Part, Parts, max_depth, max_body_chars, Decoder, starts_with, decode_body, Gathered,
  total, take_leaf, take_part, visit, visit_all, nothing, join_lines, walk,
}

module _ (lib : Decoder) where
  abbrev is_container : Fields → Bool
  is_container f = starts_with (codes "multipart/") (lib.lower (text_of f.mime_type))

  abbrev is_attachment : Fields → Bool
  is_attachment f = nonempty (text_of f.filename)

  -- Messages that differ only where a walk does not look: more than ten levels down, in all of an
  -- attachment but its name, and below a part that is no container.
  mutual
    pub data Alike : ℕ → Part → Part → Type 0 where
      deep : (depth : ℕ) (p q : Part) → ltb max_depth depth ≡ true → Alike depth p q
      attached :
          (depth : ℕ) (f f' : Fields) (ps qs : Parts)
          → is_attachment f ≡ true
          → f.filename ≡ f'.filename
          → Alike depth (Part.part f ps) (Part.part f' qs)
      leaf :
          (depth : ℕ) (f : Fields) (ps qs : Parts)
          → is_container f ≡ false
          → Alike depth (Part.part f ps) (Part.part f qs)
      container :
          (depth : ℕ) (f : Fields) (ps qs : Parts)
          → AllAlike (suc depth) ps qs
          → Alike depth (Part.part f ps) (Part.part f qs)

    pub data AllAlike : ℕ → Parts → Parts → Type 0 where
      none_left : (depth : ℕ) → AllAlike depth Parts.nil Parts.nil
      both :
          (depth : ℕ) (p q : Part) (ps qs : Parts)
          → Alike depth p q
          → AllAlike depth ps qs
          → AllAlike depth (Parts.cons p ps) (Parts.cons q qs)

  take_part-file :
      (f f' : Fields) (g x y : Gathered)
      → is_attachment f ≡ true
      → f.filename ≡ f'.filename
      → take_part lib f g x ≡ take_part lib f' g y
  take_part-file f f' g x y file same =
      let file' : is_attachment f' ≡ true = ap (λ n. nonempty (text_of n)) (sym same) ∙ file in
      rw (file, file') (ap (λ n. record g { attachments = g.attachments ++ (text_of n ∷ []) }) same)

  take_part-leaf :
      (f : Fields) (g x y : Gathered)
      → is_container f ≡ false
      → take_part lib f g x ≡ take_part lib f g y
  take_part-leaf f g x y bare = rw bare refl

  if_shallow : (b : Bool) (g x y : Gathered) → x ≡ y → (if b then g else x) ≡ (if b then g else y)
  if_shallow true g x y e = refl
  if_shallow false g x y e = e

  mutual
    unfolding visit

    visit-Alike :
        {depth : ℕ} {p q : Part} (g : Gathered)
        → Alike depth p q
        → visit lib p depth g ≡ visit lib q depth g
    visit-Alike g (deep depth (Part.part f ps) (Part.part f' qs) h) = rw h refl
    visit-Alike g (attached depth f f' ps qs file same) =
        if_shallow (ltb max_depth depth) g _ _ (take_part-file f f' g _ _ file same)
    visit-Alike g (leaf depth f ps qs h) =
        if_shallow (ltb max_depth depth) g _ _ (take_part-leaf f g _ _ h)
    visit-Alike g (container depth f ps qs same) =
        if_shallow (ltb max_depth depth) g _ _ (ap (take_part lib f g) (visit_all-Alike g same))

    visit_all-Alike :
        {depth : ℕ} {ps qs : Parts} (g : Gathered)
        → AllAlike depth ps qs
        → visit_all lib ps depth g ≡ visit_all lib qs depth g
    visit_all-Alike g (none_left depth) = refl
    visit_all-Alike g (both depth p q ps qs first rest) =
        ap (visit_all lib ps depth) (visit-Alike g first) ∙ visit_all-Alike _ rest

  -- Texts that stay under the bound but for the last of them.
  abbrev pub IsCapped : List Text → Type 0
  IsCapped ts =
      (ts ≡ [])
      ⊎ ((front : List Text) × (last : Text) × (ts ≡ front ++ (last ∷ []))
          × (total front < max_body_chars))

  abbrev BothCapped : Gathered → Type 0
  BothCapped g = IsCapped g.plain × IsCapped g.markup

  one_more :
      (ts : List Text) (t : Text) → ltb (total ts) max_body_chars ≡ true → IsCapped (ts ++ (t ∷ []))
  one_more ts t h = inr (ts, t, refl, ltb→lt _ _ h)

  take_leaf-capped :
      (f : Fields) (m : Text) (g : Gathered) → BothCapped g → BothCapped (take_leaf lib f m g)
  take_leaf-capped f m g (p, k) =
      elim (Bool-cases (text_eq m (codes "text/plain") && ltb (total g.plain) max_body_chars)) [
        | inl plain ↦ rw plain (one_more g.plain (decode_body lib f) (ground (arith)), k)
        | inr other ↦
            elim (Bool-cases
              (text_eq m (codes "text/html") && ltb (total g.markup) max_body_chars)) [
                | inl html ↦
                    rw (other, html) (p, one_more g.markup (decode_body lib f) (ground arith))
                | inr neither ↦ rw (other, neither) (p, k)
              ]
      ]

  take_part-capped :
      (f : Fields) (g children : Gathered)
      → BothCapped g
      → BothCapped children
      → BothCapped (take_part lib f g children)
  take_part-capped f g children h k = elim (Bool-cases (is_attachment f)) [
    | inl file ↦ rw file h
    | inr text ↦ elim (Bool-cases (is_container f)) [
      | inl tree ↦ rw (text, tree) k
      | inr bare ↦ rw (text, bare) (take_leaf-capped f (lib.lower (text_of f.mime_type)) g h)
    ]
  ]

  mutual
    unfolding visit

    visit-capped :
        (p : Part) (depth : ℕ) (g : Gathered) → BothCapped g → BothCapped (visit lib p depth g)
    visit-capped (Part.part f children) depth g h = elim (Bool-cases (ltb max_depth depth)) [
      | inl far ↦ rw far h
      | inr shallow ↦
          rw shallow (take_part-capped f g _ h (visit_all-capped children (suc depth) g h))
    ]

    visit_all-capped :
        (ps : Parts) (depth : ℕ) (g : Gathered)
        → BothCapped g
        → BothCapped (visit_all lib ps depth g)
    visit_all-capped Parts.nil depth g h = h
    visit_all-capped (Parts.cons p ps) depth g h =
        visit_all-capped ps depth _ (visit-capped p depth g h)

  -- What a walk gives does not hang on what stands more than ten levels down, on anything of an
  -- attachment but its name, or on what stands below a part that is no container: messages that
  -- differ only there give the same. And of the texts of either kind that it gathers, those before
  -- the last one stay under 500,000 characters together.
  pub walk-Bounded :
      (payload other : Part)
      → Alike 0 payload other
      → (walk lib payload ≡ walk lib other)
        × IsCapped (visit lib payload 0 (nothing lib)).plain
        × IsCapped (visit lib payload 0 (nothing lib)).markup
  unfolding walk
  walk-Bounded payload other same =
      let (p, m) = visit-capped payload 0 (nothing lib) (inl refl, inl refl) in
      (
        ap (λ (g : Gathered). (join_lines lib g.plain, join_lines lib g.markup, g.attachments))
            (visit-Alike (nothing lib) same),
        p,
        m,
      )
