-- ===== src/Mail/Gmail/Walks.antt =====
-- What the walks over Gmail's pages give, and that they end: src/integrations/google/gmail.py.
use inbox_pilot.Prelude.{
  ℕ, zero, suc, ◌≤◌, ◌≡◌, refl, sym, ap, subst, ◌∙◌, ◌⊎◌, ◌&&◌, ◌||◌, not, String, str_eq, eq_iff,
  contains, Bool, true, false, Option, none, some, List, [], ◌∷◌, ◌++◌, length, take, All, Result,
  err, ok, ◌>>=◌, if◌then◌else◌, Bool-cases, inl, inr, arith,
}
use inbox_pilot.Mail.Mime.{Text}
use inbox_pilot.Mail.Dispatch.{GmailError, Partial}
use inbox_pilot.Mail.Gmail.{
  HistoryPage, History, next_token, latest_of, Walk, see_id, see_all, see_records, history_then,
  history_from, history_since, drop, chunks_from, batch_modify,
}

abbrev pub is_id : String → Option String → Bool
is_id id none = false
is_id id (some other) = str_eq other id

-- How many of the messages have an id.
abbrev pub count_id : String → List Partial → ℕ
count_id id [] = 0
count_id id (m ∷ ms) = let rest = count_id id ms in if is_id id m.id then suc rest else rest

count_id-snoc :
    (id : String) (ms : List Partial) (m : Partial)
    → count_id id (ms ++ (m ∷ []))
      ≡ (if is_id id m.id then suc (count_id id ms) else count_id id ms)
count_id-snoc id [] m = refl
count_id-snoc id (n ∷ ms) m = elim (Bool-cases (is_id id n.id)) [
  | inl one ↦ rw (one, count_id-snoc id ms m) (suc_if (is_id id m.id) (count_id id ms))
  | inr other ↦ rw (other, count_id-snoc id ms m) refl
]
  where
    suc_if : (b : Bool) (n : ℕ) → suc (if b then suc n else n) ≡ (if b then suc (suc n) else suc n)
    suc_if true n = refl
    suc_if false n = refl

-- No message with the id yet, or one, which was seen.
abbrev SeenOnce : String → Walk → Type 0
SeenOnce id walk =
    (count_id id walk.1 ≡ 0) ⊎ ((count_id id walk.1 ≡ 1) × (contains id walk.0 ≡ true))

entered-once :
    (id other : String) (m : Partial) (seen : List String) (messages : List Partial)
    → m.id ≡ some other
    → contains other seen ≡ false
    → SeenOnce id (seen, messages)
    → SeenOnce id (other ∷ seen, messages ++ (m ∷ []))
entered-once id other m seen messages e new h = elim (Bool-cases (str_eq other id)) [
  | inr apart ↦ spared (count_id-snoc id messages m ∙ rw (e, apart) refl) h
  | inl same ↦ hit ((eq_iff other id).0 same) (count_id-snoc id messages m ∙ rw (e, same) refl) h
]
  where
    spared :
        count_id id (messages ++ (m ∷ [])) ≡ count_id id messages
        → SeenOnce id (seen, messages)
        → SeenOnce id (other ∷ seen, messages ++ (m ∷ []))
    spared c (inl zero_so_far) = inl (c ∙ zero_so_far)
    spared c (inr (one, there)) = inr (c ∙ one, or_right (str_eq id other) (contains id seen) there)
      where
        or_right : (a b : Bool) → b ≡ true → (a || b) ≡ true
        or_right true b h = refl
        or_right false b h = h

    hit :
        other ≡ id
        → count_id id (messages ++ (m ∷ [])) ≡ suc (count_id id messages)
        → SeenOnce id (seen, messages)
        → SeenOnce id (other ∷ seen, messages ++ (m ∷ []))
    hit q c (inl zero_so_far) =
        let there : str_eq id other ≡ true = (eq_iff id other).1 (sym q) in
        inr (c ∙ ap suc zero_so_far, rw there refl)
    hit q c (inr (one, there)) = absurd (
        let clash : contains id seen ≡ false = subst (λ x. contains x seen ≡ false) q new in
        ground arith)

see_id-once :
    (id : String) (o : Option String) (m : Partial) (walk : Walk)
    → m.id ≡ o
    → SeenOnce id walk
    → SeenOnce id (see_id o m walk)
see_id-once id none m walk e h = h
see_id-once id (some other) m (seen, messages) e h =
    elim (Bool-cases (not (str_eq other "") && not (contains other seen))) [
      | inr old ↦ rw old h
      | inl new ↦ rw new (
          entered-once id other m seen messages e
            (both_right (str_eq other "") (contains other seen) new) h)
    ]
  where
    both_right : (a b : Bool) → (not a && not b) ≡ true → b ≡ false
    both_right true b h = absurd (ground arith)
    both_right false true h = absurd (ground arith)
    both_right false false h = refl

see_all-once :
    (id : String) (ms : List Partial) (walk : Walk)
    → SeenOnce id walk
    → SeenOnce id (see_all ms walk)
see_all-once id [] walk h = h
see_all-once id (m ∷ ms) walk h =
    see_all-once id ms (see_id m.id m walk) (see_id-once id m.id m walk refl h)

see_records-once :
    (id : String) (rs : List (List Partial)) (walk : Walk)
    → SeenOnce id walk
    → SeenOnce id (see_records rs walk)
see_records-once id [] walk h = h
see_records-once id (r ∷ rs) walk h =
    see_records-once id rs (see_all r walk) (see_all-once id r walk h)

-- What holds of every history that a call gives.
abbrev Gives : (History → Type 0) → Result GmailError History → Type 0
Gives P (err raised) = Unit {0}
Gives P (ok history) = P history

abbrev AtMostOnce : String → History → Type 0
AtMostOnce id history = count_id id history.messages ≤ 1

once_at_most : (id : String) (walk : Walk) → SeenOnce id walk → count_id id walk.1 ≤ 1
once_at_most id walk (inl zero_so_far) = ground arith
once_at_most id walk (inr (one, there)) = ground arith

history_then-once :
    (id : String) (next latest : Option Text) (walk : Walk)
    (rest : Text → Result GmailError History)
    → SeenOnce id walk
    → ((t : Text) → Gives (AtMostOnce id) (rest t))
    → Gives (AtMostOnce id) (history_then next latest walk rest)
history_then-once id none latest walk rest h later = once_at_most id walk h
history_then-once id (some t) latest walk rest h later = later t

bound-Gives :
    (P : History → Type 0) (answer : Result GmailError HistoryPage)
    (rest : HistoryPage → Result GmailError History)
    → ((page : HistoryPage) → Gives P (rest page))
    → Gives P (answer >>= rest)
bound-Gives P (err raised) rest h = tt
bound-Gives P (ok page) rest h = h page

module _ (page_at : Option Text → Result GmailError HistoryPage) where
  history_from-once :
      (id : String) (pages : ℕ) (token latest : Option Text) (walk : Walk)
      → SeenOnce id walk
      → Gives (AtMostOnce id) (history_from page_at pages token latest walk)
  unfolding history_from
  history_from-once id zero token latest walk h = once_at_most id walk h
  history_from-once id (suc pages) token latest walk h =
      bound-Gives (AtMostOnce id) (page_at token) _ (λ page.
        history_then-once id (next_token page.next_page_token) _ (see_records page.history walk) _
          (see_records-once id page.history walk h)
          (λ t.
            history_from-once id pages (some t) (latest_of page.history_id latest)
              (see_records page.history walk) (see_records-once id page.history walk h)))

  -- The history that a walk gives names no message twice, whatever Gmail's pages repeat.
  pub history_since-once :
      (max_pages : ℕ) (history : History) (id : String)
      → history_since page_at max_pages ≡ ok history
      → count_id id history.messages ≤ 1
  unfolding history_since
  history_since-once max_pages history id e =
      subst (Gives (AtMostOnce id)) e (history_from-once id max_pages none none ([], []) (inl refl))

-- The batches put together.
abbrev pub joined : List (List String) → List String
joined [] = []
joined (c ∷ cs) = c ++ joined cs

take-drop : (n : ℕ) (xs : List String) → take n xs ++ drop n xs ≡ xs
take-drop zero xs = refl
take-drop (suc n) [] = refl
take-drop (suc n) (x ∷ xs) = rw (take-drop n xs) refl

drop_shorter : (n : ℕ) (xs : List String) → length (drop n xs) ≤ length xs
drop_shorter zero xs = omega arith
drop_shorter (suc n) [] = omega arith
drop_shorter (suc n) (x ∷ xs) = omega (arith, drop_shorter n xs)

take_short : (n : ℕ) (xs : List String) → length (take n xs) ≤ n
take_short zero xs = omega arith
take_short (suc n) [] = omega arith
take_short (suc n) (x ∷ xs) = omega (arith, take_short n xs)

chunks-joined :
    (n k : ℕ) (ids : List String) → length ids ≤ n → joined (chunks_from n (suc k) ids) ≡ ids
chunks-joined zero k [] h = refl
chunks-joined zero k (id ∷ ids) h = absurd (omega arith)
chunks-joined (suc n) k [] h = refl
chunks-joined (suc n) k (id ∷ ids) h =
    rw (chunks-joined n k (drop k ids) (omega (arith, drop_shorter k ids)))
      (ap (λ xs. id ∷ xs) (take-drop k ids))

chunks-sized :
    (n k : ℕ) (ids : List String)
    → All (λ c. (1 ≤ length c) × (length c ≤ suc k)) (chunks_from n (suc k) ids)
chunks-sized zero k ids = tt
chunks-sized (suc n) k [] = tt
chunks-sized (suc n) k (id ∷ ids) =
    ((omega arith, omega (arith, take_short k ids)), chunks-sized n k (drop k ids))

-- The requests of a change to many messages name each message that is given, in the order in which
-- they are given and as often; each request names between one and a thousand.
batch_modify-covers :
    (message_ids : List String)
    → (joined (batch_modify message_ids) ≡ message_ids)
      × All (λ c. (1 ≤ length c) × (length c ≤ 1000)) (batch_modify message_ids)
unfolding batch_modify
batch_modify-covers message_ids = (
  chunks-joined (length message_ids) 999 message_ids (omega arith),
  chunks-sized (length message_ids) 999 message_ids,
)
