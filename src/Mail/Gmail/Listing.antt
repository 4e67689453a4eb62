-- ===== src/Mail/Gmail/Listing.antt =====
-- That the list of a query's messages ends: `list_message_ids` of
-- src/integrations/google/gmail.py.
use inbox_pilot.Prelude.{
  ℕ, zero, suc, ◌+◌, ◌-◌, ◌≤◌, ltb, ◌≡◌, refl, String, true, false, Option, none, some, List, [],
  ◌∷◌, ◌++◌, length, take, is_some, Result, err, ok, Bool-cases, inl, inr, arith,
}
use inbox_pilot.Mail.Mime.{Text}
use inbox_pilot.Mail.Dispatch.{GmailError}
use inbox_pilot.Mail.Gmail.{
  MessagePage, next_token, listed, list_then, list_page, list_from, list_message_ids, page_size,
}

abbrev pub Pairs : Type 0
Pairs = List (String × String)

-- A loop that ended, with no more than a limit of ids.
abbrev pub EndsWithin : ℕ → Option (Result GmailError Pairs) → Type 0
EndsWithin limit none = ⊥
EndsWithin limit (some (err raised)) = Unit {0}
EndsWithin limit (some (ok ids)) = length ids ≤ limit

take_within : (n : ℕ) (xs : Pairs) → length (take n xs) ≤ n
take_within zero xs = omega arith
take_within (suc n) [] = omega arith
take_within (suc n) (x ∷ xs) = omega (arith, take_within n xs)

length-append : (xs ys : Pairs) → length (xs ++ ys) ≡ length xs + length ys
length-append [] ys = omega arith
length-append (x ∷ xs) ys = omega (arith, length-append xs ys)

longer :
    (out more : Pairs) (fuel limit : ℕ)
    → 1 ≤ length more
    → limit ≤ length out + suc fuel
    → limit ≤ length (out ++ more) + fuel
longer out more fuel limit one h = omega (arith, length-append out more)

module _ (page_at : Option Text → ℕ → Result GmailError MessagePage) where
  -- A page that is not the last one lists a message.
  abbrev pub IsProductive : Type 0
  IsProductive =
      (token : Option Text) (n : ℕ) (page : MessagePage)
      → page_at token n ≡ ok page
      → is_some (next_token page.next_page_token) ≡ true
      → 1 ≤ length (listed page.messages)

  page-ends :
      (limit : ℕ) (out : Pairs) (answer : Result GmailError MessagePage)
      (rest : Text → Pairs → Option (Result GmailError Pairs))
      → ((page : MessagePage)
          → answer ≡ ok page
          → is_some (next_token page.next_page_token) ≡ true
          → (t : Text) → EndsWithin limit (rest t (out ++ listed page.messages)))
      → EndsWithin limit (list_page limit out answer rest)
  page-ends limit out (err raised) rest h = tt
  page-ends limit out (ok page) rest h = next_ends (next_token page.next_page_token) refl
    where
      next_ends :
          (next : Option Text)
          → next_token page.next_page_token ≡ next
          → EndsWithin limit (list_then limit (out ++ listed page.messages) next rest)
      next_ends none q = take_within limit (out ++ listed page.messages)
      next_ends (some t) q = h page refl (rw q refl) t

  list_from-ends :
      (fuel limit : ℕ) (token : Option Text) (out : Pairs)
      → IsProductive
      → limit ≤ length out + fuel
      → EndsWithin limit (list_from page_at fuel limit token out)
  unfolding list_from
  list_from-ends zero limit token out productive h =
      let full : ltb (length out) limit ≡ false = ground arith in rw full (take_within limit out)
  list_from-ends (suc fuel) limit token out productive h =
      elim (Bool-cases (ltb (length out) limit)) [
        | inr full ↦ rw full (take_within limit out)
        | inl room ↦ rw room (
            page-ends limit out (page_at token (page_size page_at (limit - length out)))
              (λ t more. list_from page_at fuel limit (some t) more)
              (λ page e next t.
                list_from-ends fuel limit (some t) (out ++ listed page.messages) productive (
                  longer out (listed page.messages) fuel limit
                    (productive token (page_size page_at (limit - length out)) page e next) h)))
      ]

  -- If every page but the last lists a message, then the list of a query's messages ends, with an
  -- exception or with no more ids than the limit, after no more requests than the limit; without
  -- a limit, that is ten thousand.
  list_message_ids-ends :
      (limit : ℕ)
      → IsProductive
      → EndsWithin limit (list_message_ids page_at limit (some limit))
        × EndsWithin 10000 (list_message_ids page_at 10000 none)
  unfolding list_message_ids
  list_message_ids-ends limit productive = (
    list_from-ends limit limit none [] productive (omega arith),
    list_from-ends 10000 10000 none [] productive (omega arith),
  )
