-- ===== src/Categorization/Labels/Exclusive.antt =====
-- The change of labels that src/services/mailman/gmail_ops.py asks for, and the cache of label ids.
use inbox_pilot.Prelude.{
  ℕ, ◌≡◌, refl, sym, ap, ◌∙◌, String, Bool, true, false, ◌&&◌, ◌||◌, not, Option, none, some, List,
  [], ◌∷◌, ◌++◌, filter, contains, str_eq, eq_iff, codes, truthy, Bool-cases, inl, inr, arith,
}
use inbox_pilot.Categorization.Labels.{
  Actions, Change, LabelCache, Listing, text_of, only_if, losers, category_change, inbox_label,
  unread_label, starred_label, resolve_label_id, cached_or,
}

-- Whether a message that wore some labels wears one after a change, as Gmail documents it.
abbrev pub worn : List String → Change → String → Bool
worn labels change l =
    contains l change.add || (contains l labels && not (contains l change.remove))

-- A label id that a name of the taxonomy resolved to.
abbrev pub is_lid : String → List (Option String) → Bool
is_lid l [] = false
is_lid l (lid ∷ lids) = (truthy lid && str_eq l (text_of lid)) || is_lid l lids

contains-filter :
    (p : String → Bool) (l : String) (ls : List String)
    → contains l (filter p ls) ≡ (contains l ls && p l)
contains-filter p l [] = refl
contains-filter p l (x ∷ xs) = elim (Bool-cases (str_eq l x)) [
  | inl same ↦
      (let e : p l ≡ p x = ap p (let q : l ≡ x = ground (arith, eq_iff l x) in q) in
        ground (arith, contains-filter p l xs))
  | inr other ↦ ground (arith, contains-filter p l xs)
]

contains-append :
    (l : String) (k ls : List String) → contains l (k ++ ls) ≡ (contains l k || contains l ls)
contains-append l [] ls = refl
contains-append l (x ∷ k) ls = ground (arith, contains-append l k ls)

contains-only_if :
    (l : String) (b : Bool) (x : String) → contains l (only_if b x) ≡ (b && str_eq l x)
contains-only_if l true x = ground arith
contains-only_if l false x = refl

contains-losers :
    (l label_id : String) (lids : List (Option String))
    → contains l (losers label_id lids) ≡ (is_lid l lids && not (str_eq l label_id))
unfolding losers
contains-losers l label_id [] = refl
contains-losers l label_id (lid ∷ lids) =
    let e : str_eq l (text_of lid) ≡ true → str_eq (text_of lid) label_id ≡ str_eq l label_id = λ h.
      ap (λ x. str_eq x label_id)
        (sym (let q : l ≡ text_of lid = ground (arith, eq_iff l (text_of lid)) in q)) in
    ground (arith, contains-losers l label_id lids, e)

contains-add :
    (label_id : String) (actions : Actions) (lids : List (Option String)) (l : String)
    → contains l (category_change label_id actions lids).add
      ≡ (str_eq l label_id || (actions.star && str_eq l starred_label))
unfolding category_change
contains-add label_id actions lids l =
    ap (λ b. str_eq l label_id || b) (contains-only_if l actions.star starred_label)

contains-remove :
    (label_id : String) (actions : Actions) (lids : List (Option String)) (l : String)
    → contains l (category_change label_id actions lids).remove ≡ (
        ((actions.archive && str_eq l inbox_label)
          || ((actions.mark_read && str_eq l unread_label)
              || (is_lid l lids && not (str_eq l label_id))))
        && not (str_eq l label_id || (actions.star && str_eq l starred_label)))
unfolding category_change
contains-remove label_id actions lids l =
    let inbox = only_if actions.archive inbox_label in
    let unread = only_if actions.mark_read unread_label in
    let rest = losers label_id lids in
    contains-filter (λ lid. not (contains lid (label_id ∷ only_if actions.star starred_label))) l
      (inbox ++ (unread ++ rest))
    ∙ rw
        (
          contains-append l inbox (unread ++ rest),
          contains-append l unread rest,
          contains-only_if l actions.archive inbox_label,
          contains-only_if l actions.mark_read unread_label,
          contains-losers l label_id lids,
          contains-only_if l actions.star starred_label,
        )
        refl

-- After the change for a category, a message wears the category's label, the star if the category
-- stars, and of what it wore before exactly the labels that are no label of the taxonomy, nor the
-- inbox's if the category archives, nor the unread mark if it marks as read. No label is both
-- added and removed.
pub category_change_lem :
    (labels : List String) (label_id : String) (actions : Actions) (lids : List (Option String))
    (l : String)
    → (worn labels (category_change label_id actions lids) l ≡ (
        (str_eq l label_id || (actions.star && str_eq l starred_label))
        || (contains l labels
            && (not (actions.archive && str_eq l inbox_label)
                && (not (actions.mark_read && str_eq l unread_label) && not (is_lid l lids))))))
      × ((contains l (category_change label_id actions lids).add
            && contains l (category_change label_id actions lids).remove)
          ≡ false)
category_change_lem labels label_id actions lids l =
    rw (contains-add label_id actions lids l, contains-remove label_id actions lids l)
      (ground arith, ground arith)

-- Once a category of the taxonomy is applied, a label of the taxonomy other than the star is on
-- the message if and only if it is the applied category's, whatever the message wore before.
pub one_category :
    (labels : List String) (label_id : String) (actions : Actions) (lids : List (Option String))
    (l : String)
    → is_lid l lids ≡ true
    → str_eq l starred_label ≡ false
    → worn labels (category_change label_id actions lids) l ≡ str_eq l label_id
one_category labels label_id actions lids l there plain =
    (category_change_lem labels label_id actions lids l).0 ∙ rw (there, plain) (ground arith)

-- What resolved stands in the cache.
looked-up :
    (fold : List ℕ → List ℕ) (listing : Listing) (user_id : ℕ) (key : List ℕ) (cache : LabelCache)
    → truthy (cached_or cache user_id key fold listing).0 ≡ true
    → (cached_or cache user_id key fold listing).1 user_id key
      ≡ (cached_or cache user_id key fold listing).0
unfolding cached_or
looked-up fold none user_id key cache found = absurd (ground arith)
looked-up fold (some rows) user_id key cache found = refl

resolved_is_cached :
    (fold : List ℕ → List ℕ) (listing : Listing) (user_id : ℕ) (name : String) (cache : LabelCache)
    → truthy (resolve_label_id fold listing user_id name cache).0 ≡ true
    → (resolve_label_id fold listing user_id name cache).1 user_id (fold (codes name))
      ≡ (resolve_label_id fold listing user_id name cache).0
unfolding resolve_label_id
resolved_is_cached fold listing user_id name cache found =
    elim (Bool-cases (truthy (cache user_id (fold (codes name))))) [
      | inl known ↦ rw known refl
      | inr unknown ↦
          rw unknown
            (looked-up fold listing user_id (fold (codes name)) cache (rw unknown at found))
    ]

hit :
    (fold : List ℕ → List ℕ) (listing : Listing) (user_id : ℕ) (name : String) (cache : LabelCache)
    → truthy (cache user_id (fold (codes name))) ≡ true
    → resolve_label_id fold listing user_id name cache ≡ (cache user_id (fold (codes name)), cache)
unfolding resolve_label_id
hit fold listing user_id name cache known = rw known refl

-- A label that resolved is resolved from the cache from then on, by the same id, even if Gmail does
-- not answer, and asking again leaves the cache as it is.
resolve_label_id_again :
    (fold : List ℕ → List ℕ) (listing later : Listing) (user_id : ℕ) (name : String)
    (cache : LabelCache)
    → truthy (resolve_label_id fold listing user_id name cache).0 ≡ true
    → resolve_label_id fold later user_id name (resolve_label_id fold listing user_id name cache).1
      ≡ resolve_label_id fold listing user_id name cache
resolve_label_id_again fold listing later user_id name cache found =
    let r = resolve_label_id fold listing user_id name cache in
    let kept : r.1 user_id (fold (codes name)) ≡ r.0 =
      resolved_is_cached fold listing user_id name cache found in
    hit fold later user_id name r.1 (ap truthy kept ∙ found) ∙ ap (λ o. (o, r.1)) kept
