-- ===== src/Mail/Dispatch/Claims.antt =====
-- How long a message stays claimed: the claims of src/core/idempotency.py, as the poller makes
-- them.
use inbox_pilot.Prelude.{
  ℕ, ◌+◌, ◌≤◌, ◌<◌, leb, ◌≡◌, refl, sym, subst, ◌∙◌, String, str_eq, eq_iff, Bool, true, false,
  some, ◌++◌, codes, text_eq, text_eq-codes, text_eq-append, is_some, Bool-cases, inl, inr, arith,
}
use inbox_pilot.Guards.{seen, Redis, event_key, event_ttl}

event_keys_apart :
    (user a b : String) → str_eq a b ≡ false → text_eq (event_key user a) (event_key user b) ≡ false
event_keys_apart user a b apart =
    elim (Bool-cases (text_eq (event_key user a) (event_key user b))) [
      | inr differ ↦ differ
      | inl same ↦
          (let e : text_eq (codes a) (codes b) ≡ true =
              sym (
                text_eq-append (codes "evt:") (codes user ++ (codes ":" ++ codes a))
                  (codes user ++ (codes ":" ++ codes b))
                ∙ text_eq-append (codes user) (codes ":" ++ codes a) (codes ":" ++ codes b)
                ∙ text_eq-append (codes ":") (codes a) (codes b))
              ∙ same in
            let q : str_eq a b ≡ true = (eq_iff a b).1 (text_eq-codes a b e) in
            absurd (ground arith))
    ]

module _ {S : Type 0} (redis : Redis S) (user : String) (start : ℕ) where
  -- The event of a message is claimed until the day is over.
  abbrev pub IsTaken : S → String → Type 0
  IsTaken s id =
      (n until : ℕ) × (redis.entry s (event_key user id) ≡ some (n, some until))
      × (start + event_ttl ≤ until)

  taken_seen :
      (s : S) (id : String) (now : ℕ)
      → now < start + event_ttl
      → IsTaken s id
      → is_some (seen now (redis.entry s (event_key user id))) ≡ true
  taken_seen s id now soon (n, until, e, late) =
      let fresh : leb until now ≡ false = ground arith in rw (e, fresh) refl

  abbrev pub claim_of : String → ℕ → S → Bool × S
  claim_of id now s = redis.set_nx (event_key user id) event_ttl now s

  pub claim_keeps :
      (s : S) (id other : String) (now : ℕ)
      → now < start + event_ttl
      → IsTaken s id
      → IsTaken (claim_of other now s).1 id
  claim_keeps s id other now soon (n, until, e, late) = elim (Bool-cases (str_eq id other)) [
    | inr apart ↦ (
      n,
      until,
      redis.set_nx-other (event_key user other) (event_key user id) event_ttl now s
            (event_keys_apart user id other apart)
          ∙ e,
      late,
    )
    | inl same ↦
        (let q : id ≡ other = (eq_iff id other).0 same in
          let there = taken_seen s id now soon (n, until, e, late) in
          subst (λ x. IsTaken (claim_of x now s).1 id) q
            (n, until, redis.set_nx-entry (event_key user id) event_ttl now s ∙ rw there e, late))
  ]

  pub claim_fresh :
      (s : S) (id : String) (now : ℕ)
      → start ≤ now
      → (claim_of id now s).0 ≡ true
      → IsTaken (claim_of id now s).1 id
  claim_fresh s id now day got =
      let free : is_some (seen now (redis.entry s (event_key user id))) ≡ false =
        ground (arith, redis.set_nx-answer (event_key user id) event_ttl now s) in
      (
        1,
        now + event_ttl,
        redis.set_nx-entry (event_key user id) event_ttl now s ∙ rw free refl,
        omega arith,
      )

  pub claim_apart :
      (s : S) (id : String) (now : ℕ)
      → now < start + event_ttl
      → (claim_of id now s).0 ≡ true
      → IsTaken s id
      → ⊥
  claim_apart s id now soon got taken =
      let there = taken_seen s id now soon taken in
      ground (arith, redis.set_nx-answer (event_key user id) event_ttl now s)
