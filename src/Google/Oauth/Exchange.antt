-- ===== src/Google/Oauth/Exchange.antt =====
-- Whose grant it is that a code is exchanged for: src/integrations/google/oauth.py.
use inbox_pilot.Prelude.{
  ℕ, ◌==◌, ◌≡◌, refl, sym, ap, ◌∙◌, Bool, true, false, Option, none, some, List, [], ◌∷◌, nonempty,
  Result, err, ok, >>=-eq-ok, Bool-cases, inl, inr, arith,
}
use inbox_pilot.Google.Connection.{TokenGrant}
use inbox_pilot.Google.Oauth.{
  Response, OauthError, Claims, verified_only, checked, given, required_field, verify_id_token,
  exchange_code,
}

-- The value of a call that returned.
abbrev ok_or {ℓ} : {V : Type ℓ} → V → Result OauthError V → V
ok_or v (err raised) = v
ok_or v (ok w) = w

verified_only_lem :
    (b : Bool) (i info : Claims) → verified_only b i ≡ ok info → (i ≡ info) × (b ≡ true)
verified_only_lem true i info e = (ap (ok_or i) e, refl)
verified_only_lem false i info e = absurd (ground arith)

checked_lem :
    (o : Option Claims) (info : Claims)
    → checked o ≡ ok info
    → (o ≡ some info) × (info.email_verified ≡ true)
checked_lem none info e = absurd (ground arith)
checked_lem (some i) info e =
    let (q, verified) = verified_only_lem i.email_verified i info e in
    (ap (λ (x : Claims). some x) q, sym (ap (λ (x : Claims). x.email_verified) q) ∙ verified)

given_lem : (o : Option (List ℕ)) (t : List ℕ) → given o ≡ ok t → (o ≡ some t) × (nonempty t ≡ true)
given_lem none t e = absurd (ground arith)
given_lem (some []) t e = absurd (ground arith)
given_lem (some (c ∷ s)) t e = let q : c ∷ s ≡ t = ground arith in (cc, rw⁻¹ q refl)

-- What a verified id_token says is what google-auth says of it, with its email verified.
verify_id_token-verified :
    (verify : List ℕ → Option Claims) (raw : Option (List ℕ)) (info : Claims)
    → verify_id_token verify raw ≡ ok info
    → (t : List ℕ) × (raw ≡ some t) × (verify t ≡ some info) × (info.email_verified ≡ true)
unfolding verify_id_token
verify_id_token-verified verify none info e = absurd (ground arith)
verify_id_token-verified verify (some []) info e = absurd (ground arith)
verify_id_token-verified verify (some (c ∷ s)) info e =
    let (here, verified) = checked_lem (verify (c ∷ s)) info e in (c ∷ s, refl, here, verified)

-- Whoever a grant is said to be of was vouched for: a code is exchanged for a grant only if Google
-- answered 200 with a refresh token that is not empty, and with an id_token that google-auth
-- takes; the grant's account and address are those that the id_token names, and that address is
-- verified.
pub exchange_code-Verified :
    (verify : List ℕ → Option Claims) (resp : Response) (grant : TokenGrant)
    → exchange_code verify resp ≡ ok grant
    → (resp.status_code ≡ 200)
      × ((t : List ℕ) × (grant.refresh_token ≡ some t) × (nonempty t ≡ true))
      × ((raw : List ℕ) × (info : Claims) × (resp.body.id_token ≡ some raw)
          × (verify raw ≡ some info)
          × (info.email_verified ≡ true)
          × (grant.google_sub ≡ info.sub)
          × (grant.email ≡ info.email))
unfolding exchange_code
exchange_code-Verified verify resp grant e = elim (Bool-cases (resp.status_code == 200)) [
  | inr other ↦
      absurd (let e' : err OauthError.google_oauth_error ≡ ok grant = rw other at e in ground arith)
  | inl fine ↦
      (let (refresh, r, e1) = >>=-eq-ok (given resp.body.refresh_token) _ (rw fine at e) in
        let (info, v, e2) = >>=-eq-ok (verify_id_token verify resp.body.id_token) _ e1 in
        let (access, a, e3) = >>=-eq-ok (required_field resp.body.access_token) _ e2 in
        let (raw, here, taken, verified) =
          verify_id_token-verified verify resp.body.id_token info v in
        let q = sym (ap (ok_or grant) e3) in
        (
          ground arith,
          (
            refresh,
            ap (λ (g : TokenGrant). g.refresh_token) q,
            (given_lem resp.body.refresh_token refresh r).1,
          ),
          (
            raw,
            info,
            here,
            taken,
            verified,
            ap (λ (g : TokenGrant). g.google_sub) q,
            ap (λ (g : TokenGrant). g.email) q,
          ),
        ))
]
