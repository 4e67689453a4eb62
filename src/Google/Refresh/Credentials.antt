-- ===== src/Google/Refresh/Credentials.antt =====
-- Where an access token comes from: src/integrations/google/credentials.py.
use inbox_pilot.Prelude.{
  ℕ, ◌≡◌, refl, sym, ap, ◌∙◌, ◌⊎◌, inl, inr, String, Bool, true, false, Option, none, some, List,
  [], ◌∷◌, contains, ◌&&◌, Result, err, ok, if◌then◌else◌, Bool-cases, arith,
}
use inbox_pilot.Google.Crypto.{Cipher}
use inbox_pilot.Google.Connection.{GoogleConnection, RefreshedToken, list_pollable_user_ids}
use inbox_pilot.Google.Connection.Revoked.{Writes, revoked_stays}
use inbox_pilot.Google.Oauth.{OauthError}
use inbox_pilot.Google.Scopes.{expand_legacy_scopes}
use inbox_pilot.Google.Snapshots.{ConnectionState, Snapshots, load, token_is_live, get_connection}
use inbox_pilot.Google.Refresh.{
  GoogleCredentials, Raised, Outcome, Moment, credentials_of, same_expiry, PollVerdict, judged,
  continue_with, await_refresh, do_refresh, scopes_or, after_wait, refresh, missing, none_missing,
  credentials_from, get_credentials,
}

abbrev verdict_or : GoogleCredentials → PollVerdict → GoogleCredentials
verdict_or c PollVerdict.give_up = c
verdict_or c PollVerdict.wait = c
verdict_or c (PollVerdict.winner d) = d

abbrev result_or : GoogleCredentials → Result Raised GoogleCredentials → GoogleCredentials
result_or c (err raised) = c
result_or c (ok d) = d

-- A call that raises in two cases succeeds in one of the two others.
granting :
    (a b d : Bool) (A B C D : Outcome) (r s : Raised) (c : GoogleCredentials)
    → A.result ≡ err r
    → B.result ≡ err s
    → (if a then A else if b then (if d then C else D) else B).result ≡ ok c
    → (a ≡ false) × (b ≡ true) × (((d ≡ true) × (C.result ≡ ok c)) ⊎ (D.result ≡ ok c))
granting true b d A B C D r s c raised also e = absurd (let q = sym raised ∙ e in ground arith)
granting false false d A B C D r s c raised also e = absurd (let q = sym also ∙ e in ground arith)
granting false true true A B C D r s c raised also e = (refl, refl, inl (refl, e))
granting false true false A B C D r s c raised also e = (refl, refl, inr e)

module _ (cipher : Cipher) (user : String) where
  -- At one of the moments the table held a grant that was not revoked, with this token, which was
  -- good for two minutes more.
  abbrev pub LiveAt : Moment → GoogleCredentials → Type 0
  LiveAt m c =
      (f : ConnectionState) × (load cipher m.table user ≡ some f)
      × (f.revoked ≡ false)
      × (token_is_live f m.now ≡ true)
      × (c ≡ credentials_of user f)

  abbrev pub LiveAtSome : List Moment → GoogleCredentials → Type 0
  LiveAtSome [] c = ⊥
  LiveAtSome (m ∷ ms) c = LiveAt m c ⊎ LiveAtSome ms c

  -- The token is what Google minted, and the scopes are those that came with it, or else those of
  -- the connection.
  abbrev pub Minted :
      ConnectionState → Result OauthError RefreshedToken → GoogleCredentials → Type 0
  Minted state answer c =
      (t : RefreshedToken) × (answer ≡ ok t)
      × (c.access_token ≡ t.access_token)
      × (c.scopes ≡ expand_legacy_scopes (scopes_or t.scopes state.scopes))

  judged_lem :
      (force : Bool) (before : Option ℕ) (now : ℕ) (fresh : Option ConnectionState)
      (c : GoogleCredentials)
      → judged user force before now fresh ≡ PollVerdict.winner c
      → (f : ConnectionState) × (fresh ≡ some f)
        × (f.revoked ≡ false)
        × (token_is_live f now ≡ true)
        × (c ≡ credentials_of user f)
  unfolding token_is_live
  judged_lem force before now none c e = absurd (ground arith)
  judged_lem force before now (some f) c e = elim (Bool-cases f.revoked) [
    | inl dead ↦
        absurd (let e' : PollVerdict.give_up ≡ PollVerdict.winner c = rw dead at e in ground arith)
    | inr alive ↦ elim (Bool-cases (force && same_expiry f.token_expiry before)) [
      | inl stale ↦ absurd (
          let e' : PollVerdict.wait ≡ PollVerdict.winner c = rw (alive, stale) at e in ground arith)
      | inr new ↦ elim (Bool-cases (token_is_live f now)) [
        | inr lapsed ↦ absurd (
            let e' : PollVerdict.wait ≡ PollVerdict.winner c = rw (alive, new, lapsed) at e in
            ground arith)
        | inl live ↦
            (let e' : PollVerdict.winner (credentials_of user f) ≡ PollVerdict.winner c =
                rw (alive, new, live) at e in
              (f, refl, alive, live, sym (ap (verdict_or c) e')))
      ]
    ]
  ]

  -- A poll, with what is known of the ones behind it.
  polled :
      (force : Bool) (before : Option ℕ) (m : Moment) (ms : List Moment)
      (rest : Option GoogleCredentials × Snapshots) (snapshots : Snapshots) (v : PollVerdict)
      (c : GoogleCredentials)
      → judged user force before m.now (load cipher m.table user) ≡ v
      → (rest.0 ≡ some c → LiveAtSome ms c)
      → (continue_with cipher v rest snapshots).0 ≡ some c
      → LiveAtSome (m ∷ ms) c
  polled force before m ms rest snapshots PollVerdict.give_up c q later h = absurd (ground arith)
  polled force before m ms rest snapshots PollVerdict.wait c q later h = inr (later h)
  polled force before m ms rest snapshots (PollVerdict.winner d) c q later h =
      let e : d ≡ c = cc in
      let (f, there, alive, live, same) = judged_lem force before m.now _ d q in
      inl (f, there, alive, live, sym e ∙ same)

  await_refresh_lem :
      (force : Bool) (state : ConnectionState) (ms : List Moment) (snapshots : Snapshots)
      (c : GoogleCredentials)
      → (await_refresh cipher user force state ms snapshots).0 ≡ some c
      → LiveAtSome ms c
  unfolding await_refresh get_connection
  await_refresh_lem force state [] snapshots c e = absurd (ground arith)
  await_refresh_lem force state (m ∷ ms) snapshots c e =
      polled force state.token_expiry m ms
        (await_refresh cipher user force state ms
          (get_connection cipher user true m.monotonic m.stamp m.table snapshots).1)
        _ _ c refl (λ h. await_refresh_lem force state ms _ c h) e

  do_refresh-Minted :
      (state : ConnectionState) (answer : Result OauthError RefreshedToken) (now : ℕ)
      (rows : List GoogleConnection) (snapshots : Snapshots) (c : GoogleCredentials)
      → (do_refresh cipher user state answer now rows snapshots).result ≡ ok c
      → Minted state answer c
  unfolding do_refresh
  do_refresh-Minted state (err (OauthError.grant_revoked r)) now rows snapshots c e =
      absurd (ground arith)
  do_refresh-Minted state (err OauthError.google_oauth_error) now rows snapshots c e =
      absurd (ground arith)
  do_refresh-Minted state (err OauthError.key_error) now rows snapshots c e = absurd (ground arith)
  do_refresh-Minted state (ok token) now rows snapshots c e = (
    token,
    refl,
    sym (ap (λ r. (result_or c r).access_token) e),
    sym (ap (λ r. (result_or c r).scopes) e),
  )

  after_wait-source :
      (state : ConnectionState) (answer : Result OauthError RefreshedToken) (m : Moment)
      (polls : List Moment) (waited : Option GoogleCredentials × Snapshots) (c : GoogleCredentials)
      → ((d : GoogleCredentials) → waited.0 ≡ some d → LiveAtSome polls d)
      → (after_wait cipher user state answer m waited).result ≡ ok c
      → LiveAtSome polls c ⊎ Minted state answer c
  after_wait-source state answer m polls (some d, snapshots) c won e =
      let q : d ≡ c = ap (result_or c) e in inl (won c (ap (λ (x : GoogleCredentials). some x) q))
  after_wait-source state answer m polls (none, snapshots) c won e =
      inr (do_refresh-Minted state answer m.now m.table snapshots c e)

  refresh-source :
      (force : Bool) (state : ConnectionState) (lock : Option Bool) (polls : List Moment)
      (answer : List ℕ → Result OauthError RefreshedToken) (m : Moment) (snapshots : Snapshots)
      (c : GoogleCredentials)
      → (refresh cipher user force state lock polls answer m snapshots).result ≡ ok c
      → LiveAtSome polls c ⊎ Minted state (answer state.refresh_token) c
  unfolding refresh
  refresh-source force state (some true) polls answer m snapshots c e =
      inr (do_refresh-Minted state (answer state.refresh_token) m.now m.table snapshots c e)
  refresh-source force state (some false) polls answer m snapshots c e =
      after_wait-source state (answer state.refresh_token) m polls _ c
        (λ d h. await_refresh_lem force state polls snapshots d h) e
  refresh-source force state none polls answer m snapshots c e =
      after_wait-source state (answer state.refresh_token) m polls _ c
        (λ d h. await_refresh_lem force state polls snapshots d h) e

  -- What the caller of `get_credentials` may count on.
  abbrev pub Source :
      Option (List (List ℕ))
      → Moment
      → List Moment
      → (List ℕ → Result OauthError RefreshedToken)
      → Option ConnectionState
      → GoogleCredentials
      → Type 0
  Source required m polls answer found c =
      (state : ConnectionState) × (found ≡ some state)
      × (state.revoked ≡ false)
      × (none_missing cipher (missing cipher required state.scopes) ≡ true)
      × (((token_is_live state m.now ≡ true) × (c ≡ credentials_of user state))
          ⊎ (LiveAtSome polls c ⊎ Minted state (answer state.refresh_token) c))

  credentials_from-Source :
      (required : Option (List (List ℕ))) (m : Moment) (polls : List Moment)
      (answer : List ℕ → Result OauthError RefreshedToken) (found : Option ConnectionState)
      (snapshots : Snapshots) (refreshing : ConnectionState → Outcome) (c : GoogleCredentials)
      → ((s : ConnectionState)
          → (refreshing s).result ≡ ok c
          → LiveAtSome polls c ⊎ Minted s (answer s.refresh_token) c)
      → (credentials_from cipher user required m found snapshots refreshing).result ≡ ok c
      → Source required m polls answer found c
  credentials_from-Source required m polls answer none snapshots refreshing c from e =
      absurd (ground arith)
  credentials_from-Source required m polls answer (some s) snapshots refreshing c from e =
      let (alive, enough, way) =
        granting s.revoked (none_missing cipher (missing cipher required s.scopes))
          (token_is_live s m.now) _ _ _ (refreshing s) _ _ c refl refl e in
      elim way [
        | inl (live, held) ↦ (s, refl, alive, enough, inl (live, sym (ap (result_or c) held)))
        | inr refreshed ↦ (s, refl, alive, enough, inr (from s refreshed))
      ]

  -- Credentials are given only if the connection that the call finds first is not revoked and has
  -- every scope that is required. They are then those of that connection, whose token is good for
  -- two minutes more; or those that another process left in the row of a grant that was not
  -- revoked, good for two minutes more, while this call waited for the lock; or they hold the
  -- token that Google has just minted for the connection's refresh token, with the scopes that
  -- came with it or, if none did, the connection's own.
  pub get_credentials-Source :
      (required : Option (List (List ℕ))) (lock : Option Bool) (polls : List Moment)
      (answer : List ℕ → Result OauthError RefreshedToken) (m later : Moment)
      (snapshots : Snapshots) (c : GoogleCredentials)
      → (get_credentials cipher user required lock polls answer m later snapshots).result ≡ ok c
      → Source required m polls answer
          (get_connection cipher user false m.monotonic m.stamp m.table snapshots).0
          c
  unfolding get_credentials
  get_credentials-Source required lock polls answer m later snapshots c e =
      credentials_from-Source required m polls answer _ _ _ c
        (λ s h. refresh-source false s lock polls answer later _ c h) e

  -- When Google rejects the refresh token, the row is marked: the user is no longer polled, and no
  -- write but that user's own new grant brings the user back.
  do_refresh-revokes :
      (lower : List ℕ → List ℕ) (state : ConnectionState) (reason : List ℕ) (now : ℕ)
      (rows last : List GoogleConnection) (snapshots : Snapshots)
      → Writes cipher user
          (do_refresh cipher user state
            (err (OauthError.grant_revoked reason))
            now
            rows
            snapshots).rows
          last
      → contains user (list_pollable_user_ids last) ≡ false
  unfolding do_refresh
  do_refresh-revokes lower state reason now rows last snapshots writes =
      (revoked_stays cipher lower user reason now rows last writes).0
