-- ===== src/Google/Tests.antt =====
-- The grant on a small table.
use inbox_pilot.Prelude.{
  ℕ, ◌*◌, ◌==◌, ◌≡◌, ◌≢◌, ◌⊎◌, refl, second, String, true, false, Option, none, some, List, [], ◌∷◌,
  codes, contains, find?, All, nonempty, inl, inr, ok, Bool-cases, if◌then◌else◌, arith,
}
use inbox_pilot.Google.Scopes.{expand_legacy_scopes, split_words, scope_column, covers}
use inbox_pilot.Google.Scopes.Column.{column_keeps_scopes}
use inbox_pilot.Google.Crypto.{Cipher, Fernet, encrypt, decrypt}
use inbox_pilot.Google.Crypto.Setting.{Spells, padded, blanks, joined}
use inbox_pilot.Google.Crypto.Rotation.{decrypt-encrypt_rotated, usable_cipher}
use inbox_pilot.Google.Connection.{
  GoogleConnection, TokenGrant, RefreshedToken, of_user, persist_refreshed, mark_revoked,
  set_history_id, list_pollable_user_ids, list_watches_needing_renewal, find_user_id_by_mailbox,
}
use inbox_pilot.Google.Connection.Revoked.{Write, Writes, revoked_stays}
use inbox_pilot.Google.Connection.Newest.{
  Refresh, NoEarlier, persist_all, reaches, Origin, newest_token_kept,
}
use inbox_pilot.Google.Snapshots.{load, get_connection, token_is_live}
use inbox_pilot.Google.Snapshots.Staleness.{OwnWrite, CacheEvent}
use inbox_pilot.Google.Oauth.{Response, Claims, exchange_code, verify_id_token}
use inbox_pilot.Google.Oauth.Exchange.{exchange_code-Verified}
use inbox_pilot.Google.Refresh.{Moment, get_credentials, refresh, do_refresh}
use inbox_pilot.Google.Refresh.Credentials.{Source, get_credentials-Source}

column_keeps_scopes_example :
    covers
      (expand_legacy_scopes
        (split_words (scope_column (codes "openid" ∷ codes "email" ∷ codes "profile" ∷ []))))
      (codes "email" ∷ [])
    ≡ covers
        (expand_legacy_scopes (codes "openid" ∷ codes "email" ∷ codes "profile" ∷ []))
        (codes "email" ∷ [])
column_keeps_scopes_example =
    column_keeps_scopes (codes "openid" ∷ codes "email" ∷ codes "profile" ∷ []) (codes "email" ∷ [])
      (
        (refl, (refl, (refl, (refl, (refl, (refl, (refl, tt))))))),
        (
          (refl, (refl, (refl, (refl, (refl, (refl, tt)))))),
          ((refl, (refl, (refl, (refl, (refl, (refl, (refl, (refl, tt)))))))), tt),
        ),
      )

-- A cipher whose keys are single characters, and whose tokens name their key.
abbrev one_char : List ℕ → Option ℕ
one_char [] = none
one_char (c ∷ []) = some c
one_char (c ∷ d ∷ cs) = none

abbrev read_with : ℕ → List ℕ → Option (List ℕ)
read_with k [] = none
read_with k (k' ∷ []) = none
read_with k (k' ∷ nonce ∷ v) = if k == k' then some v else none

abbrev read_any : List ℕ → List ℕ → Option (List ℕ)
read_any [] token = none
read_any (k ∷ ks) token = first (read_with k token) (read_any ks token)
  where
    first : Option (List ℕ) → Option (List ℕ) → Option (List ℕ)
    first none rest = rest
    first (some v) rest = some v

abbrev write_first : List ℕ → ℕ → List ℕ → List ℕ
write_first [] nonce v = []
write_first (k ∷ ks) nonce v = k ∷ nonce ∷ v

read-written : (k nonce : ℕ) (v : List ℕ) → read_with k (k ∷ nonce ∷ v) ≡ some v
read-written k nonce v = ground arith

read_others :
    (k k' nonce : ℕ) (v : List ℕ)
    → (read_with k (k' ∷ nonce ∷ v) ≡ none) ⊎ (read_with k (k' ∷ nonce ∷ v) ≡ some v)
read_others k k' nonce v = elim (Bool-cases (k == k')) [
  | inl same ↦ rw same (inr refl)
  | inr other ↦ rw other (inl refl)
]

read_any-reads :
    (k : ℕ) (ks token v : List ℕ) → read_with k token ≡ some v → read_any (k ∷ ks) token ≡ some v
read_any-reads k ks token v e = rw e refl

read_any-skips :
    (k : ℕ) (ks token : List ℕ)
    → read_with k token ≡ none
    → read_any (k ∷ ks) token ≡ read_any ks token
read_any-skips k ks token e = rw e refl

abbrev toy : Fernet ℕ
toy = record {
  fernet = λ key. one_char key;
  encrypt_with = λ k nonce v. k ∷ nonce ∷ v;
  decrypt_with = λ k token. read_with k token;
  multi_encrypt = λ ks nonce v. write_first ks nonce v;
  multi_decrypt = λ ks token. read_any ks token;
  decrypt-encrypt = λ k nonce v. read-written k nonce v;
  decrypt-others = λ k k' nonce v. read_others k k' nonce v;
  multi_encrypt-first = λ k ks nonce v. refl;
  multi_decrypt-none = λ token. refl;
  multi_decrypt-reads = λ k ks token v e. read_any-reads k ks token v e;
  multi_decrypt-skips = λ k ks token e. read_any-skips k ks token e;
}

-- "a, b", and "c,,a" once the keys are changed.
abbrev first_setting : List (List ℕ)
first_setting = padded 0 (codes "a") 0 ∷ padded 1 (codes "b") 0 ∷ []

abbrev later_setting : List (List ℕ)
later_setting = padded 0 (codes "c") 0 ∷ blanks 0 ∷ padded 0 (codes "a") 0 ∷ []

as_text : (joined first_setting ≡ codes "a, b") × (joined later_setting ≡ codes "c,,a")
as_text = (refl, refl)

decrypt-encrypt_rotated_example :
    (encrypt toy (joined first_setting) 7 (codes "ya29") ≡ ok (b'a' ∷ 7 ∷ codes "ya29"))
    × (decrypt toy (joined later_setting) (b'a' ∷ 7 ∷ codes "ya29") ≡ ok (codes "ya29"))
decrypt-encrypt_rotated_example =
    decrypt-encrypt_rotated toy first_setting later_setting b'a' (b'b' ∷ []) (b'c' ∷ []) [] 7
      (codes "ya29")
      (Spells.key 0 b'a' [] 0 b'a' _ _ ((refl, refl), tt) refl
        (Spells.key 1 b'b' [] 0 b'b' _ _ ((refl, refl), tt) refl Spells.done))
      (Spells.key 0 b'c' [] 0 b'c' _ _ ((refl, refl), tt) refl
        (Spells.blank 0 _ _ (Spells.key 0 b'a' [] 0 b'a' _ _ ((refl, refl), tt) refl Spells.done)))

abbrev cipher : Cipher
cipher = usable_cipher toy b'a' [] 7

abbrev row_of : String → Option ℕ → GoogleConnection
row_of user expiry = record {
  user_id = user;
  google_sub = codes "1";
  email = codes "n@c.in";
  access_token = some (b'a' ∷ 7 ∷ codes "old");
  refresh_token = b'a' ∷ 7 ∷ codes "refresh";
  token_expiry = expiry;
  scopes = codes "openid";
  history_id = some (codes "100");
  last_polled_at = none;
  watch_expires_at = none;
  last_error = none;
  revoked_at = none;
}

abbrev table : List GoogleConnection
table = row_of "u" (some 1000) ∷ row_of "v" none ∷ []

abbrev token_of : List ℕ → RefreshedToken
token_of t = record { access_token = t; expires_in = 3600; refresh_token = none; scopes = [] }

-- A refresh that was in flight, and a reset of the cursor.
late-Writes : Writes cipher "u" (mark_revoked "u" (codes "gone") 500 table) (
    set_history_id "u" (codes "200") false (
      persist_refreshed cipher "u"
        (token_of (codes "late"))
        2000
        none
        (mark_revoked "u" (codes "gone") 500 table)))
late-Writes =
    Writes.next
      (Writes.next Writes.here (
        Write.refreshed (mark_revoked "u" (codes "gone") 500 table) "u" (token_of (codes "late"))
          2000 none))
      (Write.seeded
        (persist_refreshed cipher "u" (token_of (codes "late")) 2000 none
          (mark_revoked "u" (codes "gone") 500 table))
        "u" (codes "200") false)

abbrev late_table : List GoogleConnection
late_table = set_history_id "u" (codes "200") false (
    persist_refreshed cipher "u" (token_of (codes "late")) 2000 none
      (mark_revoked "u" (codes "gone") 500 table))

revoked_stays_example :
    (contains "u" (list_pollable_user_ids late_table) ≡ false)
    × ((before : ℕ) → contains "u" (list_watches_needing_renewal before late_table) ≡ false)
    × ((email : List ℕ) → find_user_id_by_mailbox (λ s. s) email late_table ≢ some "u")
revoked_stays_example =
    revoked_stays cipher (λ s. s) "u" (codes "gone") 500 table late_table late-Writes

abbrev refresh_at : List ℕ → ℕ → Refresh
refresh_at t expiry = record { token = token_of t; expiry = expiry; scopes = none }

-- The later one lands first.
abbrev two_refreshes : List Refresh
two_refreshes = refresh_at (codes "new") 3000 ∷ refresh_at (codes "slow") 2000 ∷ []

newest_token_kept_example :
    (r' : GoogleConnection) × (find? (of_user "u") (persist_all cipher "u" two_refreshes table)
      ≡ some r')
    × All (λ (w : Refresh). reaches w.expiry r'.token_expiry ≡ true) two_refreshes
    × NoEarlier (some 1000) r'.token_expiry
    × Origin cipher (row_of "u" (some 1000)) two_refreshes r'
newest_token_kept_example =
    newest_token_kept cipher "u" two_refreshes table (row_of "u" (some 1000)) refl

-- The row is revoked after ten seconds.
abbrev history : ℕ → List GoogleConnection
history now = if now == 0 then table else mark_revoked "u" (codes "gone") 500 table

-- Each load takes a second; the write is of another user.
abbrev two_reads : List CacheEvent
two_reads =
    CacheEvent.read "u" false 0 0 second
    ∷ CacheEvent.forget "v" (second * 5)
    ∷ CacheEvent.write (OwnWrite.watching "v" none) (second * 6)
    ∷ CacheEvent.read "u" false (second * 30) (second * 30) (second * 31)
    ∷ []

abbrev claims : Claims
claims = record { sub = codes "1"; email = codes "n@c.in"; email_verified = true }

abbrev exchanged : Response
exchanged = record {
  status_code = 200;
  body = record {
    access_token = some (codes "ya29");
    refresh_token = some (codes "1//r");
    expires_in = none;
    scope = some (codes "openid email");
    id_token = some (codes "jwt");
    error = none;
    error_description = none;
  };
}

abbrev grant : TokenGrant
grant = record {
  access_token = codes "ya29";
  refresh_token = some (codes "1//r");
  expires_in = 3600;
  scopes = codes "openid" ∷ codes "email" ∷ [];
  google_sub = codes "1";
  email = codes "n@c.in";
}

exchange_code-Verified_example :
    (exchanged.status_code ≡ 200)
    × ((t : List ℕ) × (grant.refresh_token ≡ some t) × (nonempty t ≡ true))
    × ((raw : List ℕ) × (info : Claims) × (exchanged.body.id_token ≡ some raw)
        × (some claims ≡ some info)
        × (info.email_verified ≡ true)
        × (grant.google_sub ≡ info.sub)
        × (grant.email ≡ info.email))
unfolding exchange_code verify_id_token split_words
exchange_code-Verified_example = exchange_code-Verified (λ raw. some claims) exchanged grant refl

abbrev moment : ℕ → Moment
moment now = record { now = now; monotonic = now; stamp = now; table = table }

-- The stored token has lapsed, the lock is free, and Google mints another.
get_credentials-Source_example :
    Source cipher "u" none
      (moment 5000)
      []
      (λ r. ok (token_of (codes "minted")))
      (get_connection cipher "u" false 5000 5000 table []).0
      (record {
        user_id = "u";
        access_token = codes "minted";
        email = codes "n@c.in";
        scopes = codes "openid" ∷ [];
      })
unfolding get_credentials get_connection load usable_cipher token_is_live refresh do_refresh
    expand_legacy_scopes split_words
get_credentials-Source_example =
    get_credentials-Source cipher "u" none (some true) [] (λ r. ok (token_of (codes "minted")))
      (moment 5000) (moment 5000) []
      (record {
        user_id = "u";
        access_token = codes "minted";
        email = codes "n@c.in";
        scopes = codes "openid" ∷ [];
      })
      refl

-- The connection has the scope that is required; the token that is minted comes without it, and
-- its credentials are given all the same.
abbrev narrow_token : RefreshedToken
narrow_token = record {
  access_token = codes "minted";
  expires_in = 3600;
  refresh_token = none;
  scopes = codes "email" ∷ [];
}

scope_lost :
    (get_credentials cipher "u"
      (some (codes "openid" ∷ []))
      (some true)
      []
      (λ r. ok narrow_token)
      (moment 5000)
      (moment 5000)
      []).result
    ≡ ok (record {
      user_id = "u";
      access_token = codes "minted";
      email = codes "n@c.in";
      scopes = codes "email" ∷ [];
    })
unfolding get_credentials get_connection load usable_cipher token_is_live refresh do_refresh
    expand_legacy_scopes split_words
scope_lost = refl
