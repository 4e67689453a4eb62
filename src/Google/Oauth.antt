-- ===== src/Google/Oauth.antt =====
-- The exchange of codes and tokens with Google: src/integrations/google/oauth.py. What Google
-- answers is an argument, and so is google-auth's check of an id_token. A body's fields may be
-- missing.
pub mod Exchange
use inbox_pilot.Prelude.{
  ℕ, ◌==◌, Bool, true, false, Option, none, some, List, [], ◌∷◌, codes, nonempty, text_eq, Result,
  err, ok, ◌>>=◌, if◌then◌else◌,
}
use inbox_pilot.Google.Scopes.{split_words}
use inbox_pilot.Google.Connection.{TokenGrant, RefreshedToken}

pub record Body : Type 0 where
  pub access_token : Option (List ℕ)
  pub refresh_token : Option (List ℕ)
  pub expires_in : Option ℕ
  pub scope : Option (List ℕ)
  pub id_token : Option (List ℕ)
  pub error : Option (List ℕ)
  pub error_description : Option (List ℕ)

pub record Response : Type 0 where
  pub status_code : ℕ
  pub body : Body

-- GrantRevoked with its text, GoogleOAuthError, and the KeyError of a body without a field.
pub data OauthError : Type 0 where
  grant_revoked : List ℕ → OauthError
  google_oauth_error key_error : OauthError

abbrev pub text_or : Option (List ℕ) → List ℕ → List ℕ
text_or none fallback = fallback
text_or (some t) fallback = if nonempty t then t else fallback

abbrev pub is_text : List ℕ → Option (List ℕ) → Bool
is_text t none = false
is_text t (some s) = text_eq s t

abbrev pub required_field : Option (List ℕ) → Result OauthError (List ℕ)
required_field none = err key_error
required_field (some t) = ok t

abbrev pub number_or : Option ℕ → ℕ → ℕ
number_or none fallback = fallback
number_or (some n) fallback = n

abbrev pub granted_scopes : Body → List (List ℕ)
granted_scopes body = split_words (text_or body.scope [])

abbrev pub refreshed_token : Body → Result OauthError RefreshedToken
refreshed_token body = required_field body.access_token >>= λ access_token. ok (record {
  access_token = access_token;
  expires_in = number_or body.expires_in 3600;
  refresh_token = body.refresh_token;
  scopes = granted_scopes body;
})

-- A 400 whose body is no JSON reads as an empty body.
unfoldable pub refresh_access_token : Response → Result OauthError RefreshedToken
refresh_access_token resp =
    if resp.status_code == 400
    then (if is_text (codes "invalid_grant") resp.body.error
        then err (grant_revoked (text_or resp.body.error_description (codes "invalid_grant")))
        else err google_oauth_error)
    else if resp.status_code == 200
    then refreshed_token resp.body
    else err google_oauth_error

-- What an id_token says.
pub record Claims : Type 0 where
  pub sub : List ℕ
  pub email : List ℕ
  pub email_verified : Bool

-- `verify` is `verify_oauth2_token`, which raises ValueError on a token that it does not take.
abbrev pub verified_only : Bool → Claims → Result OauthError Claims
verified_only true info = ok info
verified_only false info = err google_oauth_error

abbrev pub checked : Option Claims → Result OauthError Claims
checked none = err google_oauth_error
checked (some info) = verified_only info.email_verified info

unfoldable pub verify_id_token :
    (List ℕ → Option Claims) → Option (List ℕ) → Result OauthError Claims
verify_id_token verify none = err google_oauth_error
verify_id_token verify (some raw) =
    if nonempty raw then checked (verify raw) else err google_oauth_error

abbrev pub given : Option (List ℕ) → Result OauthError (List ℕ)
given none = err google_oauth_error
given (some t) = if nonempty t then ok t else err google_oauth_error

unfoldable pub exchange_code : (List ℕ → Option Claims) → Response → Result OauthError TokenGrant
exchange_code verify resp =
    if resp.status_code == 200
    then (given resp.body.refresh_token >>= λ refresh_token.
        verify_id_token verify resp.body.id_token >>= λ info.
        required_field resp.body.access_token >>= λ access_token. ok (record {
          access_token = access_token;
          refresh_token = some refresh_token;
          expires_in = number_or resp.body.expires_in 3600;
          scopes = granted_scopes resp.body;
          google_sub = info.sub;
          email = info.email;
        }))
    else err google_oauth_error
