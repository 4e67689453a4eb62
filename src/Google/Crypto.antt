-- ===== src/Google/Crypto.antt =====
-- Secrets at rest: src/core/crypto.py. The package `cryptography` is a section parameter: its
-- Fernet and MultiFernet, and as laws what their documentation says. A token is made with a nonce.
-- The setting with the keys is an argument; texts are encoded in the package's operations.
pub mod Setting
pub mod Rotation
use inbox_pilot.Prelude.{
  ℕ, ◌==◌, ◌≡◌, ◌⊎◌, Bool, true, false, Option, none, some, List, [], ◌∷◌, map, filter, strip,
  nonempty, if◌then◌else◌, Result, err, ok, ◌>>=◌,
}

pub record Fernet (K : Type 0) : Type 0 where
  -- `Fernet(key)`, which raises ValueError on a malformed key.
  pub fernet : List ℕ → Option K
  pub encrypt_with : K → ℕ → List ℕ → List ℕ
  pub decrypt_with : K → List ℕ → Option (List ℕ)
  -- `MultiFernet(keys).encrypt` and `.decrypt`, which raises InvalidToken.
  pub multi_encrypt : List K → ℕ → List ℕ → List ℕ
  pub multi_decrypt : List K → List ℕ → Option (List ℕ)
  -- A key reads what it wrote; what another key wrote it reads as that, or not at all.
  pub decrypt-encrypt :
      (k : K) (nonce : ℕ) (v : List ℕ) → decrypt_with k (encrypt_with k nonce v) ≡ some v
  pub decrypt-others :
      (k k' : K) (nonce : ℕ) (v : List ℕ)
      → (decrypt_with k (encrypt_with k' nonce v) ≡ none)
        ⊎ (decrypt_with k (encrypt_with k' nonce v) ≡ some v)
  -- The first key encrypts, and decryption tries each key in turn.
  pub multi_encrypt-first :
      (k : K) (ks : List K) (nonce : ℕ) (v : List ℕ)
      → multi_encrypt (k ∷ ks) nonce v ≡ encrypt_with k nonce v
  pub multi_decrypt-none : (token : List ℕ) → multi_decrypt [] token ≡ none
  pub multi_decrypt-reads :
      (k : K) (ks : List K) (token v : List ℕ)
      → decrypt_with k token ≡ some v
      → multi_decrypt (k ∷ ks) token ≡ some v
  pub multi_decrypt-skips :
      (k : K) (ks : List K) (token : List ℕ)
      → decrypt_with k token ≡ none
      → multi_decrypt (k ∷ ks) token ≡ multi_decrypt ks token

-- What the rows need of a setting whose keys are usable.
pub record Cipher : Type 0 where
  pub seal : List ℕ → List ℕ
  pub unseal : List ℕ → Option (List ℕ)
  pub unseal-seal : (v : List ℕ) → unseal (seal v) ≡ some v

pub data CryptoError : Type 0 where
  encryption_unavailable decryption_failed : CryptoError

-- `text.split(",")`
abbrev pub prefixed : ℕ → List (List ℕ) → List (List ℕ)
prefixed c [] = (c ∷ []) ∷ []
prefixed c (w ∷ ws) = (c ∷ w) ∷ ws

abbrev pub split_commas : List ℕ → List (List ℕ)
split_commas [] = [] ∷ []
split_commas (c ∷ cs) =
    let rest = split_commas cs in if c == b',' then [] ∷ rest else prefixed c rest

abbrev pub both {ℓ} : {K : Type ℓ} → Option K → Option (List K) → Option (List K)
both none ks = none
both (some k) none = none
both (some k) (some ks) = some (k ∷ ks)

abbrev pub usable {ℓ} : {K : Type ℓ} → Option (List K) → Result CryptoError (List K)
usable none = err encryption_unavailable
usable (some ks) = ok ks

module _ {K : Type 0} (lib : Fernet K) where
  -- `[Fernet(key) for key in keys]`
  abbrev pub fernets : List (List ℕ) → Option (List K)
  fernets [] = some []
  fernets (key ∷ keys) = both (lib.fernet key) (fernets keys)

  abbrev pub fernet_of : List (List ℕ) → Result CryptoError (List K)
  fernet_of [] = err encryption_unavailable
  fernet_of (key ∷ keys) = usable (fernets (key ∷ keys))

  -- `_fernet`: the keys of the MultiFernet.
  unfoldable pub multi_fernet : List ℕ → Result CryptoError (List K)
  multi_fernet setting = fernet_of (filter nonempty (map strip (split_commas setting)))

  abbrev pub decrypted : Option (List ℕ) → Result CryptoError (List ℕ)
  decrypted none = err decryption_failed
  decrypted (some v) = ok v

  unfoldable pub encrypt : List ℕ → ℕ → List ℕ → Result CryptoError (List ℕ)
  encrypt setting nonce value = multi_fernet setting >>= λ ks. ok (lib.multi_encrypt ks nonce value)

  unfoldable pub decrypt : List ℕ → List ℕ → Result CryptoError (List ℕ)
  decrypt setting value = multi_fernet setting >>= λ ks. decrypted (lib.multi_decrypt ks value)

  abbrev pub usable_keys : Result CryptoError (List K) → Bool
  usable_keys (err raised) = false
  usable_keys (ok ks) = true

  unfoldable pub is_configured : List ℕ → Bool
  is_configured setting = usable_keys (multi_fernet setting)
