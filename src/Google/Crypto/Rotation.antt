-- ===== src/Google/Crypto/Rotation.antt =====
-- Tokens that outlive a change of keys: src/core/crypto.py.
use inbox_pilot.Prelude.{ℕ, ◌≡◌, refl, ap, ◌∙◌, inl, inr, some, List, [], ◌∷◌, ◌++◌, ok}
use inbox_pilot.Google.Crypto.{Cipher, Fernet, multi_fernet, encrypt, decrypt}
use inbox_pilot.Google.Crypto.Setting.{Spells, joined, multi_fernet-Spells}

module _ {K : Type 0} (lib : Fernet K) where
  pub multi_decrypt-written :
      (newer older : List K) (k : K) (nonce : ℕ) (v : List ℕ)
      → lib.multi_decrypt (newer ++ (k ∷ older)) (lib.encrypt_with k nonce v) ≡ some v
  multi_decrypt-written [] older k nonce v =
      lib.multi_decrypt-reads k older _ v (lib.decrypt-encrypt k nonce v)
  multi_decrypt-written (k' ∷ newer) older k nonce v =
      let rest = newer ++ (k ∷ older) in
      elim (lib.decrypt-others k' k nonce v) [
        | inl none_read ↦
            lib.multi_decrypt-skips k' rest _ none_read
            ∙ multi_decrypt-written newer older k nonce v
        | inr read ↦ lib.multi_decrypt-reads k' rest _ v read
      ]

  -- Settings are keys between commas, with blanks around them, where a text that is blank counts
  -- for nothing. What is encrypted under one setting is written with its first key, and it is
  -- decrypted under any other setting that still holds this key, wherever it stands in it: the
  -- value comes back.
  pub decrypt-encrypt_rotated :
      (es later : List (List ℕ)) (k : K) (ks newer older : List K) (nonce : ℕ) (value : List ℕ)
      → Spells lib es (k ∷ ks)
      → Spells lib later (newer ++ (k ∷ older))
      → (encrypt lib (joined es) nonce value ≡ ok (lib.encrypt_with k nonce value))
        × (decrypt lib (joined later) (lib.encrypt_with k nonce value) ≡ ok value)
  unfolding encrypt decrypt
  decrypt-encrypt_rotated es later k ks newer older nonce value s l = (
    rw (multi_fernet-Spells lib es k ks s, lib.multi_encrypt-first k ks nonce value) refl,
    rw (opened newer l, multi_decrypt-written newer older k nonce value) refl,
  )
    where
      opened :
          (newer : List K)
          → Spells lib later (newer ++ (k ∷ older))
          → multi_fernet lib (joined later) ≡ ok (newer ++ (k ∷ older))
      opened [] l = multi_fernet-Spells lib later k older l
      opened (k' ∷ newer) l = multi_fernet-Spells lib later k' (newer ++ (k ∷ older)) l

  -- The cipher that a setting with usable keys gives.
  unfoldable pub usable_cipher : (k : K) (ks : List K) (nonce : ℕ) → Cipher
  usable_cipher k ks nonce = record {
    seal = λ v. lib.multi_encrypt (k ∷ ks) nonce v;
    unseal = λ token. lib.multi_decrypt (k ∷ ks) token;
    unseal-seal = λ v.
        ap (lib.multi_decrypt (k ∷ ks)) (lib.multi_encrypt-first k ks nonce v)
        ∙ multi_decrypt-written [] ks k nonce v;
  }
