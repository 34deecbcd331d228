-- ===== src/Encryption/RoundTrip.antt =====
-- What encryption.service.ts reads back of what it wrote, under the laws of the primitives.
use open_privy.Base.{
  ℕ, Text, All, List, [], ◌∷◌, ◌++◌, ◌≡◌, ◌≢◌, refl, ok, err, failure, none, some,
}
use open_privy.Base.Errors.{◌>>=◌}
use open_privy.Encryption.{
  Crypto, EncryptionService, Sealed, Reencrypted, parse_ciphertext, iv_length, auth_tag_length,
  key_length, pbkdf2_iterations, derive_user_key, decrypt_with, try_keys, current_key_id, encrypt,
  decrypt_with_key_id, decrypt, decrypt_with_current_key_only, reencrypt_to_current_key,
}
use open_privy.Encryption.Hex.{IsByte, to_hex, from_hex-to_hex, is_paired-to_hex}
use open_privy.Encryption.Format.{IsBytes, parse_ciphertext-format_ciphertext}

-- What the service relies on of Node's crypto: sizes, and authenticated encryption under a key that
-- opens what it sealed while every other key of the right size fails.
pub record CryptoLaws (c : Crypto) : Type 0 where
  pub pbkdf2_key :
      (password salt : Text) (rounds : ℕ)
      → IsBytes key_length (c.pbkdf2 password salt rounds key_length)
  pub sealed_bytes :
      (key iv plaintext : Text)
      → IsBytes key_length key
      → All IsByte plaintext
      → All IsByte (c.gcm_seal key iv plaintext).0
  pub tag_bytes :
      (key iv plaintext : Text) → IsBytes auth_tag_length (c.gcm_seal key iv plaintext).1
  pub open_seal :
      (key iv plaintext : Text)
      → IsBytes key_length key
      → c.gcm_open key iv (c.gcm_seal key iv plaintext).1 (c.gcm_seal key iv plaintext).0
        ≡ some plaintext
  pub open_other :
      (key other iv plaintext : Text)
      → IsBytes key_length key
      → IsBytes key_length other
      → other ≢ key
      → c.gcm_open other iv (c.gcm_seal key iv plaintext).1 (c.gcm_seal key iv plaintext).0 ≡ none

module _ (c : Crypto) (laws : CryptoLaws c) where
  derived : (key : Text) (user_id : ℕ) → IsBytes key_length (derive_user_key c key user_id)
  unfolding derive_user_key
  derived key user_id = laws.pbkdf2_key key _ pbkdf2_iterations

  -- What `encrypt` writes, as `parseCiphertext` reads it.
  abbrev pub written : EncryptionService → Text → Text → ℕ → Sealed
  written service iv plaintext user_id =
      let sealed = c.gcm_seal (derive_user_key c service.master_key user_id) iv plaintext in
      record { iv = iv; auth_tag = sealed.1; ciphertext = to_hex sealed.0 }

  parse_ciphertext-encrypt :
      (service : EncryptionService) (iv plaintext : Text) (user_id : ℕ)
      → IsBytes iv_length iv
      → parse_ciphertext (encrypt c service iv plaintext user_id)
        ≡ ok (written service iv plaintext user_id)
  unfolding encrypt
  parse_ciphertext-encrypt service iv plaintext user_id i =
      let key = derive_user_key c service.master_key user_id in
      parse_ciphertext-format_ciphertext c iv (c.gcm_seal key iv plaintext).0
        (c.gcm_seal key iv plaintext).1 i (laws.tag_bytes key iv plaintext)

  decrypt_with-written :
      (service : EncryptionService) (iv plaintext : Text) (user_id : ℕ)
      → All IsByte plaintext
      → decrypt_with c service.master_key (written service iv plaintext user_id) user_id
        ≡ some plaintext
  unfolding decrypt_with
  decrypt_with-written service iv plaintext user_id p =
      let key = derive_user_key c service.master_key user_id in
      rw
        (
          is_paired-to_hex (c.gcm_seal key iv plaintext).0,
          from_hex-to_hex (c.gcm_seal key iv plaintext).0
              (laws.sealed_bytes key iv plaintext (derived service.master_key user_id) p),
          decrypt_with,
        )
        (laws.open_seal key iv plaintext (derived service.master_key user_id))

  -- A key that differs for the reading user does not open it.
  abbrev pub Misses : Text → ℕ → Text → ℕ → Type 0
  Misses key user_id other reader = derive_user_key c other reader ≢ derive_user_key c key user_id

  decrypt_with-other :
      (service : EncryptionService) (iv plaintext : Text) (user_id : ℕ) (other : Text) (reader : ℕ)
      → All IsByte plaintext
      → Misses service.master_key user_id other reader
      → decrypt_with c other (written service iv plaintext user_id) reader ≡ none
  unfolding decrypt_with
  decrypt_with-other service iv plaintext user_id other reader p differ =
      let key = derive_user_key c service.master_key user_id in
      rw
        (
          is_paired-to_hex (c.gcm_seal key iv plaintext).0,
          from_hex-to_hex (c.gcm_seal key iv plaintext).0
              (laws.sealed_bytes key iv plaintext (derived service.master_key user_id) p),
          decrypt_with,
        )
        (laws.open_other key (derive_user_key c other reader) iv plaintext
          (derived service.master_key user_id) (derived other reader) differ)

  try_keys-skip :
      (wrong keys : List Text) (sealed : Sealed) (user_id : ℕ)
      → All (λ k. decrypt_with c k sealed user_id ≡ none) wrong
      → try_keys c (wrong ++ keys) sealed user_id ≡ try_keys c keys sealed user_id
  unfolding try_keys
  try_keys-skip [] keys sealed user_id h = refl
  try_keys-skip (k ∷ wrong) keys sealed user_id (e, h) =
      rw (e, try_keys) (try_keys-skip wrong keys sealed user_id h)

  try_keys-none :
      (keys : List Text) (sealed : Sealed) (user_id : ℕ)
      → All (λ k. decrypt_with c k sealed user_id ≡ none) keys
      → try_keys c keys sealed user_id
        ≡ err (failure "Failed to decrypt data (tampering detected or wrong key)")
  unfolding try_keys
  try_keys-none [] sealed user_id h = refl
  try_keys-none (k ∷ keys) sealed user_id (e, h) =
      rw (e, try_keys) (try_keys-none keys sealed user_id h)

  All-missed :
      (service : EncryptionService) (iv plaintext : Text) (user_id reader : ℕ)
      → All IsByte plaintext
      → (ks : List Text) → All (λ k. Misses service.master_key user_id k reader) ks
      → All (λ k. decrypt_with c k (written service iv plaintext user_id) reader ≡ none) ks
  All-missed service iv plaintext user_id reader p [] h = tt
  All-missed service iv plaintext user_id reader p (k ∷ ks) (d, h) = (
    decrypt_with-other service iv plaintext user_id k reader p d,
    All-missed service iv plaintext user_id reader p ks h,
  )

  -- A service that holds the sealing key behind keys that miss.
  module _ (old now : EncryptionService) (iv plaintext : Text) (user_id : ℕ)
      (wrong rest : List Text)
      (held : now.master_key ∷ now.previous_keys ≡ wrong ++ (old.master_key ∷ rest))
      (miss : All (λ k. Misses old.master_key user_id k user_id) wrong) (i : IsBytes iv_length iv)
      (p : All IsByte plaintext) where
    -- Under the laws of the primitives, with a sixteen-byte iv and a plaintext of bytes: a ciphertext
    -- that the old service wrote is decrypted by any service that holds the old master key behind
    -- keys which derive other keys for this user, and the answer names the old key. So it is read
    -- with the key as the current one or as any previous one.
    pub decrypt_with_key_id-encrypt :
        decrypt_with_key_id c now (encrypt c old iv plaintext user_id) user_id
        ≡ ok (record { plaintext = plaintext; key_id = current_key_id c old })
    unfolding decrypt_with_key_id current_key_id try_keys
    decrypt_with_key_id-encrypt =
        rw (parse_ciphertext-encrypt old iv plaintext user_id i, decrypt_with_key_id)
          (rw (held, ◌>>=◌)
            (rw
              (try_keys-skip wrong (old.master_key ∷ rest) _ user_id
                (All-missed old iv plaintext user_id user_id p wrong miss))
              (rw (decrypt_with-written old iv plaintext user_id p, try_keys))))

    -- Under the laws of the primitives, with sixteen-byte ivs and a plaintext of bytes: for a
    -- ciphertext that an old service wrote, and a service that holds the old master key behind keys
    -- which derive other keys for this user, `reencryptToCurrentKey` answers with a ciphertext that
    -- the current key alone decrypts to the same plaintext, and names the key that the data came
    -- from.
    pub reencrypt_to_current_key-encrypt :
        (iv' : Text)
        → IsBytes iv_length iv'
        → (r : Reencrypted) × (reencrypt_to_current_key c now iv'
              (encrypt c old iv plaintext user_id)
              user_id
            ≡ ok r)
          × (decrypt_with_current_key_only c now r.ciphertext user_id ≡ ok plaintext)
          × (r.plaintext ≡ plaintext)
          × (r.from_key_id ≡ current_key_id c old)
    unfolding reencrypt_to_current_key decrypt_with_current_key_only
    reencrypt_to_current_key-encrypt iv' i' = (
      record {
        ciphertext = encrypt c now iv' plaintext user_id;
        plaintext = plaintext;
        from_key_id = current_key_id c old;
      },
      rw (decrypt_with_key_id-encrypt, ◌>>=◌),
      rw (parse_ciphertext-encrypt now iv' plaintext user_id i', ◌>>=◌)
          (rw (decrypt_with-written now iv' plaintext user_id p)),
      refl,
      refl,
    )

  -- Under the laws of the primitives, with a sixteen-byte iv and a plaintext of bytes: a ciphertext
  -- cannot be read for another user, if every key held derives for that user another key than the
  -- one that sealed it.
  pub decrypt-other_user :
      (service : EncryptionService) (iv plaintext : Text) (user_id reader : ℕ)
      → IsBytes iv_length iv
      → All IsByte plaintext
      → All
          (λ k. Misses service.master_key user_id k reader)
          (service.master_key ∷ service.previous_keys)
      → decrypt c service (encrypt c service iv plaintext user_id) reader
        ≡ err (failure "Failed to decrypt data (tampering detected or wrong key)")
  unfolding decrypt decrypt_with_key_id
  decrypt-other_user service iv plaintext user_id reader i p miss =
      rw (parse_ciphertext-encrypt service iv plaintext user_id i, ◌>>=◌)
        (rw (
          try_keys-none (service.master_key ∷ service.previous_keys)
              (written service iv plaintext user_id) reader
              (All-missed service iv plaintext user_id reader p
                (service.master_key ∷ service.previous_keys) miss),
          ◌>>=◌,
        ))
