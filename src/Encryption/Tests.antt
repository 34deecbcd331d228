-- ===== src/Encryption/Tests.antt =====
-- Tests of the encryption: the theorems on concrete keys, plaintexts and users.
use open_privy.Base.{ℕ, Text, [], ◌∷◌, All, ◌≡◌, ◌≢◌, refl, ap, arith, ok, err, failure}
use open_privy.Encryption.{
  Reencrypted, Sealed, parse_ciphertext, format_ciphertext, derive_user_key, current_key_id,
  encrypt, decrypt, decrypt_with_key_id, decrypt_with_current_key_only, reencrypt_to_current_key,
}
use open_privy.Encryption.Hex.{IsByte, to_hex}
use open_privy.Encryption.Format.{parse_ciphertext-format_ciphertext}
use open_privy.Encryption.RoundTrip.{
  Misses, decrypt_with_key_id-encrypt, reencrypt_to_current_key-encrypt, decrypt-other_user,
}
use open_privy.Encryption.Samples.{
  toy, toy_laws, key_a, key_b, first, second, zero_iv, zero_iv-IsBytes,
}

abbrev secret : Text
secret = 5 ∷ 255 ∷ 0 ∷ []

secret_bytes : All IsByte secret
secret_bytes = (omega arith, (omega arith, (omega arith, tt)))

-- The keys of one user under the two master keys, and of two users under one, differ.
first_unit : Text → ℕ
first_unit [] = 0
first_unit (c ∷ s) = c

differ_by_first : (s t : Text) → first_unit s ≢ first_unit t → s ≢ t
differ_by_first s t h e = h (ap first_unit e)

second-Misses : Misses toy toy_laws key_a 7 key_b 7
unfolding derive_user_key first_unit
second-Misses = differ_by_first _ _ (omega arith)

other-Misses : Misses toy toy_laws key_a 7 key_a 8
unfolding derive_user_key first_unit
other-Misses = differ_by_first _ _ (omega arith)

decrypt_with_key_id-encrypt_example :
    decrypt_with_key_id toy second (encrypt toy first zero_iv secret 7) 7
    ≡ ok (record { plaintext = secret; key_id = current_key_id toy first })
decrypt_with_key_id-encrypt_example =
    decrypt_with_key_id-encrypt toy toy_laws first second zero_iv secret 7 (key_b ∷ []) [] refl
      (second-Misses, tt) zero_iv-IsBytes secret_bytes

reencrypt_to_current_key-encrypt_example :
    (r : Reencrypted) × (reencrypt_to_current_key toy second zero_iv
        (encrypt toy first zero_iv secret 7)
        7
      ≡ ok r)
    × (decrypt_with_current_key_only toy second r.ciphertext 7 ≡ ok secret)
    × (r.plaintext ≡ secret)
    × (r.from_key_id ≡ current_key_id toy first)
reencrypt_to_current_key-encrypt_example =
    reencrypt_to_current_key-encrypt toy toy_laws first second zero_iv secret 7 (key_b ∷ []) [] refl
      (second-Misses, tt) zero_iv-IsBytes secret_bytes zero_iv zero_iv-IsBytes

decrypt-other_user_example :
    decrypt toy first (encrypt toy first zero_iv secret 7) 8
    ≡ err (failure "Failed to decrypt data (tampering detected or wrong key)")
decrypt-other_user_example =
    decrypt-other_user toy toy_laws first zero_iv secret 7 8 zero_iv-IsBytes secret_bytes
      (other-Misses, tt)

abbrev read_back : Sealed
read_back = record { iv = zero_iv; auth_tag = zero_iv; ciphertext = to_hex secret }

parse_ciphertext-format_ciphertext_example :
    parse_ciphertext (format_ciphertext toy zero_iv (secret, zero_iv)) ≡ ok read_back
parse_ciphertext-format_ciphertext_example =
    parse_ciphertext-format_ciphertext toy zero_iv secret zero_iv zero_iv-IsBytes zero_iv-IsBytes
