-- ===== src/Encryption/Format.antt =====
-- The text `iv:authTag:ciphertext` that `encrypt` writes and `parseCiphertext` reads.
use open_privy.Base.{ℕ, Text, length, All, List, [], ◌∷◌, ◌++◌, ◌≡◌, arith, ok}
use open_privy.Encryption.{
  Crypto, Sealed, parse_parts, parse_ciphertext, format_ciphertext, iv_length, auth_tag_length,
}
use open_privy.Encryption.Hex.{
  IsByte, to_hex, split_on, split_on-to_hex, split_on-to_hex_append, from_hex-to_hex,
}

abbrev pub IsBytes : ℕ → Text → Type 0
IsBytes n bs = (length bs ≡ n) × All IsByte bs

split_on-format_ciphertext :
    (c : Crypto) (iv ciphertext auth_tag : Text)
    → split_on b':' (format_ciphertext c iv (ciphertext, auth_tag))
      ≡ to_hex iv ∷ to_hex auth_tag ∷ to_hex ciphertext ∷ []
unfolding format_ciphertext
split_on-format_ciphertext c iv ciphertext auth_tag =
    rw (split_on-to_hex_append iv (to_hex auth_tag ++ (b':' ∷ to_hex ciphertext)))
      (rw (split_on-to_hex_append auth_tag (to_hex ciphertext)) (rw (split_on-to_hex ciphertext)))

-- What is written with an iv and a tag of the right lengths is read back.
pub parse_ciphertext-format_ciphertext :
    (c : Crypto) (iv ciphertext auth_tag : Text)
    → IsBytes iv_length iv
    → IsBytes auth_tag_length auth_tag
    → parse_ciphertext (format_ciphertext c iv (ciphertext, auth_tag))
      ≡ ok (record { iv = iv; auth_tag = auth_tag; ciphertext = to_hex ciphertext })
unfolding parse_ciphertext
parse_ciphertext-format_ciphertext c iv ciphertext auth_tag i t =
    rw (split_on-format_ciphertext c iv ciphertext auth_tag, parse_ciphertext)
      (ground (arith, from_hex-to_hex iv i.1, from_hex-to_hex auth_tag t.1))

parse_parts_lengths :
    (parts : List Text) (sealed : Sealed)
    → parse_parts parts ≡ ok sealed
    → (length sealed.iv ≡ iv_length) × (length sealed.auth_tag ≡ auth_tag_length)
unfolding parse_parts
parse_parts_lengths (i ∷ t ∷ ct ∷ []) sealed e = ground arith
parse_parts_lengths _ sealed e = cc

-- Whatever is read has an iv and a tag of sixteen bytes.
parse_ciphertext_lengths :
    (encrypted : Text) (sealed : Sealed)
    → parse_ciphertext encrypted ≡ ok sealed
    → (length sealed.iv ≡ iv_length) × (length sealed.auth_tag ≡ auth_tag_length)
unfolding parse_ciphertext
parse_ciphertext_lengths encrypted sealed e = parse_parts_lengths (split_on b':' encrypted) sealed e
