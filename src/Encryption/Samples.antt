-- ===== src/Encryption/Samples.antt =====
-- A small cipher that satisfies what the proofs ask of Node's crypto, and services that use it: the
-- data of the tests. The key stands in front of the plaintext, which is not secret but is checked.
use open_privy.Base.{
  ℕ, zero, suc, ◌+◌, ◌%◌, ◌<◌, Text, text_eq, text_eq_iff, text_eq_refl, length, take, drop, All,
  [], ◌∷◌, ◌++◌, none, some, ◌≡◌, ◌≢◌, refl, sym, ap, arith, Bool-cases, inl, inr, if◌then◌else◌,
}
use open_privy.Encryption.{Crypto, EncryptionService}
use open_privy.Encryption.Hex.{IsByte}
use open_privy.Encryption.Format.{IsBytes}
use open_privy.Encryption.RoundTrip.{CryptoLaws}

abbrev pub fill : ℕ → ℕ → Text
fill zero b = []
fill (suc n) b = b ∷ fill n b

abbrev sum : Text → ℕ
sum [] = 0
sum (c ∷ s) = c + sum s

abbrev pub toy : Crypto
toy = record {
  sha256 = λ s. fill 8 (sum s % 256);
  pbkdf2 = λ password salt rounds n. fill n ((sum password + sum salt) % 256);
  gcm_seal = λ key iv plaintext. (key ++ plaintext, fill 16 0);
  gcm_open = λ key iv tag ciphertext.
      if text_eq (take 32 ciphertext) key then some (drop 32 ciphertext) else none;
  from_base64 = λ s. s;
  uuid = λ n. n ∷ [];
}

fill-IsBytes : (n b : ℕ) → b < 256 → IsBytes n (fill n b)
fill-IsBytes zero b h = (refl, tt)
fill-IsBytes (suc n) b h = (ap suc (fill-IsBytes n b h).0, (h, (fill-IsBytes n b h).1))

take-append : (n : ℕ) (a b : Text) → length a ≡ n → take n (a ++ b) ≡ a
take-append zero [] b h = ground arith
take-append zero (x ∷ a) b h = absurd (omega arith)
take-append (suc n) [] b h = absurd (omega arith)
take-append (suc n) (x ∷ a) b h = ap (◌∷◌ x) (take-append n a b (omega arith))

drop-append : (n : ℕ) (a b : Text) → length a ≡ n → drop n (a ++ b) ≡ b
drop-append zero [] b h = ground arith
drop-append zero (x ∷ a) b h = absurd (omega arith)
drop-append (suc n) [] b h = absurd (omega arith)
drop-append (suc n) (x ∷ a) b h = drop-append n a b (omega arith)

All-bytes : (a b : Text) → All IsByte a → All IsByte b → All IsByte (a ++ b)
All-bytes [] b h k = k
All-bytes (x ∷ a) b (h, hs) k = (h, All-bytes a b hs k)

pub toy_laws : CryptoLaws toy
toy_laws = record {
  pbkdf2_key = λ password salt rounds. fill-IsBytes 32 _ (omega arith);
  sealed_bytes = λ key iv plaintext k p. All-bytes key plaintext k.1 p;
  tag_bytes = λ key iv plaintext. fill-IsBytes 16 0 (omega arith);
  open_seal = λ key iv plaintext k. opened key plaintext k.0;
  open_other = λ key other iv plaintext k o differ. refused key other plaintext k.0 differ;
}
  where
    opened :
        (key plaintext : Text)
        → length key ≡ 32
        → toy.gcm_open key [] [] (key ++ plaintext) ≡ some plaintext
    opened key plaintext k =
        rw (take-append 32 key plaintext k)
          (rw (drop-append 32 key plaintext k) (rw (text_eq_refl key)))

    refused :
        (key other plaintext : Text)
        → length key ≡ 32
        → other ≢ key
        → toy.gcm_open other [] [] (key ++ plaintext) ≡ none
    refused key other plaintext k differ =
        rw (take-append 32 key plaintext k) (elim (Bool-cases (text_eq key other)) [
          | inl same ↦ absurd (differ (sym ((text_eq_iff key other).0 same)))
          | inr different ↦ rw different
        ])

-- Three master keys and three services.
abbrev pub key_a : Text
key_a = fill 32 1

abbrev pub key_b : Text
key_b = fill 32 2

abbrev pub first : EncryptionService
first = record { master_key = key_a; previous_keys = [] }

abbrev pub second : EncryptionService
second = record { master_key = key_b; previous_keys = key_a ∷ [] }

abbrev pub zero_iv : Text
zero_iv = fill 16 0

pub zero_iv-IsBytes : IsBytes 16 zero_iv
zero_iv-IsBytes = fill-IsBytes 16 0 (omega arith)
