-- ===== src/Signing/Tests.antt =====
-- Tests of the signing: a token whose s lies in the upper half.
use open_privy.Base.{
  ℕ, ◌+◌, ◌-◌, ◌/◌, ◌≤◌, Text, length, take, drop, replicate, ◌++◌, [], ◌∷◌, Result, ok, ◌≡◌, refl,
  ◌⊎◌,
}
use open_privy.Base.Strings.{lower_unit, text_eq}
use open_privy.Signing.{
  secp256k1_order, Signature, Session, HsmSigningKey, low_s, try_parities, sign,
}
use open_privy.Signing.LowS.{Recovers, sign-low}

-- A number is the first of its bytes, which are not bounded here.
abbrev first_unit : Text → Result ℕ
first_unit [] = ok 0
first_unit (b ∷ bs) = ok b

abbrev session : Session
session = record {
  find_private = λ label. 1 ∷ [];
  find_public = λ label. replicate 65 4 ∷ [];
  generate_key_pair = λ label. (1, replicate 65 4);
  sign_once = λ key digest. ok (replicate 32 9 ++ replicate 32 (secp256k1_order - 5));
  to_number = first_unit;
  recover_address = λ digest r s v. ok (v ∷ []);
  compute_address = λ public_key. 28 ∷ [];
}

abbrev key : HsmSigningKey
key = record { private_key = 1; public_key = replicate 65 4 }

abbrev signature : Signature
signature = record { r = 9; s = 5; v = 28 }

abbrev digest : Text
digest = replicate 32 0

signed : sign session key digest ≡ ok signature
unfolding sign low_s try_parities text_eq lower_unit
signed = refl

sign-low_example :
    (length digest ≡ 32)
    × (5 ≤ secp256k1_order / 2)
    × Recovers session key digest signature
    × (raw : Text) × (s : ℕ) × (session.sign_once key.private_key digest ≡ ok raw)
    × (session.to_number (take 32 raw) ≡ ok 9)
    × (session.to_number (take 32 (drop 32 raw)) ≡ ok s)
    × ((5 ≡ s) ⊎ (5 + s ≡ secp256k1_order))
sign-low_example = sign-low session key digest signature signed
