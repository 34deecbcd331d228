-- ===== src/Signing.antt =====
-- services/backend/src/common/signing/hsm-signing-key.ts: signing with a key that stays on the hardware token. The
-- session of the token and the recovery of addresses by ethers are parameters.
pub mod LowS
mod Tests
use open_privy.Base.{
  ℕ, ◌+◌, ◌-◌, ◌/◌, Text, text_eq, to_lower, length, take, drop, Bool, true, false, not, ◌&&◌, ◌||◌,
  List, [], ◌∷◌, Option, none, some, failure, Error, Result, ok, err, ltb, ◌==◌, if◌then◌else◌,
}
use open_privy.Base.Errors.{◌>>=◌, ◌>>◌}

-- `SECP256K1_ORDER`.
abbrev pub secp256k1_order : ℕ
secp256k1_order = 115792089237316195423570985008687907852837564279074904382605163141518161494337

pub record Signature : Type 0 where
  pub r : ℕ
  pub s : ℕ
  pub v : ℕ

-- The session of the token, with its keys by number, and ethers.
pub record Session : Type 0 where
  -- The private and the public keys with a label.
  pub find_private : Text → List ℕ
  pub find_public : Text → List Text
  -- A new pair of keys, which cannot be extracted.
  pub generate_key_pair : Text → ℕ × Text
  -- `createSign('ECDSA', _).once`: the raw bytes of r and s.
  pub sign_once : ℕ → Text → Result Text
  -- `BigInt('0x' + _)` of the bytes in hex; it throws on none.
  pub to_number : Text → Result ℕ
  pub recover_address : (digest : Text) (r s v : ℕ) → Result Text
  pub compute_address : Text → Text

pub record HsmSigningKey : Type 0 where
  pub private_key : ℕ
  pub public_key : Text

-- The point of a key: `subarray(2, 2 + len)` of a DER octet string.
unfoldable pub unwrapped : Text → Text
unwrapped (tag ∷ len ∷ rest) =
    if tag == 4 && ltb 65 (length (tag ∷ len ∷ rest)) then take len rest else tag ∷ len ∷ rest
unwrapped point = point

abbrev pub is_uncompressed : Text → Bool
is_uncompressed [] = false
is_uncompressed (b ∷ bs) = b == 4

unfoldable pub extract_uncompressed_public_key : Text → Result Text
extract_uncompressed_public_key point =
    if not (length (unwrapped point) == 65) || not (is_uncompressed (unwrapped point))
    then err (failure "Unexpected EC point format/length from token")
    else ok (unwrapped point)

-- The canonical form of s. Above the order the difference is negative, which no address is recovered from.
unfoldable pub low_s : ℕ → Result ℕ
low_s s =
    if ltb (secp256k1_order / 2) s
    then (if ltb secp256k1_order s then err (failure "invalid s") else ok (secp256k1_order - s))
    else ok s

module _ (session : Session) where
  unfoldable pub generate : Text → Result HsmSigningKey
  generate label = do
    public_key ← extract_uncompressed_public_key (session.generate_key_pair label).1
    ok (record { private_key = (session.generate_key_pair label).0; public_key = public_key })

  -- The first key of each kind.
  unfoldable pub load_first : List ℕ → List Text → Result HsmSigningKey
  load_first (private_key ∷ _) (point ∷ _) = do
    public_key ← extract_uncompressed_public_key point
    ok (record { private_key = private_key; public_key = public_key })
  load_first _ _ = err (failure "No HSM key found with that label")

  unfoldable pub load : Text → Result HsmSigningKey
  load label = load_first (session.find_private label) (session.find_public label)

  -- The loop over the recovery ids.
  unfoldable pub try_parities : Text → Text → ℕ → ℕ → List ℕ → Result Signature
  try_parities digest public_key r s [] =
      err (failure "HSM signature did not recover to the token public key under either parity")
  try_parities digest public_key r s (v ∷ vs) =
      session.recover_address digest r s v >>= λ recovered.
      elim (text_eq (to_lower recovered) (to_lower (session.compute_address public_key))) [
        | true ↦ ok (record { r = r; s = s; v = v })
        | false ↦ try_parities digest public_key r s vs
      ]

  unfoldable pub sign : HsmSigningKey → Text → Result Signature
  sign key digest =
      if not (length digest == 32)
      then err (failure "HSM sign() requires a 32-byte digest")
      else (do
        raw ← session.sign_once key.private_key digest
        r ← session.to_number (take 32 raw)
        s ← session.to_number (take 32 (drop 32 raw))
        low ← low_s s
        try_parities digest key.public_key r low (27 ∷ 28 ∷ []))
