-- ===== src/Wallet.antt =====
-- services/backend/src/modules/wallet/entities/wallet.entity.ts, and the check that key material
-- belongs to a wallet (services/backend/src/common/encryption/key-rotation.ts).
use open_privy.Base.{
  ℕ, String, Text, codes, text_eq, to_lower, length, take, drop, Bool, true, false, not, ◌||◌,
  Option, none, some, failure, Result, ok, err, ◌==◌, if◌then◌else◌,
}
use open_privy.Encryption.Hex.{from_hex}

pub data SigningMode : Type 0 where
  software hsm : SigningMode

abbrev pub is_software : SigningMode → Bool
is_software software = true
is_software hsm = false

pub record Wallet : Type 0 where
  pub id : ℕ
  pub user_id : ℕ
  pub address : Text
  pub chain : Text
  pub public_key : Text
  pub encrypted_private_key : Option Text
  pub encryption_key_id : Option Text
  pub signing_mode : SigningMode
  pub hsm_key_label : Option Text
  pub recovery_email : Option Text
  pub is_active : Bool

-- Key derivation of ethers and of Node's crypto.
pub record Chains : Type 0 where
  -- `new ethers.Wallet(key).address`; `none` where it throws.
  pub evm_address : Text → Option Text
  -- The public key of a 32-byte Ed25519 seed.
  pub ed25519_public : Text → Text
  pub base58 : Text → Text

abbrev pub chain_is : String → Text → Bool
chain_is name chain = text_eq (to_lower chain) (codes name)

unfoldable pub is_evm_chain : Text → Bool
is_evm_chain chain =
    chain_is "ethereum" chain
    || chain_is "polygon" chain
    || chain_is "arbitrum" chain
    || chain_is "optimism" chain
    || chain_is "base" chain

abbrev pub mismatch : Result (Unit {0})
mismatch = err (failure "decrypted key does not derive the wallet address")

module _ (chains : Chains) where
  check_evm : Option Text → Text → Result (Unit {0})
  check_evm none address = err (failure "invalid private key")
  check_evm (some derived) address =
      if text_eq (to_lower derived) (to_lower address) then ok tt else mismatch

  check_solana : Text → Text → Result (Unit {0})
  check_solana secret address =
      let public = chains.ed25519_public (take 32 secret) in
      if not (length secret == 64)
      then err (failure "solana secret key must be 64 bytes")
      else if not (text_eq public (drop 32 secret)) || not (text_eq (chains.base58 public) address)
      then mismatch
      else ok tt

  unfoldable pub assert_key_matches_address : Text → Text → Text → Result (Unit {0})
  unfolding check_evm check_solana is_evm_chain
  assert_key_matches_address chain plaintext address =
      if is_evm_chain chain
      then check_evm (chains.evm_address plaintext) address
      else if chain_is "solana" chain
      then check_solana (from_hex plaintext) address
      else err (failure "cannot verify key material for this chain; refusing to rotate it")
