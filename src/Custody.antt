-- ===== src/Custody.antt =====
-- services/backend/src/modules/wallet/wallet.service.ts: the wallets that the backend keeps keys for. The
-- generation of keys, the hardware module and the chains' nodes are parameters.
pub mod Release
pub mod Samples
mod Tests
use open_privy.Base.{
  ℕ, ◌+◌, Text, codes, text_eq, to_lower, Bool, true, false, not, ◌&&◌, ◌||◌, List, [], ◌∷◌, ◌++◌,
  Option, none, some, bad_request, forbidden, not_found, failure, Result, ok, err, or_err, ◌==◌,
  if◌then◌else◌, filter_by, find_by, Exec, pure, raise, lift, gets, modify, refuse,
}
use open_privy.Base.Actions.{◌>>=◌, ◌>>◌}
use open_privy.Encryption.{Crypto, EncryptionService, encrypt, decrypt, current_key_id}
use open_privy.Wallet.{Wallet, SigningMode, software, hsm, is_software, chain_is}
use open_privy.Store.{World, save_wallet}

-- A new key pair: the address, the public key and the private key.
pub record Keys : Type 0 where
  pub address : Text
  pub public_key : Text
  pub private_key : Text

-- What `getEvmSigner` returns: a key in memory, or one on the token.
pub data Signer : Type 0 where
  in_memory on_token : (key : Text) → Signer

pub record Custodian : Type 0 where
  pub crypto : Crypto
  pub encryption : EncryptionService
  -- The n-th random draw of ethers, of Solana, and of the iv.
  pub random_evm : ℕ → Keys
  pub random_solana : ℕ → Keys
  pub random_iv : ℕ → Text
  -- `new ethers.Wallet(key)`, which throws on a text that is no key.
  pub evm_wallet : Text → Result Text
  pub hsm_configured : Bool
  pub hsm_label : ℕ → ℕ → Text
  -- The address and the public key of a key generated under a label, and the loading of it.
  pub hsm_generate : Text → Result (Text × Text)
  pub hsm_load : Text → Result Text
  -- The balance on a chain, as text.
  pub balance_of : Text → Text → Result Text

abbrev pub is_native_evm : Text → Bool
is_native_evm chain = chain_is "ethereum" chain || chain_is "polygon" chain

abbrev pub not_yours : open_privy.Base.Error
not_yours = forbidden "Wallet does not belong to this user"

-- The save of a new row, whose address no row has: the constraint on the address is not modelled.
unfoldable pub insert_wallet : Wallet → Exec World Wallet
insert_wallet w s =
    (ok w, record s { db = record s.db { wallets = s.wallets ++ w ∷ [] }; next_id = s.next_id + 1 })

unfoldable pub get_wallet_by_id : ℕ → Exec World Wallet
get_wallet_by_id wallet_id = do
  found ← gets (λ s. find_by (λ w. w.id == wallet_id) s.wallets)
  lift (or_err found (not_found "Wallet not found"))

unfoldable pub get_owned_wallet : ℕ → ℕ → Exec World Wallet
get_owned_wallet wallet_id user_id = do
  wallet ← get_wallet_by_id wallet_id
  refuse (not (wallet.user_id == user_id)) not_yours
  pure wallet

pub get_wallet : ℕ → Option Text → World → Option Wallet
get_wallet user_id none s = find_by (λ w. w.user_id == user_id) s.wallets
get_wallet user_id (some []) s = find_by (λ w. w.user_id == user_id) s.wallets
get_wallet user_id (some (c ∷ cs)) s =
    find_by (λ w. w.user_id == user_id && text_eq w.chain (c ∷ cs)) s.wallets

pub get_user_wallets : ℕ → World → List Wallet
get_user_wallets user_id s = filter_by (λ w. w.user_id == user_id && w.is_active) s.wallets

unfoldable pub set_recovery_email : ℕ → ℕ → Text → Exec World Wallet
set_recovery_email wallet_id user_id recovery_email = do
  wallet ← get_owned_wallet wallet_id user_id
  modify (save_wallet (record wallet { recovery_email = some recovery_email }))
  pure (record wallet { recovery_email = some recovery_email })

module _ (c : Custodian) where
  pub get_balance : ℕ → ℕ → Exec World Text
  unfolding get_owned_wallet get_wallet_by_id
  get_balance wallet_id user_id = do
    wallet ← get_owned_wallet wallet_id user_id
    refuse (not (is_native_evm wallet.chain || chain_is "solana" wallet.chain))
        (bad_request "Unsupported chain")
    lift (c.balance_of (to_lower wallet.chain) wallet.address)

  -- The switch on the chain.
  unfoldable pub new_keys : Text → Exec World Keys
  new_keys chain s =
      if is_native_evm chain
      then (ok (c.random_evm s.drawn), record s { drawn = s.drawn + 1 })
      else if chain_is "solana" chain
      then (ok (c.random_solana s.drawn), record s { drawn = s.drawn + 1 })
      else (err (bad_request "Unsupported chain"), s)

  unfoldable pub create_hsm_wallet : ℕ → Text → Exec World Wallet
  unfolding insert_wallet
  create_hsm_wallet user_id chain = do
    refuse (not (is_native_evm chain)) (bad_request "HSM signing mode does not support chain")
    refuse (not c.hsm_configured) (
        bad_request
          "HSM signing mode requested but no PKCS#11 module is configured (PKCS11_MODULE_PATH)")
    label ← gets (λ s. c.hsm_label user_id s.drawn)
    modify (λ s. record s { drawn = s.drawn + 1 })
    key ← lift (c.hsm_generate label)
    id ← gets (λ s. s.next_id)
    insert_wallet (record {
      id = id;
      user_id = user_id;
      address = key.0;
      chain = chain;
      public_key = key.1;
      encrypted_private_key = none;
      encryption_key_id = none;
      signing_mode = hsm;
      hsm_key_label = some label;
      recovery_email = none;
      is_active = true;
    })

  unfoldable pub create_software_wallet : ℕ → Text → Exec World Wallet
  unfolding insert_wallet
  create_software_wallet user_id chain = do
    keys ← new_keys chain
    iv ← gets (λ s. c.random_iv s.drawn)
    modify (λ s. record s { drawn = s.drawn + 1 })
    id ← gets (λ s. s.next_id)
    insert_wallet (record {
      id = id;
      user_id = user_id;
      address = keys.address;
      chain = chain;
      public_key = keys.public_key;
      encrypted_private_key = some (encrypt c.crypto c.encryption iv keys.private_key user_id);
      encryption_key_id = some (current_key_id c.crypto c.encryption);
      signing_mode = software;
      hsm_key_label = none;
      recovery_email = none;
      is_active = true;
    })

  unfoldable pub create_in_mode : SigningMode → ℕ → Text → Exec World Wallet
  create_in_mode hsm user_id chain = create_hsm_wallet user_id chain
  create_in_mode software user_id chain = create_software_wallet user_id chain

  unfoldable pub create_wallet : ℕ → Text → SigningMode → Exec World Wallet
  create_wallet user_id chain mode = do
    taken ←
        gets (λ s.
          open_privy.Base.any_by (λ w. w.user_id == user_id && text_eq w.chain chain) s.wallets)
    refuse taken (bad_request "Wallet already exists for chain")
    create_in_mode mode user_id chain

  -- `!wallet.encryptedPrivateKey` is true of null and of the empty text.
  unfoldable pub decrypt_held : Option Text → ℕ → Result Text
  decrypt_held none user_id = err (bad_request "Wallet has no key material to decrypt")
  decrypt_held (some []) user_id = err (bad_request "Wallet has no key material to decrypt")
  decrypt_held (some (k ∷ ks)) user_id = decrypt c.crypto c.encryption (k ∷ ks) user_id

  unfoldable pub get_decrypted_private_key : ℕ → ℕ → Exec World Text
  get_decrypted_private_key wallet_id user_id = do
    wallet ← get_wallet_by_id wallet_id
    refuse (not (wallet.user_id == user_id)) not_yours
    refuse (not (is_software wallet.signing_mode))
        (bad_request "Wallet is HSM-signed; its key is not extractable and has no plaintext form")
    lift (decrypt_held wallet.encrypted_private_key user_id)

  unfoldable pub load_token : Option Text → Result Signer
  load_token none = err (bad_request "HSM wallet is missing its key label")
  load_token (some []) = err (bad_request "HSM wallet is missing its key label")
  load_token (some (l ∷ ls)) = elim (c.hsm_load (l ∷ ls)) [
    | ok key ↦ ok (on_token key)
    | err e ↦ err e
  ]

  unfoldable pub software_signer : ℕ → ℕ → Exec World Signer
  software_signer wallet_id user_id = do
    private_key ← get_decrypted_private_key wallet_id user_id
    address ← lift (c.evm_wallet private_key)
    pure (in_memory private_key)

  unfoldable pub get_evm_signer : ℕ → ℕ → Exec World Signer
  get_evm_signer wallet_id user_id = do
    wallet ← get_wallet_by_id wallet_id
    refuse (not (wallet.user_id == user_id)) not_yours
    refuse (not (is_native_evm wallet.chain)) (bad_request "getEvmSigner does not support chain")
    if not (is_software wallet.signing_mode)
        then lift (load_token wallet.hsm_key_label)
        else software_signer wallet_id user_id
