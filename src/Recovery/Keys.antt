-- ===== src/Recovery/Keys.antt =====
-- What `complete` of recovery.service.ts does to one wallet: its key is re-encrypted for the new owner
-- and read back, and the row is given to that owner.
use open_privy.Base.{
  Text, text_eq, [], ◌∷◌, Option, none, some, failure, Result, ok, err, if◌then◌else◌,
}
use open_privy.Base.Errors.{◌>>=◌, ◌>>◌}
use open_privy.Encryption.{encrypt, decrypt, decrypt_with_current_key_only, current_key_id}
use open_privy.Wallet.{Wallet, is_software, assert_key_matches_address}
use open_privy.Store.{RecoveryRequest}
use open_privy.Recovery.{Env}

module _ (env : Env) where
  -- The new ciphertext of a software key, verified as it is made.
  unfoldable pub carried_key : RecoveryRequest → Text → Wallet → Text → Result Text
  carried_key request iv w old = do
    plaintext ← decrypt env.crypto env.encryption old request.old_user_id
    assert_key_matches_address env.chains w.chain plaintext w.address
    let ciphertext = encrypt env.crypto env.encryption iv plaintext request.new_user_id
    back ← decrypt_with_current_key_only env.crypto env.encryption ciphertext request.new_user_id
    if text_eq back plaintext
        then ok ciphertext
        else err (failure "re-encrypted key for wallet does not round-trip")

  abbrev pub with_key : Wallet → Text → Wallet
  with_key w ciphertext = record w {
    encrypted_private_key = some ciphertext;
    encryption_key_id = some (current_key_id env.crypto env.encryption);
  }

  -- `w.encryptedPrivateKey` is false when it is null or empty.
  unfoldable pub carry_key : RecoveryRequest → Text → Wallet → Option Text → Result Wallet
  carry_key request iv w none = ok w
  carry_key request iv w (some []) = ok w
  carry_key request iv w (some (k ∷ ks)) =
      let carried = do ciphertext ← carried_key request iv w (k ∷ ks); ok (with_key w ciphertext)
      in if is_software w.signing_mode then carried else ok w

  -- The wallet as it is saved.
  unfoldable pub moved_wallet : RecoveryRequest → Text → Wallet → Result Wallet
  moved_wallet request iv w = do
    v ← carry_key request iv w w.encrypted_private_key
    ok (record v { user_id = request.new_user_id })
