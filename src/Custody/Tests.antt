-- ===== src/Custody/Tests.antt =====
-- Tests of the custody of keys.
use open_privy.Base.{codes, err, ◌≡◌, refl, arith}
use open_privy.Base.Strings.{lower_unit, text_eq}
use open_privy.Encryption.{
  parse_ciphertext, format_ciphertext, derive_user_key, encrypt, decrypt, decrypt_with,
  decrypt_with_key_id, try_keys,
}
use open_privy.Encryption.Hex.{to_hex, hex_digit, from_hex, is_paired, hex_value, split_on}
use open_privy.Encryption.Samples.{toy_laws, zero_iv-IsBytes}
use open_privy.Wallet.{software}
use open_privy.Recovery.Samples.{world, awaiting}
use open_privy.Custody.{
  not_yours, get_wallet_by_id, decrypt_held, get_decrypted_private_key, create_wallet,
}
use open_privy.Custody.Samples.{custodian}
use open_privy.Custody.Release.{
  Released, get_decrypted_private_key-Released, create_wallet-get_decrypted_private_key,
}

get_decrypted_private_key-Released_example : Released custodian 4 1 (world awaiting) (codes "key")
unfolding get_decrypted_private_key get_wallet_by_id decrypt_held to_hex hex_digit from_hex
    is_paired hex_value split_on text_eq encrypt decrypt decrypt_with decrypt_with_key_id try_keys
    parse_ciphertext format_ciphertext derive_user_key
get_decrypted_private_key-Released_example =
    get_decrypted_private_key-Released custodian 4 1 (world awaiting) (codes "key") refl

create_wallet-get_decrypted_private_key_example :
    (get_decrypted_private_key custodian 50 8
      (create_wallet custodian 7 (codes "Polygon") software (world awaiting)).1).0
    ≡ err not_yours
unfolding text_eq lower_unit
create_wallet-get_decrypted_private_key_example =
    create_wallet-get_decrypted_private_key custodian toy_laws 7 (codes "Polygon") (world awaiting)
      refl refl refl zero_iv-IsBytes (omega arith, (omega arith, (omega arith, tt))) 8
