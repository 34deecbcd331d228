-- ===== src/Rotation/Tests.antt =====
-- Tests of the key rotation: a table with a wallet under an old master key.
use open_privy.Base.{
  ℕ, ◌<◌, zero, suc, Text, length, List, [], ◌∷◌, ◌++◌, All, Option, none, some, if◌then◌else◌,
  ◌==◌, Bool, true, false, ◌≡◌, ap, refl, arith, codes, Result, ok, err,
}
use open_privy.Encryption.{
  parse_ciphertext, format_ciphertext, derive_user_key, current_key_id, key_id_of, encrypt, decrypt,
  decrypt_with, decrypt_with_key_id, try_keys, decrypt_with_current_key_only,
  reencrypt_to_current_key,
}
use open_privy.Encryption.Samples.{toy, first, second, zero_iv}
use open_privy.Wallet.{Wallet, Chains, software, hsm, assert_key_matches_address, is_evm_chain}
use open_privy.Rotation.{
  Rotation, RotationOptions, RotationReport, rotate_wallets, rotate_from, rotate_batch,
  rotate_wallet, write_back, rotated_key, tag, finish, next_batch, take_rows, is_pending,
  is_unchanged, count_rotated, failure_of, empty_report,
}
use open_privy.Rotation.Queries.{sort_by_id, last_id}
use open_privy.Encryption.Hex.{to_hex, hex_digit, from_hex, is_paired, hex_value, split_on}
use open_privy.Base.Strings.{lower_unit, text_eq}
use open_privy.Rotation.Keeps.{Rows, Kept, Owned, IsTagged, Rows-refl}
use open_privy.Rotation.Preserve.{rotate_wallets-Kept}
use open_privy.Rotation.Finish.{rotate_wallets_total}
use open_privy.Rotation.Retire.{IsReadable, rotate_wallets-IsReadable}

-- An address is the key's first character.
abbrev chains : Chains
chains = record {
  evm_address = λ key. some (open_privy.Base.take 1 key);
  ed25519_public = λ seed. seed;
  base58 = λ s. s;
}

abbrev stored : Wallet
stored = record {
  id = 4;
  user_id = 7;
  address = codes "k";
  chain = codes "Ethereum";
  public_key = [];
  encrypted_private_key = some (encrypt toy first zero_iv (codes "key") 7);
  encryption_key_id = some (current_key_id toy first);
  signing_mode = software;
  hsm_key_label = none;
  recovery_email = none;
  is_active = true;
}

abbrev in_hardware : Wallet
in_hardware = record stored {
  id = 9;
  user_id = 8;
  encrypted_private_key = none;
  encryption_key_id = none;
  signing_mode = hsm;
}

abbrev table : List Wallet
table = stored ∷ in_hardware ∷ []

abbrev apply_one : RotationOptions
apply_one = record { apply = true; batch_size = 1 }

abbrev dry_one : RotationOptions
dry_one = record { apply = false; batch_size = 1 }

abbrev alone : ℕ → List Wallet → List Wallet
alone n ws = ws

abbrev run : RotationOptions → Option Rotation
run opts = rotate_wallets toy chains second opts (λ n. zero_iv) alone 3 table

abbrev owner : ℕ → ℕ
owner n = if n == 4 then 7 else 8

-- The rotation that a run ends with.
abbrev result : RotationOptions → Rotation
result opts = elim (run opts) [ some t ↦ t | none ↦ record { wallets = []; report = empty_report } ]

others_keep : (n : ℕ) (ws : List Wallet) → Rows (Kept toy second) ws (alone n ws)
others_keep n ws = Rows-refl toy second ws

table-Owned : Owned toy second owner table
table-Owned = (refl, (refl, tt))

-- No row of the table names the second key.
table-IsTagged : All (IsTagged toy second) table
unfolding current_key_id key_id_of to_hex hex_digit text_eq
table-IsTagged = ((λ h. absurd (cc)), ((λ h. absurd (cc)), tt))

rotate_wallets_total_example :
    (t : Rotation) × (rotate_wallets toy chains second apply_one (λ n. zero_iv) alone 3 table
      ≡ some t)
rotate_wallets_total_example =
    rotate_wallets_total toy second chains apply_one (λ n. zero_iv) alone others_keep owner 3 table
      table-Owned (omega arith)

abbrev all_moved : RotationReport
all_moved = record {
  scanned = 1;
  rotated = 1;
  failed = [];
  remaining_not_on_current_key = 0;
  safe_to_retire_previous_keys = true;
}

-- Both runs end, and the one that writes rotates the software wallet.
runs :
    (run apply_one ≡ some (result apply_one))
    × (run dry_one ≡ some (result dry_one))
    × ((result apply_one).report ≡ all_moved)
unfolding rotate_wallets rotate_from rotate_batch rotate_wallet write_back rotated_key tag finish
    next_batch take_rows sort_by_id last_id to_hex hex_digit from_hex is_paired hex_value split_on
    lower_unit text_eq is_pending is_unchanged count_rotated failure_of encrypt decrypt decrypt_with
    decrypt_with_key_id try_keys decrypt_with_current_key_only reencrypt_to_current_key
    parse_ciphertext format_ciphertext derive_user_key current_key_id key_id_of
    assert_key_matches_address is_evm_chain
runs = (refl, refl, refl)

rotate_wallets-Kept_example : Rows (Kept toy second) table (result apply_one).wallets
rotate_wallets-Kept_example =
    rotate_wallets-Kept toy second chains apply_one (λ n. zero_iv) alone others_keep owner 3 table
      (result apply_one) table-Owned runs.0

rotate_wallets-IsReadable_example : All (IsReadable toy second) (result apply_one).wallets
rotate_wallets-IsReadable_example =
    rotate_wallets-IsReadable toy second chains apply_one (λ n. zero_iv) alone others_keep owner 3
      table (result apply_one) table-Owned table-IsTagged runs.0
      (ap (λ r. r.safe_to_retire_previous_keys) runs.2)
