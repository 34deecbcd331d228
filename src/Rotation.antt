-- ===== src/Rotation.antt =====
-- services/backend/src/common/encryption/key-rotation.ts: re-encryption of every software wallet
-- under the current master key. The table of wallets is a list of rows. `meanwhile n` is what other
-- clients write to it between the reading of a row and its update, for the n-th row scanned.
pub mod Queries
pub mod Order
pub mod Keeps
pub mod Preserve
pub mod Finish
pub mod Retire
mod Tests
use open_privy.Base.{
  ℕ, zero, suc, ◌+◌, Text, text_eq, length, take, Bool, true, false, not, ◌&&◌, ◌||◌, List, [], ◌∷◌,
  ◌++◌, Option, none, some, Error, failure, Result, ok, err, ltb, leb, ◌==◌, if◌then◌else◌,
  filter_by, update_by, count_by,
}
use open_privy.Base.Errors.{◌>>=◌, ◌>>◌}
use open_privy.Encryption.{
  Crypto, EncryptionService, Reencrypted, current_key_id, reencrypt_to_current_key,
  decrypt_with_current_key_only,
}
use open_privy.Wallet.{Wallet, Chains, is_software, assert_key_matches_address}
use Queries.{sort_by_id, last_id}

pub record RotationOptions : Type 0 where
  pub apply : Bool
  pub batch_size : ℕ

pub record RotationReport : Type 0 where
  pub scanned : ℕ
  pub rotated : ℕ
  pub failed : List (ℕ × Error)
  pub remaining_not_on_current_key : ℕ
  pub safe_to_retire_previous_keys : Bool

pub record Rotation : Type 0 where
  pub wallets : List Wallet
  pub report : RotationReport

abbrev pub is_key_id : Text → Option Text → Bool
is_key_id current none = false
is_key_id current (some k) = text_eq k current

abbrev pub has_key : Option Text → Bool
has_key none = false
has_key (some _) = true

-- A software row with key material that is not tagged with the current key.
unfoldable pub is_pending : Text → Wallet → Bool
is_pending current w =
    is_software w.signing_mode
    && has_key w.encrypted_private_key
    && not (is_key_id current w.encryption_key_id)

-- `take(size)`, which sets no limit where the size is 0.
unfoldable pub take_rows : ℕ → List Wallet → List Wallet
take_rows size wallets = if size == 0 then wallets else take size wallets

-- `where id > :lastId and …`, ordered by id, at most `size` rows.
unfoldable pub next_batch : Text → ℕ → ℕ → List Wallet → List Wallet
next_batch current last size wallets =
    take_rows size (sort_by_id (filter_by (λ w. ltb last w.id && is_pending current w) wallets))

abbrev pub holds_key : Text → Option Text → Bool
holds_key old none = false
holds_key old (some k) = text_eq k old

-- The row that the update's `where` clause names.
unfoldable pub is_unchanged : ℕ → Text → Wallet → Bool
is_unchanged id old r = r.id == id && holds_key old r.encrypted_private_key

abbrev pub empty_report : RotationReport
empty_report = record {
  scanned = 0;
  rotated = 0;
  failed = [];
  remaining_not_on_current_key = 0;
  safe_to_retire_previous_keys = false;
}

unfoldable pub failure_of : ℕ → Error → Rotation → Rotation
failure_of id e s = record s {
  report = record s.report { failed = s.report.failed ++ (id, e) ∷ [] };
}

unfoldable pub count_rotated : Rotation → Rotation
count_rotated s = record s { report = record s.report { rotated = s.report.rotated + 1 } }

abbrev pub key_text : Option Text → Text
key_text none = []
key_text (some k) = k

module _ (c : Crypto) (service : EncryptionService) where
  -- The new ciphertext of one row, verified.
  unfoldable pub rotated_key : Chains → Text → Wallet → Text → Result Text
  rotated_key chains iv w old = do
    r ← reencrypt_to_current_key c service iv old w.user_id
    assert_key_matches_address chains w.chain r.plaintext w.address
    round_trip ← decrypt_with_current_key_only c service r.ciphertext w.user_id
    if text_eq round_trip r.plaintext
        then ok r.ciphertext
        else err (failure "re-encrypted value does not round-trip")

  unfoldable pub tag : Text → Wallet → Wallet
  tag ciphertext r = record r {
    encrypted_private_key = some ciphertext;
    encryption_key_id = some (current_key_id c service);
  }

module _ (c : Crypto) (chains : Chains) (service : EncryptionService) (opts : RotationOptions)
    (draw : ℕ → Text) (meanwhile : ℕ → List Wallet → List Wallet) where
  -- The update of the row, with its optimistic check.
  unfoldable pub write_back : Wallet → Text → Result Text → Rotation → Rotation
  unfolding failure_of count_rotated is_unchanged
  write_back w old (err e) s = failure_of w.id e s
  write_back w old (ok ciphertext) s =
      if not opts.apply
      then count_rotated s
      else if count_by (is_unchanged w.id old) s.wallets == 1
      then count_rotated (record s {
        wallets = update_by (is_unchanged w.id old) (tag c service ciphertext) s.wallets;
      })
      else failure_of w.id (failure "row changed concurrently; rerun to pick it up") (record s {
        wallets = update_by (is_unchanged w.id old) (tag c service ciphertext) s.wallets;
      })

  -- One round of the loop over a batch.
  unfoldable pub rotate_wallet : Wallet → Rotation → Rotation
  unfolding write_back
  rotate_wallet w s =
      let n = s.report.scanned in
      let old = key_text w.encrypted_private_key in
      write_back w old (rotated_key c service chains (draw n) w old)
        (record s { wallets = meanwhile n s.wallets; report = record s.report { scanned = n + 1 } })

  unfoldable pub rotate_batch : List Wallet → Rotation → Rotation
  unfolding rotate_wallet
  rotate_batch [] s = s
  rotate_batch (w ∷ ws) s = rotate_batch ws (rotate_wallet w s)

  -- `for (;;)`, one unit of fuel for each query.
  unfoldable pub rotate_from : ℕ → ℕ → Rotation → Option Rotation
  rotate_from zero last s = none
  rotate_from (suc fuel) last s =
      elim (next_batch (current_key_id c service) last opts.batch_size s.wallets) [
        | [] ↦ some s
        | w ∷ ws ↦ rotate_from fuel (last_id w ws) (rotate_batch (w ∷ ws) s)
      ]

  -- The counts at the end.
  unfoldable pub finish : Rotation → Rotation
  finish s =
      let remaining = count_by (is_pending (current_key_id c service)) s.wallets in
      record s {
        report = record s.report {
          remaining_not_on_current_key = remaining;
          safe_to_retire_previous_keys =
              opts.apply && length s.report.failed == 0 && remaining == 0;
        };
      }

  unfoldable pub rotate_wallets : ℕ → List Wallet → Option Rotation
  rotate_wallets fuel wallets =
      mathlib.Core.Option.map finish
        (rotate_from fuel 0 (record { wallets = wallets; report = empty_report }))
