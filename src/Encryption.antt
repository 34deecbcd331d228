-- ===== src/Encryption.antt =====
-- services/backend/src/common/encryption/encryption.service.ts: the per-user AES-256-GCM encryption
-- of private keys. Node's crypto primitives are a parameter; the text format, the hex coding and
-- the choice among the master keys are the source's. Bytes and characters are numbers.
pub mod Hex
pub mod Format
pub mod Loader
pub mod RoundTrip
pub mod Samples
mod Tests
use open_privy.Base.{
  ℕ, ◌+◌, Text, codes, text_eq, length, Bool, true, false, not, ◌&&◌, List, [], ◌∷◌, ◌++◌, map,
  Option, none, some, Error, failure, Result, ok, err, ◌==◌, if◌then◌else◌, any_by,
}
use open_privy.Base.Errors.{◌>>=◌, ◌>>◌}
use Hex.{to_hex, from_hex, is_paired, split_on}

-- Node's `crypto` and `Buffer.from(_, 'base64')`.
pub record Crypto : Type 0 where
  pub sha256 : Text → Text
  -- The key, the salt, the rounds and the length of the result.
  pub pbkdf2 : Text → Text → ℕ → ℕ → Text
  -- The key, the iv and the plaintext, to the ciphertext and the authentication tag.
  pub gcm_seal : Text → Text → Text → Text × Text
  -- The key, the iv, the tag and the ciphertext; `none` where `final` throws.
  pub gcm_open : Text → Text → Text → Text → Option Text
  pub from_base64 : Text → Text
  -- The textual form of a user's uuid.
  pub uuid : ℕ → Text

abbrev pub key_length : ℕ
key_length = 32

abbrev pub iv_length : ℕ
iv_length = 16

abbrev pub auth_tag_length : ℕ
auth_tag_length = 16

abbrev pub pbkdf2_iterations : ℕ
pbkdf2_iterations = 100000

-- `MasterKeyMaterial` of master-key.loader.ts.
pub record MasterKeyMaterial : Type 0 where
  pub current : Text
  pub previous : List Text

pub record EncryptionService : Type 0 where
  pub master_key : Text
  pub previous_keys : List Text

pub record Sealed : Type 0 where
  pub iv : Text
  pub auth_tag : Text
  pub ciphertext : Text

pub record Decrypted : Type 0 where
  pub plaintext : Text
  pub key_id : Text

pub record Reencrypted : Type 0 where
  pub ciphertext : Text
  pub plaintext : Text
  pub from_key_id : Text

-- The checks of `parseCiphertext` on the parts between the colons.
parse_parts : List Text → Result Sealed
parse_parts (iv_hex ∷ auth_tag_hex ∷ ciphertext ∷ []) =
    let iv = from_hex iv_hex in
    let auth_tag = from_hex auth_tag_hex in
    if not (length iv == iv_length)
    then err (failure "Invalid IV length")
    else if not (length auth_tag == auth_tag_length)
    then err (failure "Invalid auth tag length")
    else ok (record { iv = iv; auth_tag = auth_tag; ciphertext = ciphertext })
parse_parts _ = err (failure "Invalid encrypted data format (expected iv:authTag:ciphertext)")

unfoldable pub parse_ciphertext : Text → Result Sealed
unfolding parse_parts
parse_ciphertext encrypted = parse_parts (split_on b':' encrypted)

module _ (c : Crypto) where
  -- The rejections carry one text for the two that `parseKey` throws.
  unfoldable pub parse_key : Text → Result Text
  parse_key [] = err (failure "ENCRYPTION_MASTER_KEY not set")
  parse_key (k ∷ ks) =
      let key = c.from_base64 (k ∷ ks) in
      if length key == key_length then ok key else err (failure "Failed to parse the master key")

  parse_keys : List Text → Result (List Text)
  parse_keys [] = ok []
  parse_keys (k ∷ ks) = do key ← parse_key k; keys ← parse_keys ks; ok (key ∷ keys)

  -- The constructor, from the resolved material. An absent key is the empty text.
  unfoldable pub make_service : MasterKeyMaterial → Result EncryptionService
  unfolding parse_keys parse_key
  make_service material = do
    master_key ← parse_key material.current
    previous_keys ← parse_keys material.previous
    if any_by (λ k. text_eq k master_key) previous_keys
        then err (failure "A previous master key is identical to the current one")
        else ok (record { master_key = master_key; previous_keys = previous_keys })

  -- The first 16 hex characters of a domain-separated hash.
  unfoldable pub key_id_of : Text → Text
  key_id_of master_key =
      open_privy.Base.take 16 (to_hex (c.sha256 (codes "openprivy-master-key-id:" ++ master_key)))

  unfoldable pub derive_user_key : Text → ℕ → Text
  derive_user_key master_key user_id =
      c.pbkdf2 master_key (c.sha256 (codes "openprivy:" ++ c.uuid user_id)) pbkdf2_iterations
        key_length

  -- `${iv}:${authTag}:${ciphertext}`, each in hex.
  unfoldable pub format_ciphertext : Text → Text × Text → Text
  format_ciphertext iv (ciphertext, auth_tag) =
      to_hex iv ++ (b':' ∷ (to_hex auth_tag ++ (b':' ∷ to_hex ciphertext)))

  unfoldable pub decrypt_with : Text → Sealed → ℕ → Option Text
  decrypt_with master_key sealed user_id =
      if is_paired sealed.ciphertext
      then c.gcm_open (derive_user_key master_key user_id) sealed.iv sealed.auth_tag
          (from_hex sealed.ciphertext)
      else none

  -- The loop of `decryptWithKeyId` over the keys.
  unfoldable pub try_keys : List Text → Sealed → ℕ → Result Decrypted
  try_keys [] sealed user_id =
      err (failure "Failed to decrypt data (tampering detected or wrong key)")
  try_keys (key ∷ keys) sealed user_id = elim (decrypt_with key sealed user_id) [
    | some plaintext ↦ ok (record { plaintext = plaintext; key_id = key_id_of key })
    | none ↦ try_keys keys sealed user_id
  ]

  module _ (service : EncryptionService) where
    unfoldable pub current_key_id : Text
    current_key_id = key_id_of service.master_key

    unfoldable pub previous_key_ids : List Text
    previous_key_ids = map key_id_of service.previous_keys

    -- `iv` is the draw of `crypto.randomBytes`.
    unfoldable pub encrypt : Text → Text → ℕ → Text
    encrypt iv plaintext user_id =
        format_ciphertext iv (c.gcm_seal (derive_user_key service.master_key user_id) iv plaintext)

    unfoldable pub decrypt_with_key_id : Text → ℕ → Result Decrypted
    decrypt_with_key_id encrypted user_id = do
      sealed ← parse_ciphertext encrypted
      try_keys (service.master_key ∷ service.previous_keys) sealed user_id

    unfoldable pub decrypt : Text → ℕ → Result Text
    decrypt encrypted user_id = do found ← decrypt_with_key_id encrypted user_id; ok found.plaintext

    unfoldable pub decrypt_with_current_key_only : Text → ℕ → Result Text
    decrypt_with_current_key_only encrypted user_id = do
      sealed ← parse_ciphertext encrypted
      open_privy.Base.or_err (decrypt_with service.master_key sealed user_id)
          (failure "Failed to decrypt data under the current master key")

    unfoldable pub reencrypt_to_current_key : Text → Text → ℕ → Result Reencrypted
    reencrypt_to_current_key iv encrypted user_id = do
      found ← decrypt_with_key_id encrypted user_id
      ok (record {
        ciphertext = encrypt iv found.plaintext user_id;
        plaintext = found.plaintext;
        from_key_id = found.key_id;
      })
