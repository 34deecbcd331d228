-- ===== src/Encryption/Loader.antt =====
-- services/backend/src/common/encryption/master-key.loader.ts: where the master keys come from at boot. The
-- environment and the answer of Secrets Manager are arguments; `JSON.parse` is a parameter.
use open_privy.Base.{
  Text, trim, List, [], ◌∷◌, Option, none, some, failure, Result, ok, err, Bool, true, false, map,
  filter_by,
}
use open_privy.Base.Errors.{◌>>=◌}
use open_privy.Encryption.{MasterKeyMaterial}
use open_privy.Encryption.Hex.{split_on}

-- `ENCRYPTION_MASTER_KEY_PREVIOUS` of the JSON: an array, whose other elements than texts are none, a
-- text, or anything else.
pub data Previous : Type 0 where
  array : (keys : List (Option Text)) → Previous
  text : (keys : Text) → Previous
  other : Previous

-- What a secret parses to: a value with a text under `ENCRYPTION_MASTER_KEY`, or another value.
pub data Parsed : Type 0 where
  with_keys : (current : Text) (previous : Previous) → Parsed
  no_keys : Parsed

abbrev pub is_full : Text → Bool
is_full [] = false
is_full (c ∷ s) = true

-- The texts of an array that are not empty.
unfoldable pub full_texts : List (Option Text) → List Text
full_texts [] = []
full_texts (none ∷ keys) = full_texts keys
full_texts (some [] ∷ keys) = full_texts keys
full_texts (some (c ∷ s) ∷ keys) = (c ∷ s) ∷ full_texts keys

unfoldable pub split_list : Option Text → List Text
split_list none = []
split_list (some s) = filter_by is_full (map trim (split_on b',' s))

unfoldable pub previous_of : Previous → List Text
previous_of (array keys) = full_texts keys
previous_of (text keys) = split_list (some keys)
previous_of other = []

module _ (parse : Text → Option Parsed) where
  -- None where the secret is no JSON.
  unfoldable pub material_of : Text → Option Parsed → MasterKeyMaterial
  material_of secret (some (with_keys current previous)) = record {
    current = current;
    previous = previous_of previous;
  }
  material_of secret _ = record { current = secret; previous = [] }

  unfoldable pub extract_key_material : Text → MasterKeyMaterial
  extract_key_material secret = material_of secret (parse secret)

  -- An empty variable is an absent one. `secret` is what Secrets Manager answers for an ARN.
  unfoldable pub load_from_env : Option Text → Option Text → Result MasterKeyMaterial
  load_from_env none previous = err (failure "No master key configured")
  load_from_env (some []) previous = err (failure "No master key configured")
  load_from_env (some (c ∷ s)) previous =
      ok (record { current = c ∷ s; previous = split_list previous })

  unfoldable pub of_secret : Option Text → Result MasterKeyMaterial
  of_secret none = err (failure "Secrets Manager secret has no string value")
  of_secret (some []) = err (failure "Secrets Manager secret has no string value")
  of_secret (some (c ∷ s)) = ok (extract_key_material (c ∷ s))

  unfoldable pub load_master_key :
      (secret_arn : Option Text) (secret : Text → Result (Option Text))
      (env_key env_previous : Option Text)
      → Result MasterKeyMaterial
  load_master_key none secret env_key env_previous = load_from_env env_key env_previous
  load_master_key (some []) secret env_key env_previous = load_from_env env_key env_previous
  load_master_key (some (c ∷ s)) secret env_key env_previous = secret (c ∷ s) >>= of_secret
