-- ===== src/Recovery.antt =====
-- services/backend/src/modules/social-recovery/recovery.service.ts: what its parts share. Each method
-- is an action on the store at the time `now`, which the source reads from the clock; a call reads
-- it once. The children hold the methods by phase, and the proofs.
pub mod Guardians
pub mod Requests
pub mod Votes
pub mod Keys
pub mod Completion
pub mod Lifecycle
pub mod Progress
pub mod Samples
mod Tests
use open_privy.Base.{
  ℕ, ◌+◌, ◌*◌, ◌/◌, Text, text_eq, length, is_base64url, Bool, true, false, not, ◌&&◌, ◌||◌, List,
  [], ◌∷◌, ◌++◌, Option, none, some, Error, failure, Result, ok, err, ltb, ◌==◌, if◌then◌else◌,
  Exec,
}
use open_privy.Encryption.Hex.{to_hex}
use open_privy.Encryption.{Crypto, EncryptionService}
use open_privy.Wallet.{Chains}
use open_privy.Store.{
  World, Mail, GuardianStatus, active, RecoveryStatus, awaiting_approvals, time_locked, completing,
}

abbrev pub min_guardians : ℕ
min_guardians = 3

abbrev pub max_guardians : ℕ
max_guardians = 5

abbrev pub hour : ℕ
hour = 3600000

abbrev pub invite_ttl_ms : ℕ
invite_ttl_ms = 7 * 24 * hour

abbrev pub approval_window_ms : ℕ
approval_window_ms = 7 * 24 * hour

abbrev pub cooldown_ms : ℕ
cooldown_ms = 24 * hour

unfoldable pub threshold_for : ℕ → ℕ
threshold_for active_guardians = active_guardians / 2 + 1

-- The service's configuration and what it calls outside.
pub record Env : Type 0 where
  pub time_lock_ms : ℕ
  -- The n-th random value: a token's text, or the bytes of an iv.
  pub random : ℕ → Text
  -- Whether the notifier takes the email; otherwise `send` throws.
  pub delivers : Mail → Bool
  pub crypto : Crypto
  pub encryption : EncryptionService
  pub chains : Chains

abbrev pub all_base64url : Text → Bool
all_base64url [] = true
all_base64url (c ∷ s) = is_base64url c && all_base64url s

-- The text, if the value is a string of 43 base64url characters. `none` stands for any other value.
unfoldable pub valid_token_shape : Option Text → Option Text
valid_token_shape none = none
valid_token_shape (some token) =
    if length token == 43 && all_base64url token then some token else none

abbrev pub hash_is : Text → Option Text → Bool
hash_is h none = false
hash_is h (some k) = text_eq k h

-- `name || null`.
abbrev pub or_null : Option Text → Option Text
or_null none = none
or_null (some []) = none
or_null (some (c ∷ s)) = some (c ∷ s)

-- `OPEN_STATUSES`.
abbrev pub is_open : RecoveryStatus → Bool
is_open awaiting_approvals = true
is_open time_locked = true
is_open completing = true
is_open _ = false

-- The statuses that the owner can still cancel.
abbrev pub is_cancellable : RecoveryStatus → Bool
is_cancellable awaiting_approvals = true
is_cancellable time_locked = true
is_cancellable _ = false

abbrev pub is_awaiting : RecoveryStatus → Bool
is_awaiting awaiting_approvals = true
is_awaiting _ = false

abbrev pub is_time_locked : RecoveryStatus → Bool
is_time_locked time_locked = true
is_time_locked _ = false

abbrev pub is_active : GuardianStatus → Bool
is_active active = true
is_active _ = false

module _ (env : Env) where
  unfoldable pub hash_token : Text → Text
  hash_token token = to_hex (env.crypto.sha256 token)

  -- `newToken`: the token; its hash is `hash_token` of it.
  unfoldable pub new_token : Exec World Text
  new_token s = (ok (env.random s.drawn), record s { drawn = s.drawn + 1 })

  unfoldable pub notify : Mail → Exec World (Unit {0})
  notify m s =
      if env.delivers m
      then (ok tt, record s { outbox = s.outbox ++ m ∷ [] })
      else (err (failure "notifier"), s)
