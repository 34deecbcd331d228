-- ===== src/Recovery/Samples.antt =====
-- The data of the tests: an account of three guardians, a request against it, and its wallet.
use open_privy.Base.{
  ok, find_by, ◌≡◌, refl, ℕ, ◌+◌, Text, List, [], ◌∷◌, Option, none, some, true, codes, replicate,
  if◌then◌else◌, ◌==◌,
}
use open_privy.Encryption.{
  parse_ciphertext, format_ciphertext, derive_user_key, current_key_id, key_id_of, encrypt, decrypt,
  decrypt_with, decrypt_with_key_id, try_keys, decrypt_with_current_key_only,
}
use open_privy.Encryption.Hex.{to_hex, hex_digit, from_hex, is_paired, hex_value, split_on}
use open_privy.Base.Strings.{lower_unit, text_eq}
use open_privy.Recovery.Keys.{carried_key, carry_key, moved_wallet}
use open_privy.Recovery.Completion.{
  is_claimable, claim, move_wallets, settle, carry_out, recover, complete,
}
use open_privy.Encryption.Samples.{toy, first, zero_iv}
use open_privy.Wallet.{assert_key_matches_address, is_evm_chain, Wallet, software}
use open_privy.Store.{
  World, User, Guardian, active, RecoveryRequest, awaiting_approvals, time_locked, completing,
  RecoveryApproval, ApprovalDecision, undecided, approved,
}
use open_privy.Recovery.{hash_token, Env}

-- Every email is delivered, and an address is the key's first character.
abbrev pub env : Env
env = record {
  time_lock_ms = 3600000;
  random = λ n. zero_iv;
  delivers = λ m. true;
  crypto = toy;
  encryption = first;
  chains = record {
    evm_address = λ key. some (open_privy.Base.take 1 key);
    ed25519_public = λ seed. seed;
    base58 = λ s. s;
  };
}

abbrev user : ℕ → Text → User
user id email = record {
  id = id;
  email = email;
  workos_user_id = none;
  username = none;
  email_verified = true;
  locked_at = none;
  sessions_valid_after = none;
}

abbrev guardian : ℕ → Guardian
guardian id = record {
  id = id;
  owner_user_id = 1;
  name = codes "guardian";
  email = codes "guardian@example.com";
  status = active;
  invite_token_hash = none;
  invite_expires_at = none;
  confirmed_at = some 1;
}

-- Two tokens of the right shape.
abbrev pub token_a : Text
token_a = replicate 43 b'a'

abbrev pub token_b : Text
token_b = replicate 43 b'b'

abbrev pub awaiting : RecoveryRequest
awaiting = record {
  id = 21;
  old_user_id = 1;
  new_user_id = 2;
  status = awaiting_approvals;
  threshold = 2;
  cancel_token_hash = [];
  approvals_expire_at = 1000;
  unlocks_at = none;
  closed_at = none;
  closed_reason = none;
}

abbrev pub locked : RecoveryRequest
locked = record awaiting { status = time_locked; unlocks_at = some 900 }

abbrev pub approval_of : ℕ → Option Text → ApprovalDecision → RecoveryApproval
approval_of id token_hash decision = record {
  id = id;
  request_id = 21;
  guardian_id = id;
  token_hash = token_hash;
  decision = decision;
  decided_at = none;
}

-- The approval that `token_a` names.
abbrev pub open_vote : RecoveryApproval
open_vote = approval_of 12 (some (hash_token env token_a)) undecided

abbrev pub wallet : Wallet
wallet = record {
  id = 4;
  user_id = 1;
  address = codes "k";
  chain = codes "ethereum";
  public_key = [];
  encrypted_private_key = some (encrypt toy first zero_iv (codes "key") 1);
  encryption_key_id = some (current_key_id toy first);
  signing_mode = software;
  hsm_key_label = none;
  recovery_email = none;
  is_active = true;
}

abbrev pub world : RecoveryRequest → World
world request = record {
  db = record {
    users = user 1 (codes "old@example.com") ∷ user 2 (codes "new@example.com") ∷ [];
    wallets = wallet ∷ [];
    guardians = guardian 11 ∷ guardian 12 ∷ guardian 13 ∷ [];
    requests = request ∷ [];
    approvals =
        approval_of 11 none approved
        ∷ open_vote
        ∷ approval_of 13 (some (hash_token env token_b)) undecided
        ∷ [];
    audits = [];
  };
  outbox = [];
  drawn = 0;
  next_id = 50;
}

abbrev pub claimed : RecoveryRequest
claimed = record locked { status = completing }

abbrev pub after_completion : World
after_completion = (complete env 1000 21 (world locked)).1

pub completed_run : complete env 1000 21 (world locked) ≡ (ok true, after_completion)
unfolding complete recover carry_out settle move_wallets claim is_claimable moved_wallet carry_key
    carried_key to_hex hex_digit from_hex is_paired hex_value split_on lower_unit text_eq encrypt
    decrypt decrypt_with decrypt_with_key_id try_keys decrypt_with_current_key_only parse_ciphertext
    format_ciphertext derive_user_key current_key_id key_id_of assert_key_matches_address
    is_evm_chain
completed_run = refl

pub claimed_row : find_by (λ q. q.id == 21) (claim 1000 21 (world locked)).1.requests ≡ some claimed
unfolding claim is_claimable
claimed_row = refl
