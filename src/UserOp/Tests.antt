-- ===== src/UserOp/Tests.antt =====
-- Tests of the formats of a user operation, with the big-endian coding of sixteen bytes.
use open_privy.Base.{
  List, ℕ, zero, suc, ◌+◌, ◌*◌, ◌/◌, ◌%◌, ◌<◌, Text, length, replicate, [], ◌∷◌, ◌++◌, All, Result,
  ok, ◌≡◌, refl, ◌∙◌, sym, ◌≤◌, some, none, codes, take, drop, err, failure, ltb, if◌then◌else◌, ap,
  ap₂, arith, inl, inr,
}
use open_privy.Encryption.Hex.{IsByte}
use open_privy.Base.Strings.{text_eq}
use open_privy.Sanctions.{synced, ofac_sdn}
use open_privy.UserOp.Calls.Covers.{Listed}
use open_privy.UserOp.Calls.Touched.{by_approve, execute_batch, paid, extract_destinations-Touches}
use open_privy.UserOp.{
  max_uint128, pack128, unpack128, pack_paymaster_and_data, Ethers, PackedUserOp, RpcUserOp,
  to_rpc_user_op, from_rpc_user_op,
}
use open_privy.UserOp.RoundTrip.{EthersLaws, IsPacked, from_rpc_user_op-to_rpc_user_op}
use open_privy.UserOp.Calls.{
  Interfaces, transfer, approve, pair_calls, calls_of, add, add_all, add_recipients, add_calls,
  extract_destinations,
}
use open_privy.UserOp.Service.{Remote, Desk, send_user_op}
use open_privy.UserOp.Service.Screened
use open_privy.UserOp.Service.Screened.{send_user_op-Ends}
use open_privy.UserOp.Sponsoring.{
  Sponsorship, Merged, with_merged, merge_for, merge_paymaster, merge_sponsorship, max_gas_cost,
}
use open_privy.UserOp.Sponsoring.Costs.{WordLaws, max_gas_cost-merge_sponsorship}

-- The last byte first.
abbrev little : Text → ℕ
little [] = 0
little (b ∷ bs) = b + 256 * little bs

abbrev digits : ℕ → ℕ → Text
digits zero v = []
digits (suc n) v = v % 256 ∷ digits n (v / 256)

digits-little : (n : ℕ) (b : Text) → length b ≡ n → All IsByte b → digits n (little b) ≡ b
digits-little zero [] h k = refl
digits-little zero (x ∷ b) h k = absurd (omega arith)
digits-little (suc n) [] h k = absurd (omega arith)
digits-little (suc n) (x ∷ b) h (k, ks) =
    ap₂ (◌∷◌) (omega arith)
      (ap (digits n) (quotient x (little b) k) ∙ digits-little n b (omega arith) ks)
  where
    quotient : (x m : ℕ) → x < 256 → (x + 256 * m) / 256 ≡ m
    quotient x m h = omega arith

abbrev bound : ℕ → ℕ
bound zero = 1
bound (suc n) = 256 * bound n

little-bound : (n : ℕ) (b : Text) → length b ≡ n → All IsByte b → little b < bound n
little-bound zero [] h k = omega arith
little-bound zero (x ∷ b) h k = absurd (omega arith)
little-bound (suc n) [] h k = absurd (omega arith)
little-bound (suc n) (x ∷ b) h (k, ks) = omega (arith, little-bound n b (omega arith) ks)

digits-bound : (n v : ℕ) → v < bound n → little (digits n v) ≡ v
digits-bound zero v h = omega arith
digits-bound (suc n) v h = omega (arith, digits-bound n (v / 256) (omega arith))

length-digits : (n v : ℕ) → length (digits n v) ≡ n
length-digits zero v = refl
length-digits (suc n) v = ap suc (length-digits n (v / 256))

abbrev to_hex_16 : ℕ → Result Text
to_hex_16 v = if ltb max_uint128 v then err (failure "value is too large") else ok (digits 16 v)

to_hex_16-ok : (v : ℕ) (b : Text) → to_hex_16 v ≡ ok b → (v ≤ max_uint128) × (digits 16 v ≡ b)
to_hex_16-ok v b h = ground arith

to_hex_16-fits : (v : ℕ) → v ≤ max_uint128 → to_hex_16 v ≡ ok (digits 16 v)
to_hex_16-fits v h = ground arith

abbrev coding : Ethers
coding = record {
  get_address = λ b. ok b;
  to_be_hex = to_hex_16;
  solidity_packed = λ hi lo. digits 16 hi ++ digits 16 lo;
  to_number = little;
}

coding-EthersLaws : EthersLaws coding
coding-EthersLaws = record {
  get_address = λ b h. refl;
  to_number_le = λ b h k. omega (arith, little-bound 16 b h k);
  to_be_hex = λ b h k.
      to_hex_16-fits (little b) (omega (arith, little-bound 16 b h k))
      ∙ ap ok (digits-little 16 b h k);
  solidity_packed =
      λ hi lo a b h k. ap₂ (λ x y. x ++ y) (to_hex_16-ok hi a h).1 (to_hex_16-ok lo b k).1;
}

coding-WordLaws : WordLaws coding
coding-WordLaws = record {
  written = λ n h. (digits 16 n, to_hex_16-fits n h);
  word = λ n b h.
      let (fits, same) = to_hex_16-ok n b h in
      (
        sym (ap length same) ∙ length-digits 16 n,
        sym (ap little same) ∙ digits-bound 16 n (omega (arith, fits)),
      );
}

bytes-replicate : (n : ℕ) → All IsByte (replicate n 7)
bytes-replicate zero = tt
bytes-replicate (suc n) = (omega arith, bytes-replicate n)

abbrev packed : PackedUserOp
packed = record {
  sender = replicate 20 7;
  nonce = 3;
  init_code = [];
  call_data = 1 ∷ 2 ∷ [];
  account_gas_limits = replicate 32 7;
  pre_verification_gas = 21000;
  gas_fees = replicate 32 7;
  paymaster_and_data = replicate 60 7;
  signature = [];
}

packed-IsPacked : IsPacked packed
packed-IsPacked = record {
  sender = refl;
  account_gas_limits = (refl, bytes-replicate 32);
  gas_fees = (refl, bytes-replicate 32);
  init_code = inl refl;
  paymaster_and_data = inr (omega arith);
  paymaster_bytes = bytes-replicate 60;
}

from_rpc_user_op-to_rpc_user_op_example :
    (rpc : RpcUserOp) × (to_rpc_user_op coding packed ≡ ok rpc)
    × (from_rpc_user_op coding rpc ≡ ok packed)
from_rpc_user_op-to_rpc_user_op_example =
    from_rpc_user_op-to_rpc_user_op coding coding-EthersLaws packed packed-IsPacked

-- Every call of these interfaces is an `execute` that sends tokens to the bytes after the selector.
abbrev interfaces : Interfaces
interfaces = record {
  selector = λ b. ok (take 1 b);
  execute_selector = 1 ∷ [];
  execute_batch_selector = 2 ∷ [];
  decode_execute = λ b. ok (replicate 20 8, 0, drop 1 b);
  decode_execute_batch = λ b. ok (replicate 20 8 ∷ [], 0 ∷ [], drop 1 b ∷ []);
  encode_execute = λ dest value func. ok (1 ∷ func);
  parse_transaction = λ b. ok (some (transfer b 5));
}

abbrev calls_data : Text
calls_data = 1 ∷ replicate 20 9

extracted :
    extract_destinations coding interfaces calls_data ≡ ok (replicate 20 8 ∷ replicate 20 9 ∷ [])
unfolding extract_destinations calls_of add_calls add_recipients add_all add text_eq
extracted = refl

-- The same, where a batch has two calls and every payload approves the address that it is.
abbrev approving : Interfaces
approving = record interfaces {
  decode_execute_batch =
      λ b. ok (replicate 20 8 ∷ replicate 20 7 ∷ [], 0 ∷ 0 ∷ [], replicate 20 9 ∷ drop 1 b ∷ []);
  parse_transaction = λ b. ok (some (approve b 5));
}

abbrev batch_data : Text
batch_data = 2 ∷ replicate 20 6

abbrev batch_out : List Text
batch_out = replicate 20 8 ∷ replicate 20 9 ∷ replicate 20 7 ∷ replicate 20 6 ∷ []

batch_extracted : extract_destinations coding approving batch_data ≡ ok batch_out
unfolding extract_destinations calls_of pair_calls add_calls add_recipients add_all add text_eq
batch_extracted = refl

-- The spender that the second call of the batch approves.
extract_destinations-Touches_example : Listed coding approving batch_out (replicate 20 6)
unfolding text_eq
extract_destinations-Touches_example =
    extract_destinations-Touches coding approving batch_data (replicate 20 6) batch_out
      batch_extracted
      (paid (replicate 20 7) (replicate 20 6)
        (execute_batch (replicate 20 8 ∷ replicate 20 7 ∷ []) (replicate 20 9 ∷ replicate 20 6 ∷ [])
          (0 ∷ 0 ∷ []) 1 refl refl refl refl refl)
        (by_approve 5 (omega arith) refl))

abbrev remote : Remote
remote = record {
  ethers = coding;
  interfaces = interfaces;
  spell = λ a. a;
  get_nonce = λ a. ok 0;
  estimate_gas = λ target call_data. ok 21000;
  gas_price = ok 10;
  sponsorship = λ rpc. ok none;
  bundler = λ rpc. ok (codes "hash");
  bundler_receipt = λ h. ok none;
  keccak256 = λ b. take 32 b;
  encode_fields = λ sender nonce init_code call_data limits pre fees pm. sender ++ call_data;
  encode_domain = λ hashed entry chain. hashed ++ entry;
  sign_message = λ key digest. ok (key ++ digest);
  entry_point_address = replicate 20 3;
  chain_id = 11155111;
  dummy_signature = replicate 65 255;
}

abbrev signed : PackedUserOp
signed = record packed { call_data = calls_data; signature = 1 ∷ [] }

abbrev desk : Desk
desk = record {
  lists = record {
    addresses = [];
    states =
        record {
          source = ofac_sdn;
          last_synced_at = some 10;
          last_sync_status = synced;
          entry_count = 0;
          last_error = none;
        }
        ∷ [];
  };
  txs = [];
  sent = [];
  next_id = 7;
}

send_user_op-Ends_example :
    Screened.Ends remote 100 50 signed 1 desk (send_user_op remote 100 50 signed 1 desk)
send_user_op-Ends_example = send_user_op-Ends remote 100 50 signed 1 desk

abbrev sponsorship : Sponsorship
sponsorship = record {
  paymaster = some (replicate 20 5);
  paymaster_verification_gas_limit = some 30000;
  paymaster_post_op_gas_limit = some 1;
  paymaster_data = some (4 ∷ []);
  verification_gas_limit = none;
  call_gas_limit = some 60000;
  pre_verification_gas = none;
}

abbrev unsponsored : PackedUserOp
unsponsored = record packed {
  account_gas_limits = digits 16 150000 ++ digits 16 70000;
  gas_fees = digits 16 5 ++ digits 16 20;
  paymaster_and_data = [];
}

abbrev merged : Merged
merged = record {
  paymaster_and_data = replicate 20 5 ++ (digits 16 30000 ++ (digits 16 1 ++ (4 ∷ [])));
  account_gas_limits = digits 16 150000 ++ digits 16 60000;
  pre_verification_gas = 21000;
}

merge_run : merge_sponsorship coding unsponsored (some sponsorship) ≡ ok merged
unfolding merge_sponsorship merge_paymaster merge_for pack_paymaster_and_data pack128 unpack128
merge_run = refl

old_limits : unpack128 coding unsponsored.account_gas_limits ≡ ok (150000, 70000)
unfolding unpack128
old_limits = refl

fees : unpack128 coding unsponsored.gas_fees ≡ ok (5, 20)
unfolding unpack128
fees = refl

max_gas_cost-merge_sponsorship_example :
    max_gas_cost coding (with_merged merged unsponsored)
    ≡ ok ((150000 + 60000 + 21000 + (30000 + 1)) * 20)
max_gas_cost-merge_sponsorship_example =
    max_gas_cost-merge_sponsorship coding coding-EthersLaws coding-WordLaws unsponsored sponsorship
      merged (replicate 20 5) 150000 70000 5 20 refl refl merge_run refl (inl refl) old_limits fees
