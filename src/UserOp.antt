-- ===== src/UserOp.antt =====
-- services/backend/src/modules/account-abstraction/userop-format.ts: the packed form of a user operation,
-- which is hashed on chain, and the form that bundlers take. A hex string is the bytes that it
-- stands for, and a quantity the number. The calls of ethers are a parameter.
pub mod Calls
pub mod Sponsoring
pub mod Service
pub mod RoundTrip
mod Tests
use open_privy.Base.{
  ℕ, ◌+◌, ◌-◌, ◌^◌, Text, length, take, drop, Bool, true, false, not, ◌||◌, List, [], ◌∷◌, ◌++◌,
  Option, none, some, failure, Result, ok, err, ltb, ◌==◌, if◌then◌else◌,
}
use open_privy.Base.Errors.{◌>>=◌, ◌>>◌}

pub record Ethers : Type 0 where
  -- `getAddress`, which throws on what is no address.
  pub get_address : Text → Result Text
  -- `toBeHex(_, 16)`, which throws on a number that is too large.
  pub to_be_hex : ℕ → Result Text
  -- `solidityPacked(['uint128', 'uint128'], _)`.
  pub solidity_packed : ℕ → ℕ → Text
  -- `BigInt(hexlify(_))`.
  pub to_number : Text → ℕ

pub record PackedUserOp : Type 0 where
  pub sender : Text
  pub nonce : ℕ
  pub init_code : Text
  pub call_data : Text
  pub account_gas_limits : Text
  pub pre_verification_gas : ℕ
  pub gas_fees : Text
  pub paymaster_and_data : Text
  pub signature : Text

pub record RpcUserOp : Type 0 where
  pub sender : Text
  pub nonce : ℕ
  pub factory : Option Text
  pub factory_data : Option Text
  pub call_data : Text
  pub call_gas_limit : ℕ
  pub verification_gas_limit : ℕ
  pub pre_verification_gas : ℕ
  pub max_fee_per_gas : ℕ
  pub max_priority_fee_per_gas : ℕ
  pub paymaster : Option Text
  pub paymaster_verification_gas_limit : Option ℕ
  pub paymaster_post_op_gas_limit : Option ℕ
  pub paymaster_data : Option Text
  pub signature : Text

abbrev pub max_uint128 : ℕ
max_uint128 = 2 ^ 128 - 1

-- `data || '0x'` and `limit || 0`.
abbrev pub or_empty : Option Text → Text
or_empty none = []
or_empty (some t) = t

abbrev pub or_zero : Option ℕ → ℕ
or_zero none = 0
or_zero (some n) = n

-- The paymaster, its two limits and its data.
pub record Paymaster : Type 0 where
  pub address : Option Text
  pub verification : Option ℕ
  pub post_op : Option ℕ
  pub payload : Option Text

module _ (e : Ethers) where
  unfoldable pub pack128 : ℕ → ℕ → Result Text
  pack128 hi lo =
      if ltb max_uint128 hi || ltb max_uint128 lo
      then err (failure "value does not fit in uint128")
      else ok (e.solidity_packed hi lo)

  unfoldable pub unpack128 : Text → Result (ℕ × ℕ)
  unpack128 b =
      if not (length b == 32)
      then err (failure "expected bytes32")
      else ok (e.to_number (take 16 b), e.to_number (take 16 (drop 16 b)))

  unfoldable pub pack_paymaster_and_data : Text → ℕ → ℕ → Text → Result Text
  pack_paymaster_and_data paymaster verification post_op payload = do
    address ← e.get_address paymaster
    v ← e.to_be_hex verification
    p ← e.to_be_hex post_op
    ok (address ++ (v ++ (p ++ payload)))

  -- What `toRpcUserOp` reads from the init code: the factory and its data.
  unfoldable pub factory_of : Text → Result (Option Text × Option Text)
  factory_of [] = ok (none, none)
  factory_of (b ∷ bs) =
      if ltb (length (b ∷ bs)) 20
      then err (failure "initCode shorter than a factory address")
      else (do
        address ← e.get_address (take 20 (b ∷ bs))
        ok (some address, some (drop 20 (b ∷ bs))))

  unfoldable pub paymaster_of : Text → Result Paymaster
  paymaster_of [] =
      ok (record { address = none; verification = none; post_op = none; payload = none })
  paymaster_of (b ∷ bs) =
      if ltb (length (b ∷ bs)) 52
      then err (failure "paymasterAndData shorter than the v0.7 52-byte header")
      else (do
        address ← e.get_address (take 20 (b ∷ bs))
        ok (record {
          address = some address;
          verification = some (e.to_number (take 16 (drop 20 (b ∷ bs))));
          post_op = some (e.to_number (take 16 (drop 16 (drop 20 (b ∷ bs)))));
          payload = some (drop 16 (drop 16 (drop 20 (b ∷ bs))));
        }))

  unfoldable pub to_rpc_user_op : PackedUserOp → Result RpcUserOp
  to_rpc_user_op op = do
    gas ← unpack128 op.account_gas_limits
    fees ← unpack128 op.gas_fees
    sender ← e.get_address op.sender
    factory ← factory_of op.init_code
    paymaster ← paymaster_of op.paymaster_and_data
    ok (record {
      sender = sender;
      nonce = op.nonce;
      factory = factory.0;
      factory_data = factory.1;
      call_data = op.call_data;
      call_gas_limit = gas.1;
      verification_gas_limit = gas.0;
      pre_verification_gas = op.pre_verification_gas;
      max_fee_per_gas = fees.1;
      max_priority_fee_per_gas = fees.0;
      paymaster = paymaster.address;
      paymaster_verification_gas_limit = paymaster.verification;
      paymaster_post_op_gas_limit = paymaster.post_op;
      paymaster_data = paymaster.payload;
      signature = op.signature;
    })

  -- An absent factory or paymaster, null or the empty text, is none; `0x` is no bytes.
  unfoldable pub init_code_of : Option Text → Option Text → Text
  init_code_of none payload = []
  init_code_of (some factory) payload = factory ++ or_empty payload

  unfoldable pub paymaster_and_data_of :
      Option Text → Option ℕ → Option ℕ → Option Text → Result Text
  paymaster_and_data_of none verification post_op payload = ok []
  paymaster_and_data_of (some paymaster) verification post_op payload =
      pack_paymaster_and_data paymaster (or_zero verification) (or_zero post_op) (or_empty payload)

  unfoldable pub from_rpc_user_op : RpcUserOp → Result PackedUserOp
  from_rpc_user_op rpc = do
    sender ← e.get_address rpc.sender
    account_gas_limits ← pack128 rpc.verification_gas_limit rpc.call_gas_limit
    gas_fees ← pack128 rpc.max_priority_fee_per_gas rpc.max_fee_per_gas
    paymaster_and_data ←
        paymaster_and_data_of rpc.paymaster rpc.paymaster_verification_gas_limit
          rpc.paymaster_post_op_gas_limit rpc.paymaster_data
    ok (record {
      sender = sender;
      nonce = rpc.nonce;
      init_code = init_code_of rpc.factory rpc.factory_data;
      call_data = rpc.call_data;
      account_gas_limits = account_gas_limits;
      pre_verification_gas = rpc.pre_verification_gas;
      gas_fees = gas_fees;
      paymaster_and_data = paymaster_and_data;
      signature = rpc.signature;
    })
