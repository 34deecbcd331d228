-- ===== src/UserOp/Sponsoring.antt =====
-- services/backend/src/modules/account-abstraction/paymaster.service.ts: the sponsorship of an operation, and
-- the bound on its cost. The paymaster's answer is a parameter, read as numbers and bytes.
pub mod Costs
use open_privy.Base.{
  ℕ, ◌+◌, ◌*◌, Text, length, Bool, List, [], ◌∷◌, Option, none, some, bad_request, Result, ok, err,
  ltb, if◌then◌else◌,
}
use open_privy.Base.Errors.{◌>>=◌, ◌>>◌}
use open_privy.UserOp.{
  Ethers, PackedUserOp, RpcUserOp, or_empty, or_zero, pack128, unpack128, pack_paymaster_and_data,
  to_rpc_user_op,
}

-- `data.result` of `pm_sponsorUserOperation`.
pub record Sponsorship : Type 0 where
  pub paymaster : Option Text
  pub paymaster_verification_gas_limit : Option ℕ
  pub paymaster_post_op_gas_limit : Option ℕ
  pub paymaster_data : Option Text
  pub verification_gas_limit : Option ℕ
  pub call_gas_limit : Option ℕ
  pub pre_verification_gas : Option ℕ

-- The fields that a sponsorship gives.
pub record Merged : Type 0 where
  pub paymaster_and_data : Text
  pub account_gas_limits : Text
  pub pre_verification_gas : ℕ

-- `a ?? b`.
abbrev pub or_else : Option ℕ → ℕ → ℕ
or_else none b = b
or_else (some a) b = a

-- `Object.assign` of the fields.
abbrev pub with_merged : Merged → PackedUserOp → PackedUserOp
with_merged m op = record op {
  paymaster_and_data = m.paymaster_and_data;
  account_gas_limits = m.account_gas_limits;
  pre_verification_gas = m.pre_verification_gas;
}

module _ (e : Ethers) where
  unfoldable pub merge_for : PackedUserOp → Sponsorship → Text → Result Merged
  merge_for op r paymaster = do
    limits ← unpack128 e op.account_gas_limits
    paymaster_and_data ←
        pack_paymaster_and_data e paymaster (or_zero r.paymaster_verification_gas_limit)
          (or_zero r.paymaster_post_op_gas_limit) (or_empty r.paymaster_data)
    account_gas_limits ←
        pack128 e (or_else r.verification_gas_limit limits.0) (or_else r.call_gas_limit limits.1)
    ok (record {
      paymaster_and_data = paymaster_and_data;
      account_gas_limits = account_gas_limits;
      pre_verification_gas = or_else r.pre_verification_gas op.pre_verification_gas;
    })

  -- An absent paymaster is null or the empty text.
  unfoldable pub merge_paymaster : PackedUserOp → Sponsorship → Option Text → Result Merged
  merge_paymaster op r none = err (bad_request "Paymaster returned no sponsorship")
  merge_paymaster op r (some []) = err (bad_request "Paymaster returned no sponsorship")
  merge_paymaster op r (some (b ∷ bs)) = merge_for op r (b ∷ bs)

  unfoldable pub merge_sponsorship : PackedUserOp → Option Sponsorship → Result Merged
  merge_sponsorship op none = err (bad_request "Paymaster returned no sponsorship")
  merge_sponsorship op (some r) = merge_paymaster op r r.paymaster

  -- `sponsorUserOp`, for an answer of the paymaster to the operation that it is shown.
  unfoldable pub sponsor_user_op :
      (dummy_signature : Text) (answer : RpcUserOp → Result (Option Sponsorship))
      → PackedUserOp
      → Result Merged
  sponsor_user_op dummy_signature answer op = do
    rpc ← to_rpc_user_op e (record op { paymaster_and_data = []; signature = dummy_signature })
    result ← answer rpc
    merge_sponsorship op result

  -- The paymaster's gas: what `maxGasCost` adds where the header is there.
  unfoldable pub paymaster_gas : PackedUserOp → Result ℕ
  paymaster_gas op =
      if ltb (length op.paymaster_and_data) 52
      then ok 0
      else (to_rpc_user_op e op >>= λ rpc.
          ok (
            or_zero rpc.paymaster_verification_gas_limit + or_zero rpc.paymaster_post_op_gas_limit))

  unfoldable pub max_gas_cost : PackedUserOp → Result ℕ
  max_gas_cost op = do
    limits ← unpack128 e op.account_gas_limits
    fees ← unpack128 e op.gas_fees
    pm_gas ← paymaster_gas op
    ok ((limits.0 + limits.1 + op.pre_verification_gas + pm_gas) * fees.1)
