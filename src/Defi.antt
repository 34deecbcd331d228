-- ===== src/Defi.antt =====
-- services/backend/src/modules/defi/services: staking.service.ts and swap.service.ts. The node, ethers and the
-- exchange's API are parameters; amounts are in wei.
mod Tests
use open_privy.Base.{
  ℕ, ◌*◌, ◌/◌, ◌^◌, Text, text_eq, to_lower, Option, none, some, failure, Error, Result, ok, err,
  codes, if◌then◌else◌, List, [], ◌∷◌,
}
use open_privy.Base.Errors.{◌>>=◌, ◌>>◌}

pub record StakingInfo : Type 0 where
  pub staked_amount : Text
  pub rewards : Text
  pub apy : Text
  pub tvl : Text

pub record StakeTx : Type 0 where
  pub to : Text
  pub payload : Text
  pub value : ℕ
  pub gas : ℕ
  pub gas_price : ℕ

pub record UnstakeTx : Type 0 where
  pub to : Text
  pub payload : Text
  pub gas : ℕ
  pub gas_price : ℕ

-- The contracts of Lido behind the node, and ethers.
pub record Lido : Type 0 where
  pub balance_of : Text → Result ℕ
  -- `getFeeData().gasPrice`, which may be absent.
  pub gas_price : Result (Option ℕ)
  pub estimate_submit : ℕ → Result ℕ
  pub estimate_withdrawal : (amount : ℕ) (owner : Text) → Result ℕ
  pub encode_submit : Text
  pub encode_withdrawal : (amount : ℕ) (owner : Text) → Text
  pub parse_ether : Text → Result ℕ
  pub format_ether : ℕ → Text
  -- `toString` of an amount, and `Math.floor(parseFloat(_) / 100 * 10000)`.
  pub to_decimal : ℕ → Text
  pub basis_points : Text → ℕ

abbrev pub lido_address : Text
lido_address = codes "0xae7ab96520DE3A18E5e111B5eaAb095312D7fE84"

abbrev pub withdrawal_queue_address : Text
withdrawal_queue_address = codes "0x889edC2eDab5f40e902b864aD4d7AdE30b7a7592"

abbrev pub lido_apy : Text
lido_apy = codes "3.84"

abbrev pub lido_tvl : Text
lido_tvl = codes "26500000000"

-- A `try` whose `catch` throws an error of its own.
abbrev pub or_failure : {A : Type 0} → Result A → Error → Result A
or_failure (ok a) e = ok a
or_failure (err x) e = err e

abbrev pub or_zero_price : Option ℕ → ℕ
or_zero_price none = 0
or_zero_price (some n) = n

module _ (lido : Lido) where
  -- The text of the amount is read as ether.
  unfoldable pub calculate_rewards : (staked_amount apy : Text) → Result ℕ
  calculate_rewards staked_amount apy = do
    amount ← lido.parse_ether staked_amount
    ok (amount * lido.basis_points apy / 1000000 / 365)

  unfoldable pub read_staking_info : Text → Result StakingInfo
  read_staking_info wallet_address = do
    staked_amount ← lido.balance_of wallet_address
    rewards ← calculate_rewards (lido.to_decimal staked_amount) lido_apy
    ok (record {
      staked_amount = lido.format_ether staked_amount;
      rewards = lido.format_ether rewards;
      apy = lido_apy;
      tvl = lido_tvl;
    })

  unfoldable pub get_staking_info : Text → Result StakingInfo
  get_staking_info wallet_address =
      or_failure (read_staking_info wallet_address) (failure "Failed to get staking info")

  unfoldable pub make_stake_tx : Text → Result StakeTx
  make_stake_tx amount_in_eth = do
    amount ← lido.parse_ether amount_in_eth
    price ← lido.gas_price
    gas ← lido.estimate_submit amount
    ok (record {
      to = lido_address;
      payload = lido.encode_submit;
      value = amount;
      gas = gas;
      gas_price = or_zero_price price;
    })

  unfoldable pub build_stake_tx : (wallet_address amount_in_eth : Text) → Result StakeTx
  build_stake_tx wallet_address amount_in_eth =
      or_failure (make_stake_tx amount_in_eth) (failure "Failed to build stake transaction")

  unfoldable pub make_unstake_tx : (wallet_address steth_amount : Text) → Result UnstakeTx
  make_unstake_tx wallet_address steth_amount = do
    amount ← lido.parse_ether steth_amount
    price ← lido.gas_price
    gas ← lido.estimate_withdrawal amount wallet_address
    ok (record {
      to = withdrawal_queue_address;
      payload = lido.encode_withdrawal amount wallet_address;
      gas = gas;
      gas_price = or_zero_price price;
    })

  unfoldable pub build_unstake_tx : (wallet_address steth_amount : Text) → Result UnstakeTx
  build_unstake_tx wallet_address steth_amount =
      or_failure (make_unstake_tx wallet_address steth_amount)
        (failure "Failed to build unstake transaction")

-- `getChainId`: a chain that is not known counts as Ethereum.
unfoldable pub get_chain_id : Text → ℕ
get_chain_id chain =
    if text_eq (to_lower chain) (codes "polygon")
    then 137
    else if text_eq (to_lower chain) (codes "avalanche")
    then 43114
    else if text_eq (to_lower chain) (codes "arbitrum")
    then 42161
    else if text_eq (to_lower chain) (codes "optimism")
    then 10
    else 1
