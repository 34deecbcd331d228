-- ===== src/UserOp/Service.antt =====
-- services/backend/src/modules/account-abstraction/userop.service.ts: the building, signing and sending of a user
-- operation. The node, the bundler, the paymaster and the coding and hashing of ethers are parameters.
-- Numbers are read as numbers, and the operations given to the bundler are kept in their order.
pub mod Screened
use open_privy.Base.{
  ℕ, ◌+◌, ◌*◌, ◌/◌, Text, length, Bool, true, false, List, [], ◌∷◌, ◌++◌, Option, none, some,
  bad_request, forbidden, failure, Error, Result, ok, err, if◌then◌else◌, Exec, pure, raise, lift,
  gets, modify, refuse,
}
use open_privy.Base.Actions.{◌>>=◌, ◌>>◌}
use open_privy.Sanctions.{Lists, screen_address}
use open_privy.UserOp.{Ethers, PackedUserOp, RpcUserOp, pack128, to_rpc_user_op}
use open_privy.UserOp.Calls.{Interfaces, extract_destinations}
use open_privy.UserOp.Sponsoring.{Sponsorship, with_merged, sponsor_user_op}

-- What the service calls.
pub record Remote : Type 0 where
  pub ethers : Ethers
  pub interfaces : Interfaces
  -- The text of an address, with its checksum.
  pub spell : Text → Text
  -- `entryPoint.getNonce(_, 0)`.
  pub get_nonce : Text → Result ℕ
  pub estimate_gas : (target call_data : Text) → Result ℕ
  pub gas_price : Result ℕ
  pub sponsorship : RpcUserOp → Result (Option Sponsorship)
  pub bundler : RpcUserOp → Result Text
  -- The receipt of an operation, none where there is none yet.
  pub bundler_receipt : Text → Result (Option Text)
  pub keccak256 : Text → Text
  -- `abi.encode` of the eight fields, and of the hash, the entry point and the chain.
  pub encode_fields :
      (sender : Text) (nonce : ℕ) (init_code call_data account_gas_limits : Text)
      (pre_verification_gas : ℕ) (gas_fees paymaster_and_data : Text)
      → Text
  pub encode_domain : (hashed_op entry_point : Text) (chain_id : ℕ) → Text
  -- `signMessage` with a private key.
  pub sign_message : (private_key digest : Text) → Result Text
  pub entry_point_address : Text
  pub chain_id : ℕ
  pub dummy_signature : Text

-- The columns of a transaction that the service writes; the others are fixed.
pub record UserOpTx : Type 0 where
  pub id : ℕ
  pub user_id : ℕ
  pub from_address : Text
  pub to_address : Text
  pub user_op_hash : Text

pub record Desk : Type 0 where
  pub lists : Lists
  pub txs : List UserOpTx
  pub sent : List RpcUserOp
  pub next_id : ℕ

abbrev pub blocked_call : Error
blocked_call = forbidden "Destination address is blocked"

module _ (r : Remote) (max_staleness now : ℕ) where
  -- Whether the screening blocks an address on Ethereum.
  abbrev pub is_blocked : Text → Desk → Bool
  is_blocked dest s = (screen_address max_staleness now (r.spell dest) s.lists).blocked

  -- The loop of `assertNotSanctioned`.
  unfoldable pub screen_all : List Text → Exec Desk (Unit {0})
  screen_all [] = pure tt
  screen_all (dest ∷ rest) = do
    blocked ← gets (is_blocked dest)
    refuse blocked blocked_call
    screen_all rest

  -- The `catch` around the destinations.
  unfoldable pub or_bad_request : Result (List Text) → Result (List Text)
  or_bad_request (ok out) = ok out
  or_bad_request (err e) = err (bad_request "Unsupported account callData")

  unfoldable pub assert_not_sanctioned : Text → Exec Desk (Unit {0})
  assert_not_sanctioned account_call_data = do
    destinations ←
        lift (or_bad_request (extract_destinations r.ethers r.interfaces account_call_data))
    screen_all destinations

  unfoldable pub calculate_user_op_hash : PackedUserOp → Text
  calculate_user_op_hash op = r.keccak256 (
      r.encode_domain
        (r.keccak256 (
          r.encode_fields op.sender op.nonce (r.keccak256 op.init_code) (r.keccak256 op.call_data)
            op.account_gas_limits op.pre_verification_gas op.gas_fees
            (r.keccak256 op.paymaster_and_data)))
        r.entry_point_address r.chain_id)

  -- `gasLimit || estimateGas(..)`.
  unfoldable pub gas_of : Option ℕ → Text → Text → Result ℕ
  gas_of none target call_data = r.estimate_gas target call_data
  gas_of (some gas_limit) target call_data = ok gas_limit

  -- 500,000 where the account is still to be deployed.
  unfoldable pub verification_gas : Text → ℕ
  verification_gas [] = 150000
  verification_gas (b ∷ bs) = 500000

  unfoldable pub attach_sponsorship : Bool → PackedUserOp → Result PackedUserOp
  attach_sponsorship false op = ok op
  attach_sponsorship true op = elim (sponsor_user_op r.ethers r.dummy_signature r.sponsorship op) [
    | ok merged ↦ ok (with_merged merged op)
    | err e ↦ err e
  ]

  unfoldable pub build_user_op :
      (sender target call_data : Text) (gas_limit : Option ℕ) (value : ℕ) (init_code : Text)
      (sponsor : Bool)
      → Exec Desk (PackedUserOp × Text)
  build_user_op sender target call_data gas_limit value init_code sponsor = do
    dest ← lift (r.ethers.get_address target)
    account_call_data ← lift (r.interfaces.encode_execute dest value call_data)
    assert_not_sanctioned account_call_data
    nonce ← lift (r.get_nonce sender)
    estimated ← lift (gas_of gas_limit target call_data)
    price ← lift r.gas_price
    from_ ← lift (r.ethers.get_address sender)
    account_gas_limits ← lift (pack128 r.ethers (verification_gas init_code) (estimated + 50000))
    gas_fees ← lift (pack128 r.ethers (price / 2) (price * 2))
    sponsored ← lift (
        attach_sponsorship sponsor (record {
          sender = from_;
          nonce = nonce;
          init_code = init_code;
          call_data = account_call_data;
          account_gas_limits = account_gas_limits;
          pre_verification_gas = 60000;
          gas_fees = gas_fees;
          paymaster_and_data = [];
          signature = r.dummy_signature;
        }))
    let op : PackedUserOp = record sponsored { signature = [] }
    pure (op, calculate_user_op_hash op)

  unfoldable pub sign_user_op : PackedUserOp → Text → Result PackedUserOp
  sign_user_op op private_key = elim (r.sign_message private_key (calculate_user_op_hash op)) [
    | ok signature ↦ ok (record op { signature = signature })
    | err e ↦ err e
  ]

  abbrev pub is_unsigned : Text → Bool
  is_unsigned [] = true
  is_unsigned (b ∷ bs) = false

  -- The row of the operation; the table refuses one without a destination.
  unfoldable pub record_sent : ℕ → PackedUserOp → Text → List Text → Exec Desk Text
  record_sent user_id op user_op_hash [] = raise (failure "null value in column \"toAddress\"")
  record_sent user_id op user_op_hash (to ∷ rest) = do
    modify (λ s. record s {
      txs =
          s.txs
          ++ record {
            id = s.next_id;
            user_id = user_id;
            from_address = op.sender;
            to_address = to;
            user_op_hash = user_op_hash;
          }
            ∷ [];
      next_id = s.next_id + 1;
    })
    pure user_op_hash

  -- From the call of the bundler on.
  unfoldable pub submit : PackedUserOp → ℕ → RpcUserOp → Exec Desk Text
  submit op user_id rpc = do
    modify (λ s. record s { sent = s.sent ++ rpc ∷ [] })
    user_op_hash ← lift (r.bundler rpc)
    destinations ← lift (extract_destinations r.ethers r.interfaces op.call_data)
    record_sent user_id op user_op_hash destinations

  unfoldable pub send_user_op : PackedUserOp → ℕ → Exec Desk Text
  send_user_op op user_id = do
    refuse (is_unsigned op.signature) (bad_request "UserOp is not signed")
    assert_not_sanctioned op.call_data
    rpc ← lift (to_rpc_user_op r.ethers op)
    submit op user_id rpc

  -- An error of the bundler counts as no receipt.
  unfoldable pub get_user_op_receipt : Text → Option Text
  get_user_op_receipt user_op_hash = elim (r.bundler_receipt user_op_hash) [
    | ok receipt ↦ receipt
    | err e ↦ none
  ]
