-- ===== src/Transactions.antt =====
-- services/backend/src/modules/transactions/transaction.service.ts: signing requests, the broadcast of a
-- transaction that the client signed, and the custodial send. Ethers and the node are parameters;
-- what was given to the node is kept in the order in which it was given.
pub mod Sending
pub mod Broadcasting
mod Tests
use open_privy.Base.{
  ℕ, ◌+◌, Text, text_eq, Bool, true, false, not, ◌&&◌, List, [], ◌∷◌, ◌++◌, take, Option, none,
  some, bad_request, forbidden, not_found, Error, Result, ok, err, or_err, ltb, ◌==◌, if◌then◌else◌,
  filter_by, find_by, update_by, Exec, pure, raise, lift, gets, modify, refuse,
}
use mathlib.Core.List.{reverse}
use open_privy.Base.Actions.{◌>>=◌, ◌>>◌}
use open_privy.Wallet.{Wallet}
use open_privy.Store.{World}
use open_privy.Custody.{Custodian, Signer, get_wallet_by_id, get_evm_signer}
use open_privy.Sanctions.{Lists, ScreeningResult, screen_address}

-- 'pending', 'confirmed' and 'failed'.
pub data TxStatus : Type 0 where
  pending confirmed failed : TxStatus

-- An amount as `parseEther` reads it.
pub data Wei : Type 0 where
  wei minus : (amount : ℕ) → Wei

-- The columns that the service writes. Amounts are in wei.
pub record Transaction : Type 0 where
  pub id : ℕ
  pub user_id : ℕ
  pub wallet_id : ℕ
  pub request_id : ℕ
  pub chain : Text
  pub tx_hash : Option Text
  pub from_address : Text
  pub to_address : Text
  pub amount : Wei
  pub status : TxStatus
  pub gas_limit : Option ℕ
  pub confirmed_at : Option ℕ

-- What reaches the node: a transfer that a signer of the backend signs, or a signed text.
pub data Sent : Type 0 where
  transfer : (signer : Signer) (to : Text) (value : ℕ) → Sent
  signed : (text : Text) → Sent

pub record Ledger : Type 0 where
  pub store : World
  pub lists : Lists
  pub txs : List Transaction
  pub sent : List Sent

pub record Node : Type 0 where
  pub is_address : Text → Bool
  -- `none` where `parseEther` throws.
  pub parse_ether : Text → Option Wei
  pub estimate_gas : Text → Result ℕ
  pub send : Signer → Text → ℕ → Result Text
  pub broadcast : Text → Result Text
  -- The destination of a signed transaction, absent for the creation of a contract.
  pub decode : Text → Result (Option Text)
  -- Whether the receipt of a hash says success, absent before it is mined.
  pub receipt : Text → Result (Option Bool)

-- The amount, if it is above zero.
unfoldable pub positive : Option Wei → Result ℕ
positive none = err (bad_request "Invalid amount")
positive (some (minus n)) = err (bad_request "Amount must be greater than zero")
positive (some (wei n)) =
    if ltb 0 n then ok n else err (bad_request "Amount must be greater than zero")

-- An action of the wallet service, which reads and writes the store.
abbrev pub on_store : {A : Type 0} → Exec World A → Exec Ledger A
on_store m s = let r = m s.store in (r.0, record s { store = r.1 })

abbrev pub save_tx : Transaction → Ledger → Ledger
save_tx t s = record s { txs = update_by (λ r. r.id == t.id) (λ _. t) s.txs }

-- The first save of a row.
abbrev pub insert_tx : Transaction → Ledger → Ledger
insert_tx t s = record s {
  store = record s.store { next_id = s.store.next_id + 1; drawn = s.store.drawn + 1 };
  txs = s.txs ++ t ∷ [];
}

abbrev pub hand_over : Sent → Ledger → Ledger
hand_over x s = record s { sent = s.sent ++ x ∷ [] }

unfoldable pub get_tx_by_id : ℕ → Exec Ledger Transaction
get_tx_by_id tx_id = do
  found ← gets (λ s. find_by (λ t. t.id == tx_id) s.txs)
  lift (or_err found (not_found "Transaction not found"))

-- The newest first.
pub get_user_transactions : ℕ → ℕ → Ledger → List Transaction
get_user_transactions user_id limit s =
    take limit (reverse (filter_by (λ t. t.user_id == user_id) s.txs))

abbrev pub blocked_destination : Error
blocked_destination = forbidden "Destination address is blocked"

module _ (c : Custodian) (node : Node) (max_staleness now : ℕ) where
  -- `screenAddress`, and the refusal of an address that it blocks.
  abbrev pub is_blocked_at : Text → Ledger → Bool
  is_blocked_at to s = (screen_address max_staleness now to s.lists).blocked

  unfoldable pub gas_for : Option ℕ → Text → Result ℕ
  gas_for none to = elim (node.estimate_gas to) [ ok g ↦ ok (g + 21000) | err e ↦ err e ]
  gas_for (some g) to =
      if g == 0 then elim (node.estimate_gas to) [ ok h ↦ ok (h + 21000) | err e ↦ err e ] else ok g

  -- The intent, as it is first saved.
  abbrev pub intent : Wallet → ℕ → Text → ℕ → Ledger → Transaction
  intent wallet user_id to value s = record {
    id = s.store.next_id;
    user_id = user_id;
    wallet_id = wallet.id;
    request_id = s.store.drawn;
    chain = wallet.chain;
    tx_hash = none;
    from_address = wallet.address;
    to_address = to;
    amount = wei value;
    status = pending;
    gas_limit = none;
    confirmed_at = none;
  }

  -- The request, as `createSigningRequest` saves it.
  abbrev requested : Wallet → ℕ → Text → Wei → ℕ → Ledger → Transaction
  requested wallet user_id to value gas s = record (intent wallet user_id to 0 s) {
    amount = value;
    gas_limit = some gas;
  }

  pub create_signing_request : ℕ → ℕ → Text → Text → Option ℕ → Exec Ledger Transaction
  unfolding gas_for get_wallet_by_id
  create_signing_request user_id wallet_id to amount gas_limit = do
    wallet ← on_store (get_wallet_by_id wallet_id)
    refuse (not (wallet.user_id == user_id)) (bad_request "Wallet does not belong to this user")
    gas ← lift (gas_for gas_limit to)
    value ← lift (or_err (node.parse_ether amount) (bad_request "invalid FixedNumber string value"))
    tx ← gets (requested wallet user_id to value gas)
    modify (insert_tx tx)
    pure tx

  -- The screening in `confirmTransaction`, whose `catch` only logs.
  unfoldable pub screen_decoded : Transaction → Option Text → Exec Ledger (Unit {0})
  screen_decoded tx none = pure tt
  screen_decoded tx (some to) = do
    blocked ← gets (is_blocked_at to)
    if blocked
        then (do modify (save_tx (record tx { status = failed })); raise blocked_destination)
        else pure tt

  unfoldable pub broadcast_signed : Transaction → Text → Exec Ledger (ℕ × Text × TxStatus)
  broadcast_signed tx signed_tx = do
    modify (hand_over (signed signed_tx))
    tx_hash ← lift (node.broadcast signed_tx)
    modify (save_tx (record tx { tx_hash = some tx_hash; status = pending }))
    pure (tx.id, tx_hash, pending)

  unfoldable pub confirm_transaction : ℕ → ℕ → Text → Exec Ledger (ℕ × Text × TxStatus)
  confirm_transaction user_id tx_id signed_tx = do
    tx ← get_tx_by_id tx_id
    refuse (not (tx.user_id == user_id)) (bad_request "Transaction does not belong to this user")
    decoded ← lift (node.decode signed_tx)
    screen_decoded tx decoded
    broadcast_signed tx signed_tx

  -- The `try` around the send, and its `catch`.
  unfoldable pub sent_as : Transaction → Result Text → Exec Ledger (ℕ × Text × TxStatus)
  sent_as tx (ok hash) = do
    modify (save_tx (record tx { tx_hash = some hash }))
    pure (tx.id, hash, pending)
  sent_as tx (err e) = do
    modify (save_tx (record tx { status = failed }))
    raise (bad_request "Failed to send transaction")

  -- From the saved intent on.
  unfoldable pub send_value : Wallet → Signer → ℕ → Text → ℕ → Exec Ledger (ℕ × Text × TxStatus)
  send_value wallet signer user_id to value = do
    tx ← gets (intent wallet user_id to value)
    modify (insert_tx tx)
    modify (hand_over (transfer signer to value))
    sent_as tx (node.send signer to value)

  unfoldable pub send_transaction : ℕ → ℕ → Text → Text → Exec Ledger (ℕ × Text × TxStatus)
  send_transaction user_id wallet_id to amount = do
    wallet ← on_store (get_wallet_by_id wallet_id)
    refuse (not (wallet.user_id == user_id)) (forbidden "Wallet does not belong to this user")
    refuse (not (node.is_address to)) (bad_request "Invalid destination address")
    value ← lift (positive (node.parse_ether amount))
    blocked ← gets (is_blocked_at to)
    refuse blocked blocked_destination
    signer ← on_store (get_evm_signer c wallet_id user_id)
    send_value wallet signer user_id to value

  -- `updateTransactionStatus`, which swallows the errors of the node.
  unfoldable pub apply_receipt : Text → Result (Option Bool) → Ledger → Ledger
  apply_receipt hash (err e) s = s
  apply_receipt hash (ok none) s = s
  apply_receipt hash (ok (some success)) s = record s {
    txs =
        update_by (λ t. elim t.tx_hash [ none ↦ false | some h ↦ text_eq h hash ])
          (λ t. record t {
            status = if success then confirmed else failed;
            gas_limit = none;
            confirmed_at = some now;
          })
          s.txs;
  }

  unfoldable pub update_transaction_status : Text → Ledger → Ledger
  update_transaction_status hash s = apply_receipt hash (node.receipt hash) s
