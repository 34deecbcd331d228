-- ===== src/Transactions/Tests.antt =====
-- Tests of the transactions: a send from the sample account's wallet, and a broadcast.
use open_privy.Base.{codes, [], ◌∷◌, true, none, some, ok}
use open_privy.Sanctions.{ComplianceSyncState, synced, ofac_sdn}
use open_privy.Recovery.Samples.{world, awaiting}
use open_privy.Custody.Samples.{custodian}
use open_privy.Transactions.{
  Ledger, Node, Wei, wei, TxStatus, pending, Transaction, send_transaction, confirm_transaction,
}
use open_privy.Transactions
use open_privy.Transactions.Sending.{send_transaction-Ends}
use open_privy.Transactions.Broadcasting.{confirm_transaction-Ends}

abbrev node : Node
node = record {
  is_address = λ a. true;
  parse_ether = λ t. some (wei 5);
  estimate_gas = λ t. ok 1;
  send = λ signer to value. ok (codes "hash");
  broadcast = λ t. ok (codes "hash");
  decode = λ t. ok none;
  receipt = λ h. ok none;
}

abbrev request : Transaction
request = record {
  id = 3;
  user_id = 1;
  wallet_id = 4;
  request_id = 0;
  chain = codes "ethereum";
  tx_hash = none;
  from_address = codes "k";
  to_address = codes "t";
  amount = wei 5;
  status = pending;
  gas_limit = some 21001;
  confirmed_at = none;
}

abbrev synced_at_ten : ComplianceSyncState
synced_at_ten = record {
  source = ofac_sdn;
  last_synced_at = some 10;
  last_sync_status = synced;
  entry_count = 0;
  last_error = none;
}

abbrev ledger : Ledger
ledger = record {
  store = world awaiting;
  lists = record { addresses = []; states = synced_at_ten ∷ [] };
  txs = request ∷ [];
  sent = [];
}

send_transaction-Ends_example :
    Transactions.Sending.Ends custodian node 100 50 1 4
      (codes "t")
      (codes "1")
      ledger
      (send_transaction custodian node 100 50 1 4 (codes "t") (codes "1") ledger)
send_transaction-Ends_example =
    send_transaction-Ends custodian node 100 50 1 4 (codes "t") (codes "1") ledger

confirm_transaction-Ends_example :
    Transactions.Broadcasting.Ends custodian node 100 50 1 3
      (codes "raw")
      ledger
      (confirm_transaction custodian node 100 50 1 3 (codes "raw") ledger)
confirm_transaction-Ends_example =
    confirm_transaction-Ends custodian node 100 50 1 3 (codes "raw") ledger
