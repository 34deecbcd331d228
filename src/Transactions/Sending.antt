-- ===== src/Transactions/Sending.antt =====
-- What a custodial send of transaction.service.ts hands to the node, and when.
use open_privy.Base.{
  ℕ, ◌<◌, Text, true, false, [], ◌∷◌, ◌++◌, Option, none, some, Error, Result, ok, err, ◌≡◌, refl,
  arith, ◌==◌, find_by, update_by, Option-cases, Bool-cases, inl, inr, ◌⊎◌,
}
use open_privy.Wallet.{Wallet}
use open_privy.Store.{World}
use open_privy.Custody.{Custodian, Signer, get_wallet_by_id, get_evm_signer}
use open_privy.Transactions.{
  TxStatus, failed, Transaction, transfer, Ledger, Wei, wei, minus, Node, positive, is_blocked_at,
  intent, sent_as, send_value, send_transaction,
}

-- The intent as the answer of the node leaves it.
abbrev pub answered : Transaction → Result Text → Transaction
answered tx (ok hash) = record tx { tx_hash = some hash }
answered tx (err e) = record tx { status = failed }

positive-ok : (w : Option Wei) (n : ℕ) → positive w ≡ ok n → (w ≡ some (wei n)) × (0 < n)
unfolding positive
positive-ok none n e = cc
positive-ok (some (minus m)) n e = cc
positive-ok (some (wei m)) n e = ground arith

pub Result-cases :
    {A : Type 0} (r : Result A) → ((a : A) × (r ≡ ok a)) ⊎ ((e : Error) × (r ≡ err e))
Result-cases (ok a) = inl (a, refl)
Result-cases (err e) = inr (e, refl)

module _ (c : Custodian) (node : Node) (max_staleness now user_id wallet_id : ℕ) (to amount : Text)
    (s : Ledger) where
  -- What a send that reached the node has established.
  pub record Authorized (s' : Ledger) : Type 0 where
    pub wallet : Wallet
    pub found : find_by (λ w. w.id == wallet_id) s.store.wallets ≡ some wallet
    pub owner : wallet.user_id ≡ user_id
    pub address : node.is_address to ≡ true
    pub value : ℕ
    pub parsed : node.parse_ether amount ≡ some (wei value)
    pub above_zero : 0 < value
    pub clear : is_blocked_at c node max_staleness now to s ≡ false
    pub signer : Signer
    pub signs : (get_evm_signer c wallet_id user_id s.store).0 ≡ ok signer
    pub sent : s'.sent ≡ s.sent ++ transfer signer to value ∷ []
    pub tx : Transaction
    pub describes :
        (tx.from_address ≡ wallet.address)
        × (tx.to_address ≡ to)
        × (tx.amount ≡ wei value)
        × (tx.user_id ≡ user_id)
    pub recorded :
        s'.txs
        ≡ update_by
            (λ r. r.id == tx.id)
            (λ _. answered tx (node.send signer to value))
            (s.txs ++ tx ∷ [])

  abbrev pub Ends : Result (ℕ × Text × TxStatus) × Ledger → Type 0
  Ends r =
      (((e : Error) × (r.0 ≡ err e)) × (r.1.sent ≡ s.sent) × (r.1.txs ≡ s.txs)) ⊎ Authorized r.1

  sent_as-recorded :
      (tx : Transaction) (r : Result Text) (t : Ledger)
      → ((sent_as c node max_staleness now tx r t).1.sent ≡ t.sent)
        × ((sent_as c node max_staleness now tx r t).1.txs
            ≡ update_by (λ q. q.id == tx.id) (λ _. answered tx r) t.txs)
  unfolding sent_as
  sent_as-recorded tx (ok hash) t = (refl, refl)
  sent_as-recorded tx (err e) t = (refl, refl)

  -- The last step, with every check passed.
  authorized :
      (w : Wallet) (n : ℕ) (signer : Signer)
      → find_by (λ w. w.id == wallet_id) s.store.wallets ≡ some w
      → (w.user_id == user_id) ≡ true
      → node.is_address to ≡ true
      → positive (node.parse_ether amount) ≡ ok n
      → is_blocked_at c node max_staleness now to s ≡ false
      → (get_evm_signer c wallet_id user_id s.store).0 ≡ ok signer
      → Authorized
          (send_value c node max_staleness now w signer user_id to n
            (record s { store = (get_evm_signer c wallet_id user_id s.store).1 })).1
  unfolding send_value
  authorized w n signer found mine good parsed clear signs =
      let store : World = (get_evm_signer c wallet_id user_id s.store).1 in
      let tx : Transaction =
        intent c node max_staleness now w user_id to n (record s { store = store }) in
      let (gone, kept) = sent_as-recorded tx (node.send signer to n) _ in
      record {
        wallet = w;
        found = found;
        owner = ground arith;
        address = good;
        value = n;
        parsed = (positive-ok _ n parsed).0;
        above_zero = (positive-ok _ n parsed).1;
        clear = clear;
        signer = signer;
        signs = signs;
        sent = gone;
        tx = tx;
        describes = (refl, refl, refl, refl);
        recorded = kept;
      }

  -- A send either throws, hands nothing to the node and records nothing; or the wallet is the user's,
  -- the address is one, the amount is above zero and the screening does not block the address, and
  -- then the node is given exactly one transfer, of that amount to that address by the wallet's
  -- signer, and exactly one transaction is recorded: with the hash, or as failed.
  pub send_transaction-Ends :
      Ends (send_transaction c node max_staleness now user_id wallet_id to amount s)
  unfolding send_transaction get_wallet_by_id
  send_transaction-Ends = elim (Option-cases (find_by (λ w. w.id == wallet_id) s.store.wallets)) [
    | inl missing ↦ rw missing (inl ((_, refl), refl, refl))
    | inr (w, found) ↦ rw found (elim (Bool-cases (w.user_id == user_id)) [
      | inr other ↦ rw other (inl ((_, refl), refl, refl))
      | inl mine ↦ rw mine (elim (Bool-cases (node.is_address to)) [
        | inr bad ↦ rw bad (inl ((_, refl), refl, refl))
        | inl good ↦ rw good (elim (Result-cases (positive (node.parse_ether amount))) [
          | inr (e, fails) ↦ rw fails (inl ((_, refl), refl, refl))
          | inl (n, parsed) ↦
              rw parsed (elim (Bool-cases (is_blocked_at c node max_staleness now to s)) [
                | inl shut ↦ rw shut (inl ((_, refl), refl, refl))
                | inr clear ↦
                    rw clear (elim (Result-cases (get_evm_signer c wallet_id user_id s.store).0) [
                      | inr (e, fails) ↦ rw fails (inl ((_, refl), refl, refl))
                      | inl (signer, signs) ↦
                          rw signs (inr (authorized w n signer found mine good parsed clear signs))
                    ])
              ])
        ])
      ])
    ])
  ]
