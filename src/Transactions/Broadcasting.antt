-- ===== src/Transactions/Broadcasting.antt =====
-- What the broadcast of a client's transaction (transaction.service.ts) hands to the node.
use open_privy.Base.{
  ℕ, Text, true, false, [], ◌∷◌, ◌++◌, Option, none, some, Error, Result, ok, err, ◌≡◌, refl, arith,
  ◌==◌, find_by, update_by, Option-cases, Bool-cases, inl, inr, ◌⊎◌,
}
use open_privy.Custody.{Custodian}
use open_privy.Transactions.{
  TxStatus, failed, Transaction, signed, Ledger, Node, is_blocked_at, blocked_destination,
  get_tx_by_id, screen_decoded, broadcast_signed, confirm_transaction,
}
use open_privy.Transactions.Sending.{Result-cases}

module _ (c : Custodian) (node : Node) (max_staleness now user_id tx_id : ℕ) (text : Text)
    (s : Ledger) where
  -- No destination, or one that is not blocked.
  abbrev pub IsScreened : Option Text → Type 0
  IsScreened none = Unit {0}
  IsScreened (some to) = is_blocked_at c node max_staleness now to s ≡ false

  pub record Confirmed (s' : Ledger) : Type 0 where
    pub tx : Transaction
    pub found : find_by (λ t. t.id == tx_id) s.txs ≡ some tx
    pub owner : tx.user_id ≡ user_id
    pub destination : Option Text
    pub decoded : node.decode text ≡ ok destination
    pub screened : IsScreened destination
    pub sent : s'.sent ≡ s.sent ++ signed text ∷ []

  abbrev pub Ends : Result (ℕ × Text × TxStatus) × Ledger → Type 0
  Ends r = (((e : Error) × (r.0 ≡ err e)) × (r.1.sent ≡ s.sent)) ⊎ Confirmed r.1

  screen_decoded-cases :
      (tx : Transaction) (d : Option Text)
      → ((screen_decoded c node max_staleness now tx d s ≡ (ok tt, s)) × IsScreened d)
        ⊎ (screen_decoded c node max_staleness now tx d s ≡ (
          err blocked_destination,
          record s {
            txs = update_by (λ r. r.id == tx.id) (λ _. record tx { status = failed }) s.txs;
          },
        ))
  unfolding screen_decoded
  screen_decoded-cases tx none = inl (refl, tt)
  screen_decoded-cases tx (some to) =
      elim (Bool-cases (is_blocked_at c node max_staleness now to s)) [
        | inl shut ↦ inr (rw shut refl)
        | inr clear ↦ inl (rw clear refl, clear)
      ]

  broadcast_signed-Ends :
      (tx : Transaction) (d : Option Text)
      → find_by (λ t. t.id == tx_id) s.txs ≡ some tx
      → (tx.user_id == user_id) ≡ true
      → node.decode text ≡ ok d
      → IsScreened d
      → Ends (broadcast_signed c node max_staleness now tx text s)
  unfolding broadcast_signed
  broadcast_signed-Ends tx d found mine decoded screened =
      elim (Result-cases (node.broadcast text)) [
        | inr (e, fails) ↦ rw fails (inr (given refl))
        | inl (hash, done) ↦ rw done (inr (given refl))
      ]
    where
      given : {s' : Ledger} → s'.sent ≡ s.sent ++ signed text ∷ [] → Confirmed s'
      given h = record {
        tx = tx;
        found = found;
        owner = ground arith;
        destination = d;
        decoded = decoded;
        screened = screened;
        sent = h;
      }

  -- The node is given a client's transaction only if the record is the user's, the transaction can be
  -- decoded and its destination, if it has one, is not blocked; otherwise the call throws and nothing
  -- is handed over.
  pub confirm_transaction-Ends :
      Ends (confirm_transaction c node max_staleness now user_id tx_id text s)
  unfolding confirm_transaction get_tx_by_id
  confirm_transaction-Ends = elim (Option-cases (find_by (λ t. t.id == tx_id) s.txs)) [
    | inl missing ↦ rw missing (inl ((_, refl), refl))
    | inr (tx, found) ↦ rw found (elim (Bool-cases (tx.user_id == user_id)) [
      | inr other ↦ rw other (inl ((_, refl), refl))
      | inl mine ↦ rw mine (elim (Result-cases (node.decode text)) [
        | inr (e, fails) ↦ rw fails (inl ((_, refl), refl))
        | inl (d, decoded) ↦ rw decoded (elim (screen_decoded-cases tx d) [
          | inr shut ↦ rw shut (inl ((_, refl), refl))
          | inl (clear, screened) ↦
              rw clear (broadcast_signed-Ends tx d found mine decoded screened)
        ])
      ])
    ])
  ]
