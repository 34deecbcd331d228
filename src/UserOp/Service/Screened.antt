-- ===== src/UserOp/Service/Screened.antt =====
-- What `sendUserOp` of userop.service.ts gives to the bundler, and when.
use open_privy.Base.{
  ℕ, Text, false, List, [], ◌∷◌, ◌++◌, Error, Result, ok, err, ◌≡◌, refl, All, Bool-cases, inl, inr,
  ◌⊎◌,
}
use open_privy.Transactions.Sending.{Result-cases}
use open_privy.UserOp.{PackedUserOp, RpcUserOp, to_rpc_user_op}
use open_privy.UserOp.Calls.{Call, calls_of, extract_destinations}
use open_privy.UserOp.Calls.Covers.{Covers, extract_destinations-Covers}
use open_privy.UserOp.Service.{
  Remote, UserOpTx, Desk, blocked_call, submit, is_blocked, screen_all, or_bad_request,
  assert_not_sanctioned, is_unsigned, record_sent, send_user_op,
}

module _ (r : Remote) (max_staleness now : ℕ) where
  -- The address passes the screening.
  abbrev pub IsClear : Desk → Text → Type 0
  IsClear s dest = is_blocked r max_staleness now dest s ≡ false

  screen_all-cases :
      (out : List Text) (s : Desk)
      → ((e : Error) × (screen_all r max_staleness now out s ≡ (err e, s)))
        ⊎ ((screen_all r max_staleness now out s ≡ (ok tt, s)) × All (IsClear s) out)
  unfolding screen_all
  screen_all-cases [] s = inr (refl, tt)
  screen_all-cases (dest ∷ rest) s = elim (Bool-cases (is_blocked r max_staleness now dest s)) [
    | inl shut ↦ inl (blocked_call, rw shut refl)
    | inr clear ↦ rw clear (elim (screen_all-cases rest s) [
      | inl (e, fails) ↦ inl (e, fails)
      | inr (passes, all) ↦ inr (passes, (refl, all))
    ])
  ]

module _ (r : Remote) (max_staleness now : ℕ) (op : PackedUserOp) (user_id : ℕ) (s : Desk) where
  -- The row of an operation that the bundler took.
  abbrev row : Text → Text → UserOpTx
  row to user_op_hash = record {
    id = s.next_id;
    user_id = user_id;
    from_address = op.sender;
    to_address = to;
    user_op_hash = user_op_hash;
  }

  -- What the bundler's answer leaves: a row for the first destination, or none and an exception.
  abbrev pub Recorded : List Text → Result Text → Result Text × Desk → Type 0
  Recorded [] answer a = ((e : Error) × (a.0 ≡ err e)) × (a.1.txs ≡ s.txs)
  Recorded (to ∷ rest) (err x) a = ((e : Error) × (a.0 ≡ err e)) × (a.1.txs ≡ s.txs)
  Recorded (to ∷ rest) (ok user_op_hash) a =
      (a.0 ≡ ok user_op_hash) × (a.1.txs ≡ s.txs ++ row to user_op_hash ∷ [])

  submit-Recorded :
      (out : List Text) (rpc : RpcUserOp)
      → extract_destinations r.ethers r.interfaces op.call_data ≡ ok out
      → ((submit r max_staleness now op user_id rpc s).1.sent ≡ s.sent ++ rpc ∷ [])
        × Recorded out (r.bundler rpc) (submit r max_staleness now op user_id rpc s)
  unfolding submit record_sent
  submit-Recorded [] rpc found = elim (Result-cases (r.bundler rpc)) [
    | inr (e, fails) ↦ rw fails (refl, ((_, refl), refl))
    | inl (hash, taken) ↦ rw taken (rw found (refl, ((_, refl), refl)))
  ]
  submit-Recorded (to ∷ rest) rpc found = elim (Result-cases (r.bundler rpc)) [
    | inr (e, fails) ↦ rw fails (refl, ((_, refl), refl))
    | inl (hash, taken) ↦ rw taken (rw found (refl, (refl, refl)))
  ]

  -- What an operation that reached the bundler has established.
  pub record Submitted (a : Result Text × Desk) : Type 0 where
    pub signed : is_unsigned r max_staleness now op.signature ≡ false
    pub calls : List Call
    pub out : List Text
    pub read : calls_of r.ethers r.interfaces op.call_data ≡ ok calls
    pub covered : All (Covers r.ethers r.interfaces out) calls
    pub clear : All (IsClear r max_staleness now s) out
    pub rpc : RpcUserOp
    pub format : to_rpc_user_op r.ethers op ≡ ok rpc
    pub sent : a.1.sent ≡ s.sent ++ rpc ∷ []
    pub recorded : Recorded out (r.bundler rpc) a

  abbrev pub Ends : Result Text × Desk → Type 0
  Ends a = (((e : Error) × (a.0 ≡ err e)) × (a.1 ≡ s)) ⊎ Submitted a

  -- Either sendUserOp throws and nothing changes; or the operation is signed, its calls can be read, every call's
  -- target and whom its ERC-20 call sends to or authorizes are in a list of addresses that all pass the
  -- screening at that time, and the bundler is given exactly one operation, this one. Then a row with
  -- the first of those addresses is recorded where the bundler takes it; where it refuses, or there
  -- is no call, there is an exception and no row.
  pub send_user_op-Ends : Ends (send_user_op r max_staleness now op user_id s)
  unfolding send_user_op assert_not_sanctioned or_bad_request
  send_user_op-Ends = elim (Bool-cases (is_unsigned r max_staleness now op.signature)) [
    | inl unsigned ↦ rw unsigned (inl ((_, refl), refl))
    | inr signed ↦
        rw signed (elim (Result-cases (extract_destinations r.ethers r.interfaces op.call_data)) [
          | inr (e, fails) ↦ rw fails (inl ((_, refl), refl))
          | inl (out, found) ↦ rw found (elim (screen_all-cases r max_staleness now out s) [
            | inl (e, fails) ↦ rw fails (inl ((_, refl), refl))
            | inr (passes, clear) ↦ rw passes (elim (Result-cases (to_rpc_user_op r.ethers op)) [
              | inr (e, fails) ↦ rw fails (inl ((_, refl), refl))
              | inl (rpc, format) ↦ rw format (
                  inr (record {
                    signed = signed;
                    calls =
                        (extract_destinations-Covers r.ethers r.interfaces op.call_data out
                          found).0;
                    out = out;
                    read =
                        (extract_destinations-Covers r.ethers r.interfaces op.call_data out
                          found).1;
                    covered =
                        (extract_destinations-Covers r.ethers r.interfaces op.call_data out
                          found).2;
                    clear = clear;
                    rpc = rpc;
                    format = format;
                    sent = (submit-Recorded out rpc found).0;
                    recorded = (submit-Recorded out rpc found).1;
                  }))
            ])
          ])
        ])
  ]
