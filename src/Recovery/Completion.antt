-- ===== src/Recovery/Completion.antt =====
-- The completion of recovery.service.ts: `complete` and `sweep`.
pub mod Atomic
pub mod Moves
pub mod Loop
use open_privy.Base.{
  ℕ, suc, ◌+◌, Text, text_eq, length, Bool, true, false, not, ◌&&◌, ◌||◌, List, [], ◌∷◌, ◌++◌, map,
  Option, none, some, Error, failure, Result, ok, err, or_err, ltb, leb, ◌==◌, if◌then◌else◌, Exec,
  pure, raise, lift, gets, modify, filter_by, find_by, update_by, count_by,
}
use open_privy.Base.Actions.{◌>>=◌, ◌>>◌}
use open_privy.Wallet.{Wallet}
use open_privy.Store.{
  World, User, Guardian, GuardianStatus, removed, RecoveryRequest, RecoveryStatus,
  awaiting_approvals, time_locked, completing, completed, expired, RecoveryApproval, save_request,
  save_wallet, audit, transaction,
}
use open_privy.Recovery.{Env, is_awaiting, is_time_locked}
use open_privy.Recovery.Guardians.{is_current_of}
use open_privy.Recovery.Requests.{close}
use open_privy.Recovery.Keys.{moved_wallet}

abbrev pub is_completing : RecoveryStatus → Bool
is_completing completing = true
is_completing _ = false

-- `"unlocksAt" <= now()`.
abbrev pub is_due : ℕ → Option ℕ → Bool
is_due now none = false
is_due now (some t) = leb t now

-- The row that the claim's `where` clause names.
unfoldable pub is_claimable : ℕ → ℕ → RecoveryRequest → Bool
is_claimable now id q = q.id == id && is_time_locked q.status && is_due now q.unlocks_at

abbrev pub set_status : RecoveryStatus → RecoveryRequest → RecoveryRequest
set_status status q = record q { status = status }

abbrev pub lock_user : ℕ → User → User
lock_user now u = record u { locked_at = some now; sessions_valid_after = some now }

abbrev pub dismiss : Guardian → Guardian
dismiss g = record g { status = removed; invite_token_hash = none }

-- The status claim: the requests after it, and the rows that it affected.
unfoldable pub claim : ℕ → ℕ → Exec World ℕ
claim now id s = (
  ok (count_by (is_claimable now id) s.requests),
  record s {
    db = record s.db {
      requests = update_by (is_claimable now id) (set_status completing) s.requests;
    };
  },
)

-- The hand-over of a request that could not complete.
unfoldable pub hand_back : ℕ → World → World
hand_back id s = record s {
  db = record s.db {
    requests =
        update_by (λ q. q.id == id && is_completing q.status) (set_status time_locked) s.requests;
  };
}

module _ (env : Env) where
  -- The loop over the old account's wallets. Each round has its own draw for the iv.
  unfoldable pub move_wallets : RecoveryRequest → List Wallet → Exec World (Unit {0})
  move_wallets request [] = pure tt
  move_wallets request (w ∷ ws) = do
    iv ← gets (λ s. env.random s.drawn)
    moved ← lift (moved_wallet env request iv w)
    modify (λ s. save_wallet moved (record s { drawn = s.drawn + 1 }))
    move_wallets request ws

  -- What the transaction writes after the wallets.
  unfoldable pub settle : ℕ → RecoveryRequest → List Wallet → Exec World ℕ
  settle now request wallets = do
    modify (λ s. record s {
      db = record s.db {
        users = update_by (λ u. u.id == request.old_user_id) (lock_user now) s.users;
        guardians = update_by (is_current_of request.old_user_id) dismiss s.guardians;
      };
    })
    modify (
        save_request (record request {
          status = completed;
          closed_at = some now;
          closed_reason = some "Recovered wallet(s)";
        }))
    audit request.new_user_id "RECOVERY_COMPLETED"
        (request.id ∷ request.old_user_id ∷ map (λ w. w.id) wallets)
    audit request.old_user_id "ACCOUNT_LOCKED_AFTER_RECOVERY"
        (request.id ∷ request.new_user_id ∷ [])
    pure (length wallets)

  -- The body of the transaction.
  unfoldable pub carry_out : ℕ → ℕ → Exec World ℕ
  carry_out now id = do
    found ← gets (λ s. find_by (λ q. q.id == id) s.requests)
    request ← lift (or_err found (failure "EntityNotFoundError"))
    wallets ← gets (λ s. filter_by (λ w. w.user_id == request.old_user_id) s.wallets)
    move_wallets request wallets
    settle now request wallets

  -- The `catch`.
  unfoldable pub recover : ℕ → Result ℕ × World → Result Bool × World
  recover id (ok moved, s) = (ok true, s)
  recover id (err e, s) = (ok false, hand_back id s)

  unfoldable pub complete : ℕ → ℕ → Exec World Bool
  complete now id = do
    affected ← claim now id
    if not (affected == 1) then pure false else (λ s. recover id (transaction (carry_out now id) s))

  -- The loops of `sweep`.
  unfoldable pub expire_all : ℕ → List RecoveryRequest → Exec World (Unit {0})
  expire_all now [] = pure tt
  expire_all now (q ∷ qs) = do
    transaction (close now q expired "Guardians did not respond in time")
    expire_all now qs

  unfoldable pub complete_all : ℕ → List RecoveryRequest → ℕ → Exec World ℕ
  complete_all now [] done = pure done
  complete_all now (q ∷ qs) done = do
    finished ← complete now q.id
    complete_all now qs (if finished then suc done else done)

  unfoldable pub sweep : ℕ → Exec World ℕ
  sweep now = do
    stale ←
        gets
          (λ s. filter_by (λ q. is_awaiting q.status && leb q.approvals_expire_at now) s.requests)
    expire_all now stale
    due ← gets (λ s. filter_by (λ q. is_time_locked q.status && is_due now q.unlocks_at) s.requests)
    complete_all now due 0
