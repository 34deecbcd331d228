-- ===== src/Recovery/Votes.antt =====
-- The guardians' votes of recovery.service.ts: `findOpenApproval`, `describeApproval` and `decide`.
pub mod Inversion
pub mod Window
pub mod Tally
pub mod Once
use open_privy.Base.{
  ℕ, ◌+◌, ◌/◌, String, Text, Bool, true, false, not, ◌&&◌, ◌||◌, List, [], ◌∷◌, Option, none, some,
  bad_request, not_found, Error, Result, ok, err, or_err, ltb, leb, ◌==◌, if◌then◌else◌, Exec, pure,
  raise, lift, gets, modify, refuse, find_by, count_by,
}
use open_privy.Base.Actions.{◌>>=◌, ◌>>◌}
use open_privy.Store.{
  World, RecoveryRequest, RecoveryStatus, awaiting_approvals, time_locked, expired,
  RecoveryApproval, ApprovalDecision, undecided, approved, declined, wallet_will_move, save_request,
  save_approval, audit, find_user, transaction,
}
use open_privy.Store
use open_privy.Recovery.{
  hash_token, Env, hour, valid_token_shape, or_null, hash_is, is_awaiting, notify,
}
use open_privy.Recovery.Requests.{close}

abbrev pub is_undecided : ApprovalDecision → Bool
is_undecided undecided = true
is_undecided _ = false

abbrev pub is_approved : ApprovalDecision → Bool
is_approved approved = true
is_approved _ = false

abbrev pub invalid_link : Error
invalid_link = not_found "This link is invalid, already used, or the request is closed."

-- The body of `decide`: the two words that it takes, or anything else.
pub data Decision : Type 0 where
  approve decline other : Decision

abbrev pub is_decision : Decision → Bool
is_decision other = false
is_decision _ = true

pub data Outcome : Type 0 where
  was_declined : Outcome
  now_time_locked : (unlocks_at : ℕ) → Outcome
  still_awaiting : (approvals threshold : ℕ) → Outcome

unfoldable pub approvals_of : ℕ → List RecoveryApproval → ℕ
approvals_of request_id = count_by (λ a. a.request_id == request_id && is_approved a.decision)

module _ (env : Env) (now : ℕ) where
  -- The last check of `findOpenApproval`, which closes a request whose window has passed.
  unfoldable pub in_window :
      RecoveryApproval → RecoveryRequest → Exec World (RecoveryApproval × RecoveryRequest)
  in_window approval request =
      if ltb request.approvals_expire_at now
      then (do close now request expired "Guardians did not respond in time"; raise invalid_link)
      else pure (approval, request)

  unfoldable pub find_open_approval : Option Text → Exec World (RecoveryApproval × RecoveryRequest)
  find_open_approval token = do
    text ← lift (or_err (valid_token_shape token) invalid_link)
    voted ← gets (λ s.
        find_by (λ a. hash_is (hash_token env text) a.token_hash && is_undecided a.decision)
          s.approvals)
    approval ← lift (or_err voted invalid_link)
    about ← gets (λ s. find_by (λ q. q.id == approval.request_id) s.requests)
    request ← lift (or_err about invalid_link)
    refuse (not (is_awaiting request.status)) invalid_link
    in_window approval request

  -- The owner's name and address, the requester's address, and the hours of the time lock.
  unfoldable pub describe_approval : Option Text → Exec World (Option Text × Text × Text × ℕ)
  describe_approval token = do
    found ← find_open_approval token
    old_user ← find_user found.1.old_user_id
    new_user ← find_user found.1.new_user_id
    pure (or_null old_user.username, old_user.email, new_user.email, env.time_lock_ms / hour)

  unfoldable pub record_decline : RecoveryApproval → RecoveryRequest → Exec World Outcome
  record_decline approval request = do
    close now request Store.RecoveryStatus.declined "A guardian declined"
    audit request.old_user_id "RECOVERY_DECLINED" (request.id ∷ approval.guardian_id ∷ [])
    pure was_declined

  unfoldable pub record_approval : RecoveryApproval → RecoveryRequest → Exec World Outcome
  record_approval approval request = do
    count ← gets (λ s. approvals_of request.id s.approvals)
    audit request.old_user_id "RECOVERY_APPROVED_BY_GUARDIAN"
        (request.id ∷ approval.guardian_id ∷ count ∷ [])
    if leb request.threshold count
        then (do
          modify (
              save_request (record request {
                status = time_locked;
                unlocks_at = some (now + env.time_lock_ms);
              }))
          old_user ← find_user request.old_user_id
          notify env (wallet_will_move old_user.email (now + env.time_lock_ms))
          pure (now_time_locked (now + env.time_lock_ms)))
        else pure (still_awaiting count request.threshold)

  abbrev pub decision_of : Decision → ApprovalDecision
  decision_of approve = approved
  decision_of _ = declined

  unfoldable pub vote : Decision → RecoveryApproval → RecoveryRequest → Exec World Outcome
  vote approve approval request = record_approval approval request
  vote _ approval request = record_decline approval request

  -- The body of the transaction.
  unfoldable pub cast : Option Text → Decision → Exec World Outcome
  cast token decision = do
    found ← find_open_approval token
    let approval = record found.0 {
      decision = decision_of decision;
      decided_at = some now;
      token_hash = none;
    }
    modify (save_approval approval)
    vote decision approval found.1

  unfoldable pub decide : Option Text → Decision → Exec World Outcome
  decide token decision = do
    refuse (not (is_decision decision)) (bad_request "decision must be \"approve\" or \"decline\"")
    transaction (cast token decision)
