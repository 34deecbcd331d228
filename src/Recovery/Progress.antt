-- ===== src/Recovery/Progress.antt =====
-- `currentRequest` of recovery.service.ts: the requester's view of the latest request.
use open_privy.Base.{
  ℕ, String, ◌&&◌, List, Option, none, some, failure, or_err, ◌==◌, if◌then◌else◌, Exec, pure, lift,
  gets, find_by,
}
use mathlib.Core.List.{reverse}
use open_privy.Base.Actions.{◌>>=◌}
use open_privy.Store.{World, RecoveryRequest, RecoveryStatus}
use open_privy.Recovery.{Env, is_time_locked}
use open_privy.Recovery.Votes.{approvals_of}
use open_privy.Recovery.Completion.{is_due, complete}

-- The newest request of the requester: the last of the table's rows.
abbrev pub find_last : ℕ → List RecoveryRequest → Option RecoveryRequest
find_last user qs = find_by (λ q. q.new_user_id == user) (reverse qs)

pub record View : Type 0 where
  pub status : RecoveryStatus
  pub approvals : ℕ
  pub threshold : ℕ
  pub approvals_expire_at : ℕ
  pub unlocks_at : Option ℕ
  pub closed_reason : Option String

abbrev pub view_of : RecoveryRequest → World → View
view_of q s = record {
  status = q.status;
  approvals = approvals_of q.id s.approvals;
  threshold = q.threshold;
  approvals_expire_at = q.approvals_expire_at;
  unlocks_at = q.unlocks_at;
  closed_reason = q.closed_reason;
}

module _ (env : Env) where
  refreshed : ℕ → RecoveryRequest → Exec World RecoveryRequest
  unfolding complete
  refreshed now q =
      if is_time_locked q.status && is_due now q.unlocks_at
      then (do
        done ← complete env now q.id
        found ← gets (λ s. find_by (λ r. r.id == q.id) s.requests)
        lift (or_err found (failure "EntityNotFoundError")))
      else pure q

  describe : ℕ → Option RecoveryRequest → Exec World (Option View)
  unfolding refreshed
  describe now none = pure none
  describe now (some q) = do fresh ← refreshed now q; view ← gets (view_of fresh); pure (some view)

  -- `none` is `{ status: 'none' }`.
  unfoldable pub current_request : ℕ → ℕ → Exec World (Option View)
  unfolding describe
  current_request now new_user_id = do
    found ← gets (λ s. find_last new_user_id s.requests)
    describe now found
