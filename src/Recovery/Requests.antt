-- ===== src/Recovery/Requests.antt =====
-- The request phase of recovery.service.ts: `startRequest`, the closing of a request, and the ways in
-- which the owner of the old account cancels it.
pub mod Answer
pub mod SignIn
use open_privy.Base.{
  ℕ, ◌+◌, ◌-◌, String, Text, text_eq, to_lower, trim, length, Bool, true, false, not, ◌&&◌, ◌||◌,
  List, [], ◌∷◌, ◌++◌, map, Option, none, some, bad_request, not_found, Error, Result, ok, err,
  or_err, ltb, leb, ◌==◌, if◌then◌else◌, Exec, pure, lift, gets, modify, refuse, filter_by, find_by,
  any_by, update_by,
}
use open_privy.Base.Actions.{◌>>=◌, ◌>>◌}
use open_privy.Store.{
  World, User, Guardian, RecoveryRequest, RecoveryStatus, awaiting_approvals, cancelled, declined,
  RecoveryApproval, undecided, approval_request, recovery_started, save_request, audit, find_user,
  transaction,
}
use open_privy.Recovery.{
  hash_token, Env, min_guardians, approval_window_ms, cooldown_ms, threshold_for, valid_token_shape,
  hash_is, is_open, is_cancellable, new_token, notify,
}
use open_privy.Recovery.Guardians.{is_active_of}

abbrev pub is_closed_early : RecoveryStatus → Bool
is_closed_early cancelled = true
is_closed_early declined = true
is_closed_early _ = false

-- `closedAt > now - COOLDOWN_MS`.
abbrev pub is_recent : ℕ → Option ℕ → Bool
is_recent now none = false
is_recent now (some t) = ltb now (t + cooldown_ms)

-- The answer of `startRequest`, the same whatever was found.
abbrev pub generic : String
generic =
    "If that account has recovery set up, its guardians have been asked to confirm. You can follow progress here."

-- `!oldUser || oldUser.id === newUserId || oldUser.lockedAt`, and the user otherwise.
unfoldable pub eligible : ℕ → Option User → Option User
eligible new_user_id none = none
eligible new_user_id (some u) =
    if u.id == new_user_id then none else elim u.locked_at [ some _ ↦ none | none ↦ some u ]

unfoldable pub is_blocked : ℕ → ℕ → List Guardian → World → Bool
is_blocked now old_user_id active s =
    ltb (length active) min_guardians
    || any_by (λ q. q.old_user_id == old_user_id && is_open q.status) s.requests
    || any_by
        (λ q. q.old_user_id == old_user_id && is_closed_early q.status && is_recent now q.closed_at)
        s.requests

-- The guardians that may vote: not the requester.
unfoldable pub voters_of : Text → List Guardian → List Guardian
voters_of new_email active = filter_by (λ g. not (text_eq g.email (to_lower new_email))) active

unfoldable pub insert_request : RecoveryRequest → Exec World RecoveryRequest
insert_request q s = (
  ok q,
  record s { db = record s.db { requests = s.requests ++ q ∷ [] }; next_id = s.next_id + 1 },
)

unfoldable pub insert_approval : RecoveryApproval → Exec World (Unit {0})
insert_approval a s = (
  ok tt,
  record s { db = record s.db { approvals = s.approvals ++ a ∷ [] }; next_id = s.next_id + 1 },
)

-- `close`: the request with its new status, and its tokens gone.
unfoldable pub close : ℕ → RecoveryRequest → RecoveryStatus → String → Exec World (Unit {0})
close now request status reason s =
    let q = record request { status = status; closed_at = some now; closed_reason = some reason } in
    let s' = save_request q s in
    (
      ok tt,
      record s' {
        db = record s'.db {
          approvals =
              update_by (λ a. a.request_id == request.id) (λ a. record a { token_hash = none })
                s'.approvals;
        };
      },
    )

module _ (env : Env) (now : ℕ) where
  -- The loop over the voters in the transaction, with the tokens to send.
  unfoldable pub insert_approvals : ℕ → List Guardian → Exec World (List (Guardian × Text))
  insert_approvals request_id [] = pure []
  insert_approvals request_id (g ∷ gs) = do
    token ← new_token env
    id ← gets (λ s. s.next_id)
    insert_approval (record {
      id = id;
      request_id = request_id;
      guardian_id = g.id;
      token_hash = some (hash_token env token);
      decision = undecided;
      decided_at = none;
    })
    rest ← insert_approvals request_id gs
    pure ((g, token) ∷ rest)

  unfoldable pub send_all : List (Guardian × Text) → Exec World (Unit {0})
  send_all [] = pure tt
  send_all ((g, token) ∷ rest) = do notify env (approval_request g.email token); send_all rest

  -- The transaction that creates the request and its approvals.
  unfoldable pub create_request :
      ℕ → ℕ → ℕ → Text → List Guardian → Exec World (RecoveryRequest × List (Guardian × Text))
  create_request old_user_id new_user_id threshold cancel voters = do
    id ← gets (λ s. s.next_id)
    req ← insert_request (record {
      id = id;
      old_user_id = old_user_id;
      new_user_id = new_user_id;
      status = awaiting_approvals;
      threshold = threshold;
      cancel_token_hash = hash_token env cancel;
      approvals_expire_at = now + approval_window_ms;
      unlocks_at = none;
      closed_at = none;
      closed_reason = none;
    })
    tokens ← insert_approvals id voters
    pure (req, tokens)

  -- What follows once the account can be recovered.
  unfoldable pub open_request : User → User → List Guardian → Exec World String
  open_request new_user old_user active = do
    let voters = voters_of new_user.email active
    let threshold = threshold_for (length active)
    if ltb (length voters) threshold
        then (do audit new_user.id "RECOVERY_REQUEST_IGNORED" (old_user.id ∷ []); pure generic)
        else (do
          cancel ← new_token env
          made ← transaction (create_request old_user.id new_user.id threshold cancel voters)
          send_all made.1
          notify env (recovery_started old_user.email cancel)
          audit new_user.id "RECOVERY_REQUESTED" (made.0.id ∷ old_user.id ∷ threshold ∷ [])
          audit old_user.id "RECOVERY_REQUESTED_AGAINST" (made.0.id ∷ new_user.id ∷ [])
          pure generic)

  unfoldable pub try_open : User → Option User → Exec World String
  try_open new_user none = do audit new_user.id "RECOVERY_REQUEST_IGNORED" []; pure generic
  try_open new_user (some old_user) = do
    active ← gets (λ s. filter_by (is_active_of old_user.id) s.guardians)
    blocked ← gets (is_blocked now old_user.id active)
    if blocked
        then (do audit new_user.id "RECOVERY_REQUEST_IGNORED" (old_user.id ∷ []); pure generic)
        else open_request new_user old_user active

  unfoldable pub start_request : ℕ → Text → Exec World String
  start_request new_user_id raw_old_email = do
    let old_email = to_lower (trim raw_old_email)
    new_user ← find_user new_user_id
    busy ← gets (λ s. any_by (λ q. q.new_user_id == new_user_id && is_open q.status) s.requests)
    refuse busy (bad_request "You already have a recovery in progress.")
    owns ← gets (λ s. any_by (λ w. w.user_id == new_user_id) s.wallets)
    refuse owns (bad_request "Recover into a new account that has no wallets yet.")
    found ← gets (λ s. find_by (λ u. text_eq (to_lower u.email) old_email) s.users)
    try_open new_user (eligible new_user_id found)

  abbrev pub invalid_cancel : Error
  invalid_cancel = not_found "This link is invalid or the request is already closed."

  unfoldable pub cancel_by_token : Option Text → Exec World Bool
  cancel_by_token token = do
    text ← lift (or_err (valid_token_shape token) invalid_cancel)
    found ← gets (λ s.
        find_by (λ q. text_eq q.cancel_token_hash (hash_token env text) && is_cancellable q.status)
          s.requests)
    request ← lift (or_err found invalid_cancel)
    transaction (close now request cancelled "Cancelled by the account owner")
    audit request.old_user_id "RECOVERY_CANCELLED" (request.id ∷ [])
    pure true

-- The loop of `cancelForSignIn`.
unfoldable pub cancel_all : ℕ → ℕ → List RecoveryRequest → Exec World (Unit {0})
cancel_all now old_user_id [] = pure tt
cancel_all now old_user_id (request ∷ rest) = do
  transaction (close now request cancelled "The account owner signed in")
  audit old_user_id "RECOVERY_CANCELLED" (request.id ∷ [])
  cancel_all now old_user_id rest

unfoldable pub cancel_for_sign_in : ℕ → ℕ → Exec World (Unit {0})
cancel_for_sign_in now old_user_id = do
  open_requests ←
      gets
        (λ s. filter_by (λ q. q.old_user_id == old_user_id && is_cancellable q.status) s.requests)
  cancel_all now old_user_id open_requests
