-- ===== src/Store.antt =====
-- The tables that the services share, from the TypeORM entities of services/backend/src: a table is
-- the list of its rows, a query a filter by its `where` clause, and `save` of a loaded row replaces
-- the row with its id. Ids are the uuids as numbers. Times are in milliseconds.
use open_privy.Base.{
  ℕ, String, Text, Bool, List, [], ◌∷◌, ◌++◌, Option, Result, ok, err, failure, Exec, ◌==◌,
  update_by, find_by, or_err,
}
use open_privy.Wallet.{Wallet}

pub record User : Type 0 where
  pub id : ℕ
  pub email : Text
  pub workos_user_id : Option Text
  pub username : Option Text
  pub email_verified : Bool
  pub locked_at : Option ℕ
  pub sessions_valid_after : Option ℕ

pub data GuardianStatus : Type 0 where
  pending active removed : GuardianStatus

pub record Guardian : Type 0 where
  pub id : ℕ
  pub owner_user_id : ℕ
  pub name : Text
  pub email : Text
  pub status : GuardianStatus
  pub invite_token_hash : Option Text
  pub invite_expires_at : Option ℕ
  pub confirmed_at : Option ℕ

pub data RecoveryStatus : Type 0 where
  awaiting_approvals time_locked completing completed cancelled declined expired : RecoveryStatus

pub record RecoveryRequest : Type 0 where
  pub id : ℕ
  pub old_user_id : ℕ
  pub new_user_id : ℕ
  pub status : RecoveryStatus
  pub threshold : ℕ
  pub cancel_token_hash : Text
  pub approvals_expire_at : ℕ
  pub unlocks_at : Option ℕ
  pub closed_at : Option ℕ
  pub closed_reason : Option String

pub data ApprovalDecision : Type 0 where
  undecided approved declined : ApprovalDecision

pub record RecoveryApproval : Type 0 where
  pub id : ℕ
  pub request_id : ℕ
  pub guardian_id : ℕ
  pub token_hash : Option Text
  pub decision : ApprovalDecision
  pub decided_at : Option ℕ

-- The metadata of an entry is the list of the ids and counts in it.
pub record AuditLog : Type 0 where
  pub user_id : ℕ
  pub event_type : String
  pub metadata : List ℕ

-- The emails of recovery.service.ts, one constructor for each template, with the recipient and the
-- token in the link.
pub data Mail : Type 0 where
  guardian_invite approval_request recovery_started : (to token : Text) → Mail
  wallet_will_move : (to : Text) (unlocks_at : ℕ) → Mail

pub record Db : Type 0 where
  pub users : List User
  pub wallets : List Wallet
  pub guardians : List Guardian
  pub requests : List RecoveryRequest
  pub approvals : List RecoveryApproval
  pub audits : List AuditLog

-- The database, the emails sent, and how many ids and random values have been drawn.
pub record World : Type 0 where
  pub db : Db
  pub open db use *
  pub outbox : List Mail
  pub drawn : ℕ
  pub next_id : ℕ

-- `dataSource.transaction`: an exception undoes the writes to the database, and nothing else.
abbrev pub rolled_back : {A : Type 0} → World → Result A × World → Result A × World
rolled_back s (ok a, s') = (ok a, s')
rolled_back s (err e, s') = (err e, record s' { db = s.db })

abbrev pub transaction : {A : Type 0} → Exec World A → Exec World A
transaction m s = rolled_back s (m s)

abbrev pub save_guardian : Guardian → World → World
save_guardian g s = record s {
  db = record s.db { guardians = update_by (λ r. r.id == g.id) (λ _. g) s.guardians };
}

abbrev pub save_request : RecoveryRequest → World → World
save_request q s = record s {
  db = record s.db { requests = update_by (λ r. r.id == q.id) (λ _. q) s.requests };
}

abbrev pub save_approval : RecoveryApproval → World → World
save_approval a s = record s {
  db = record s.db { approvals = update_by (λ r. r.id == a.id) (λ _. a) s.approvals };
}

abbrev pub save_wallet : Wallet → World → World
save_wallet w s = record s {
  db = record s.db { wallets = update_by (λ r. r.id == w.id) (λ _. w) s.wallets };
}

abbrev pub audit : ℕ → String → List ℕ → Exec World (Unit {0})
audit user_id event metadata s = (
  ok tt,
  record s {
    db = record s.db {
      audits =
          s.audits ++ record { user_id = user_id; event_type = event; metadata = metadata } ∷ [];
    };
  },
)

-- `findOneByOrFail` on the users.
abbrev pub find_user : ℕ → Exec World User
find_user id s = (or_err (find_by (λ u. u.id == id) s.users) (failure "EntityNotFoundError"), s)
