-- ===== src/Recovery/Votes/Tally.antt =====
-- The count of the votes in `decide` of recovery.service.ts, and the start of the time lock.
use open_privy.Base.{
  ℕ, ◌+◌, ◌≤◌, ◌<◌, Text, true, false, List, Option, none, some, Result, ok, err, ltb, ◌==◌, All,
  update_by, count_by, ◌&&◌, ◌≡◌, ◌∙◌, refl, sym, arith, Bool-cases, inl, inr, ◌⊎◌,
}
use open_privy.Store.{World, RecoveryRequest, RecoveryApproval, time_locked, rolled_back}
use open_privy.Recovery.{hash_token, Env, valid_token_shape, hash_is, notify}
use open_privy.Recovery.Requests.{close}
use open_privy.Recovery.Votes.{
  is_approved, Decision, approve, decline, other, Outcome, now_time_locked, decision_of,
  invalid_link, in_window, approvals_of, find_open_approval, record_approval, record_decline, vote,
  cast, decide,
}
use open_privy.Recovery.Votes.Inversion.{
  Names, ballot, find_open_approval-Names, find_open_approval-cases,
}

-- The approval as a vote leaves it.
abbrev pub voted_as : Env → ℕ → Decision → RecoveryApproval → RecoveryApproval
voted_as env now d a = record a {
  decision = decision_of env now d;
  decided_at = some now;
  token_hash = none;
}

abbrev pub with_vote : Env → ℕ → Decision → RecoveryApproval → World → List RecoveryApproval
with_vote env now d a s = update_by (λ r. r.id == a.id) (λ _. voted_as env now d a) s.approvals

abbrev pub locked_until : ℕ → RecoveryRequest → RecoveryRequest
locked_until t q = record q { status = time_locked; unlocks_at = some t }

module _ (env : Env) (now : ℕ) where
  -- The time lock starts only with enough approvals, and runs for the configured time.
  record_approval-now_time_locked :
      (a : RecoveryApproval) (q : RecoveryRequest) (s s' : World) (t : ℕ)
      → record_approval env now a q s ≡ (ok (now_time_locked t), s')
      → (q.threshold ≤ approvals_of q.id s.approvals)
        × (t ≡ now + env.time_lock_ms)
        × (s'.requests ≡ update_by (λ r. r.id == q.id) (λ _. locked_until t q) s.requests)
  unfolding record_approval notify
  record_approval-now_time_locked a q s s' t e = ground arith

  record_decline-ne :
      (a : RecoveryApproval) (q : RecoveryRequest) (s s' : World) (t : ℕ)
      → record_decline env now a q s ≡ (ok (now_time_locked t), s')
      → ⊥
  unfolding record_decline close
  record_decline-ne a q s s' t e = ground arith

  in_window-ok :
      (a b : RecoveryApproval) (q r : RecoveryRequest) (s s' : World)
      → in_window env now a q s ≡ (ok (b, r), s')
      → (q.approvals_expire_at < now → ⊥)
  unfolding in_window close
  in_window-ok a b q r s s' e late = ground arith

  cast-timely :
      (token : Option Text) (d : Decision) (s : World) (a : RecoveryApproval) (q : RecoveryRequest)
      → Names env token s a q
      → ltb q.approvals_expire_at now ≡ false
      → cast env now token d s
        ≡ vote env now d
            (voted_as env now d a)
            q
            (record s { db = record s.db { approvals = with_vote env now d a s } })
  unfolding cast in_window
  cast-timely token d s a q n timely =
      rw (find_open_approval-Names env now token s a q n) (rw timely)

  cast-late :
      (token : Option Text) (d : Decision) (s s' : World) (o : Outcome) (a : RecoveryApproval)
      (q : RecoveryRequest)
      → Names env token s a q
      → ltb q.approvals_expire_at now ≡ true
      → cast env now token d s ≡ (ok o, s')
      → ⊥
  unfolding cast in_window close
  cast-late token d s s' o a q n late e =
      cc (rw late at (rw (find_open_approval-Names env now token s a q n) at e))

  cast-none :
      (token : Option Text) (d : Decision) (s s' : World) (o : Outcome)
      → find_open_approval env now token s ≡ (err invalid_link, s)
      → cast env now token d s ≡ (ok o, s')
      → ⊥
  unfolding cast
  cast-none token d s s' o failed e = cc (rw failed at e)

  -- What a successful vote went through: the approval that it named, in its window.
  abbrev pub Cast : Option Text → Decision → World → World → Outcome → Type 0
  Cast token d s s' o =
      (a : RecoveryApproval) × (q : RecoveryRequest) × Names env token s a q
      × (now ≤ q.approvals_expire_at)
      × (vote env now d (voted_as env now d a) q
            (record s { db = record s.db { approvals = with_vote env now d a s } })
          ≡ (ok o, s'))

  cast-ok :
      (token : Option Text) (d : Decision) (s s' : World) (o : Outcome)
      → cast env now token d s ≡ (ok o, s')
      → Cast token d s s' o
  cast-ok token d s s' o e = elim (find_open_approval-cases env now token s) [
    | inr failed ↦ absurd (cast-none token d s s' o failed e)
    | inl (a, q, n) ↦ elim (Bool-cases (ltb q.approvals_expire_at now)) [
      | inl late ↦ absurd (cast-late token d s s' o a q n late e)
      | inr timely ↦ (a, q, n, ground arith, sym (cast-timely token d s a q n timely) ∙ e)
    ]
  ]

  rolled_back-ok :
      (s s' : World) (r : Result Outcome × World) (o : Outcome)
      → rolled_back s r ≡ (ok o, s')
      → r ≡ (ok o, s')
  rolled_back-ok s s' (ok a, t) o e = e
  rolled_back-ok s s' (err x, t) o e = cc

  pub decide-Cast :
      (token : Option Text) (d : Decision) (s s' : World) (o : Outcome)
      → decide env now token d s ≡ (ok o, s')
      → Cast token d s s' o
  unfolding decide
  decide-Cast token approve s s' o e = cast-ok token approve s s' o (rolled_back-ok s s' _ o e)
  decide-Cast token decline s s' o e = cast-ok token decline s s' o (rolled_back-ok s s' _ o e)
  decide-Cast token other s s' o e = cc

  -- What the start of the time lock shows of the vote that started it.
  pub record Locked (token : Option Text) (d : Decision) (s s' : World) (t : ℕ) : Type 0 where
    pub approval : RecoveryApproval
    pub request : RecoveryRequest
    pub names : Names env token s approval request
    pub approves : d ≡ approve
    pub timely : now ≤ request.approvals_expire_at
    pub enough :
        request.threshold
        ≤ count_by
            (λ (a : RecoveryApproval). a.request_id == request.id && is_approved a.decision)
            (with_vote env now d approval s)
    pub until : t ≡ now + env.time_lock_ms
    pub locked :
        s'.requests ≡ update_by (λ r. r.id == request.id) (λ _. locked_until t request) s.requests

  -- A vote that starts the time lock is an approval, cast in the window through a link that names an
  -- undecided approval of an awaiting request; with it the approvals of the request reach its
  -- threshold; the request is locked for the configured time from now, and no other request changes.
  pub decide-Locked :
      (token : Option Text) (d : Decision) (s s' : World) (t : ℕ)
      → decide env now token d s ≡ (ok (now_time_locked t), s')
      → Locked token d s s' t
  unfolding vote approvals_of
  decide-Locked token d s s' t e = from d (decide-Cast token d s s' (now_time_locked t) e)
    where
      from : (d : Decision) → Cast token d s s' (now_time_locked t) → Locked token d s s' t
      from approve (a, q, n, timely, v) =
          let (enough, until, locked) = record_approval-now_time_locked _ q _ s' t v in
          record {
            approval = a;
            request = q;
            names = n;
            approves = refl;
            timely = timely;
            enough = enough;
            until = until;
            locked = locked;
          }
      from decline (a, q, n, timely, v) = absurd (record_decline-ne _ q _ s' t v)
      from other (a, q, n, timely, v) = absurd (record_decline-ne _ q _ s' t v)

  -- No other approval has the token's hash: the column is unique.
  abbrev pub OneHolder : Option Text → World → Type 0
  OneHolder token s =
      (text : Text) (a : RecoveryApproval)
      → valid_token_shape token ≡ some text
      → ballot env text s ≡ some a
      → All (λ b. hash_is (hash_token env text) b.token_hash ≡ true → b.id ≡ a.id) s.approvals

  -- The approvals after a vote, whatever else it wrote.
  pub vote-approvals :
      (d : Decision) (a : RecoveryApproval) (q : RecoveryRequest) (s s' : World) (o : Outcome)
      → vote env now d a q s ≡ (ok o, s')
      → (s'.approvals ≡ s.approvals)
        ⊎ (s'.approvals
            ≡ update_by
                (λ b. b.request_id == q.id)
                (λ b. record b { token_hash = none })
                s.approvals)
  unfolding vote record_approval record_decline notify close
  vote-approvals approve a q s s' o e = ground arith
  vote-approvals decline a q s s' o e = ground arith
  vote-approvals other a q s s' o e = ground arith
