-- ===== src/Recovery/Lifecycle/Decide.antt =====
-- The guardians' answers of recovery.service.ts against the life of a request.
use open_privy.Base.{
  Exec, pure, ℕ, ◌+◌, Text, true, [], ◌∷◌, Option, some, Result, ok, err, ◌≡◌, refl, sym, ◌∙◌,
  subst, Bool-cases, inl, inr, ltb, leb, find_by-All,
}
use open_privy.Base.Actions.{◌>>=◌, ◌>>◌, next}
use open_privy.Store.{
  World, RecoveryRequest, RecoveryApproval, RecoveryStatus, awaiting_approvals, time_locked,
  completing, completed, cancelled, declined, expired, rolled_back, save_request, find_user, Mail,
  wallet_will_move, audit,
}
use open_privy.Recovery.{Env, is_awaiting, notify}
use open_privy.Recovery.Requests.{close}
use open_privy.Recovery.Votes.{
  Decision, approve, decline, other, Outcome, in_window, find_open_approval, describe_approval,
  record_decline, record_approval, vote, cast, decide, approvals_of, now_time_locked,
}
use open_privy.Recovery.Votes.Inversion.{Names, find_open_approval-Names, find_open_approval-cases}
use open_privy.Recovery.Lifecycle.{
  Event, approving, declining, expiring, Life, life, Move, approval, refusal, lapse, Reach, here,
  then_, IsTable, Follows, Follows-refl, replaced, update_by-IsTable, replaced-Reach, close-Follows,
}

pub awaiting-Move :
    {g : Event} (a : RecoveryStatus) (u : Option ℕ) (b : Life)
    → is_awaiting a ≡ true
    → Move g (awaiting_approvals, u) b
    → Reach g (a, u) b
awaiting-Move awaiting_approvals u b h m = then_ m (here b)
awaiting-Move time_locked u b h m = absurd (cc)
awaiting-Move completing u b h m = absurd (cc)
awaiting-Move completed u b h m = absurd (cc)
awaiting-Move cancelled u b h m = absurd (cc)
awaiting-Move declined u b h m = absurd (cc)
awaiting-Move expired u b h m = absurd (cc)

-- What follows a call and leaves the requests as they are.
pub next-keeps :
    {A B : Type 0} (r : Result A × World) (f : A → Exec World B)
    → ((a : A) (t : World) → (f a t).1.requests ≡ t.requests)
    → (next r f).1.requests ≡ r.1.requests
next-keeps (ok a, t) f keep = keep a t
next-keeps (err e, t) f keep = refl

notify-keeps : (env : Env) (m : Mail) (t : World) → (notify env m t).1.requests ≡ t.requests
unfolding notify
notify-keeps env m t = elim (Bool-cases (env.delivers m)) [
  | inl sent ↦ rw sent refl
  | inr fails ↦ rw fails refl
]

-- What a vote may do to a request.
abbrev pub event_of : Env → ℕ → Decision → Event
event_of env now approve = approving (now + env.time_lock_ms)
event_of env now decline = declining
event_of env now other = declining

module _ (env : Env) (now : ℕ) (row : ℕ → RecoveryRequest) where
  -- A request that is in the table and awaits approvals.
  IsAwaiting : RecoveryRequest → Type 0
  IsAwaiting q = (q ≡ row q.id) × (is_awaiting q.status ≡ true)

  IsAwaiting-Reach :
      {g : Event} (q : RecoveryRequest) (b : Life)
      → IsAwaiting q
      → Move g (awaiting_approvals, q.unlocks_at) b
      → Reach g (life (row q.id)) b
  unfolding IsAwaiting
  IsAwaiting-Reach {g} q b (mine, waits) m =
      subst (λ (r : RecoveryRequest). Reach g (life r) b) mine
        (awaiting-Move q.status q.unlocks_at b waits m)

  in_window-Follows :
      {g : Event} (a : RecoveryApproval) (q : RecoveryRequest) (s : World)
      → IsTable row s.requests
      → IsAwaiting q
      → Follows g row (in_window env now a q s).1.requests
  unfolding in_window close
  in_window-Follows a q s h w = elim (Bool-cases (ltb q.approvals_expire_at now)) [
    | inr open_ ↦ rw open_ (Follows-refl row s.requests h)
    | inl late ↦ rw late (
        close-Follows now q expired "Guardians did not respond in time" row s h
          (IsAwaiting-Reach q (expired, q.unlocks_at) w lapse))
  ]

  Names-IsAwaiting :
      (token : Option Text) (s : World) (a : RecoveryApproval) (q : RecoveryRequest)
      → IsTable row s.requests
      → Names env token s a q
      → IsAwaiting q
  unfolding IsAwaiting
  Names-IsAwaiting token s a q h n =
      (find_by-All (λ r. r ≡ row r.id) _ s.requests q n.about h, n.awaiting)

  find_open_approval-Follows :
      (token : Option Text) (s : World)
      → IsTable row s.requests
      → Follows expiring row (find_open_approval env now token s).1.requests
  find_open_approval-Follows token s h = elim (find_open_approval-cases env now token s) [
    | inr fails ↦ rw fails (Follows-refl row s.requests h)
    | inl (a, q, n) ↦
        rw (find_open_approval-Names env now token s a q n)
          (in_window-Follows a q s h (Names-IsAwaiting token s a q h n))
  ]

  -- The lookup of an approval.
  pub describe_approval-Follows :
      (token : Option Text) (s : World)
      → IsTable row s.requests
      → Follows expiring row (describe_approval env now token s).1.requests
  unfolding describe_approval
  describe_approval-Follows token s h =
      subst (Follows expiring row)
        (sym (
          next-keeps (find_open_approval env now token s) _ (λ found t.
            next-keeps (find_user found.1.old_user_id t) _
              (λ old_user u. next-keeps (find_user found.1.new_user_id u) _ (λ new_user v. refl)))))
        (find_open_approval-Follows token s h)

  -- What follows the time lock: the email to the owner.
  abbrev warn : RecoveryRequest → Exec World Outcome
  warn q = find_user q.old_user_id >>= λ old_user.
      notify env (wallet_will_move old_user.email (now + env.time_lock_ms))
      >> pure (now_time_locked (now + env.time_lock_ms))

  warn-keeps : (q : RecoveryRequest) (t : World) → (warn q t).1.requests ≡ t.requests
  warn-keeps q t = next-keeps (find_user q.old_user_id t) _ (λ old_user u.
      next-keeps (notify env (wallet_will_move old_user.email (now + env.time_lock_ms)) u) _
        (λ _ v. refl)
      ∙ notify-keeps env (wallet_will_move old_user.email (now + env.time_lock_ms)) u)

  vote-Follows :
      (decision : Decision) (a : RecoveryApproval) (q : RecoveryRequest) (s : World)
      → IsTable row s.requests
      → IsAwaiting q
      → Follows (event_of env now decision) row (vote env now decision a q s).1.requests
  unfolding vote record_decline record_approval close
  vote-Follows approve a q s h w =
      elim (Bool-cases (leb q.threshold (approvals_of q.id s.approvals))) [
        | inr few ↦ rw few (Follows-refl row s.requests h)
        | inl enough ↦
            let c : RecoveryRequest = record q {
              status = time_locked;
              unlocks_at = some (now + env.time_lock_ms);
            } in
            rw enough (
              subst (Follows (event_of env now approve) row)
                (sym (
                  warn-keeps q (
                    save_request c
                      (audit q.old_user_id "RECOVERY_APPROVED_BY_GUARDIAN"
                        (q.id ∷ a.guardian_id ∷ approvals_of q.id s.approvals ∷ []) s).1)))
                (
                  replaced c row,
                  update_by-IsTable c row s.requests h,
                  replaced-Reach c row
                      (IsAwaiting-Reach q (time_locked, some (now + env.time_lock_ms)) w approval),
                ))
      ]
  vote-Follows decline a q s h w =
      close-Follows now q declined "A guardian declined" row s h
        (IsAwaiting-Reach q (declined, q.unlocks_at) w refusal)
  vote-Follows other a q s h w =
      close-Follows now q declined "A guardian declined" row s h
        (IsAwaiting-Reach q (declined, q.unlocks_at) w refusal)

  cast-Follows :
      (token : Option Text) (decision : Decision) (s : World)
      → IsTable row s.requests
      → Follows (event_of env now decision) row (cast env now token decision s).1.requests
  unfolding cast in_window close
  cast-Follows token decision s h = elim (find_open_approval-cases env now token s) [
    | inr fails ↦ rw fails (Follows-refl row s.requests h)
    | inl (a, q, n) ↦
        let w = Names-IsAwaiting token s a q h n in
        rw (find_open_approval-Names env now token s a q n)
          (elim (Bool-cases (ltb q.approvals_expire_at now)) [
            | inl late ↦ rw late (
                close-Follows now q expired "Guardians did not respond in time" row s h
                  (IsAwaiting-Reach q (expired, q.unlocks_at) w lapse))
            | inr open_ ↦ rw open_ (vote-Follows decision _ q _ h w)
          ])
  ]

  rolled_back-Follows :
      {A : Type 0} {g : Event} (s : World) (r : Result A × World)
      → IsTable row s.requests
      → Follows g row r.1.requests
      → Follows g row (rolled_back s r).1.requests
  rolled_back-Follows s (ok a, t) h f = f
  rolled_back-Follows s (err e, t) h f = Follows-refl row s.requests h

  -- A decision, whatever comes of it.
  pub decide-Follows :
      (token : Option Text) (decision : Decision) (s : World)
      → IsTable row s.requests
      → Follows (event_of env now decision) row (decide env now token decision s).1.requests
  unfolding decide
  decide-Follows token approve s h = rolled_back-Follows s _ h (cast-Follows token approve s h)
  decide-Follows token decline s h = rolled_back-Follows s _ h (cast-Follows token decline s h)
  decide-Follows token other s h = Follows-refl row s.requests h
