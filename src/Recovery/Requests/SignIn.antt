-- ===== src/Recovery/Requests/SignIn.antt =====
-- `cancelForSignIn` of recovery.service.ts against the requests that are open.
use open_privy.Base.{
  ℕ, Bool, true, false, ◌&&◌, List, [], ◌∷◌, some, ◌≡◌, sym, arith, Bool-cases, inl, inr, ◌⊎◌,
  any_by, filter_by, filter_by-pos, filter_by-neg, subst, update_by, ◌==◌, All,
}
use open_privy.Store.{World, RecoveryRequest, cancelled}
use open_privy.Recovery.{is_cancellable}
use open_privy.Recovery.Requests.{close, cancel_all, cancel_for_sign_in}

-- An open request against the user.
abbrev pub threatens : ℕ → RecoveryRequest → Bool
threatens user q = q.old_user_id == user && is_cancellable q.status

abbrev Listed : RecoveryRequest → List RecoveryRequest → Type 0
Listed r qs = any_by (λ q. r.id == q.id) qs ≡ true

-- Every request that threatens the user is still to be closed.
abbrev Pending : ℕ → List RecoveryRequest → RecoveryRequest → Type 0
Pending user qs r = (threatens user r ≡ false) ⊎ Listed r qs

cancelled_row : ℕ → RecoveryRequest → RecoveryRequest
cancelled_row now q = record q {
  status = cancelled;
  closed_at = some now;
  closed_reason = some "The account owner signed in";
}

close-Pending :
    (now user : ℕ) (q : RecoveryRequest) (qs rows : List RecoveryRequest)
    → All (Pending user (q ∷ qs)) rows
    → All (Pending user qs) (update_by (λ r. r.id == q.id) (λ _. cancelled_row now q) rows)
unfolding cancelled_row
close-Pending now user q qs [] h = tt
close-Pending now user q qs (r ∷ rows) (p, h) = (
  elim (Bool-cases (r.id == q.id)) [
    | inl e ↦ rw e (inl (ground arith))
    | inr e ↦ rw e (elim p [ inl safe ↦ inl safe | inr listed ↦ inr (rw e at listed) ])
  ],
  close-Pending now user q qs rows h,
)

cancel_all-safe :
    (now user : ℕ) (qs : List RecoveryRequest) (s : World)
    → All (Pending user qs) s.requests
    → All (λ r. threatens user r ≡ false) (cancel_all now user qs s).1.requests
unfolding cancel_all close
cancel_all-safe now user [] s h = settle s.requests h
  where
    settle :
        (rows : List RecoveryRequest)
        → All (Pending user []) rows
        → All (λ r. threatens user r ≡ false) rows
    settle [] h = tt
    settle (r ∷ rows) (inl e, h) = (e, settle rows h)
    settle (r ∷ rows) (inr e, h) = absurd (cc)
cancel_all-safe now user (q ∷ qs) s h =
    cancel_all-safe now user qs _ (unfold cancelled_row in close-Pending now user q qs s.requests h)

Pending-cons :
    (user : ℕ) (q : RecoveryRequest) (qs rows : List RecoveryRequest)
    → All (Pending user qs) rows
    → All (Pending user (q ∷ qs)) rows
Pending-cons user q qs [] h = tt
Pending-cons user q qs (r ∷ rows) (inl e, h) = (inl e, Pending-cons user q qs rows h)
Pending-cons user q qs (r ∷ rows) (inr e, h) = (inr (ground arith), Pending-cons user q qs rows h)

filter-Pending :
    (user : ℕ) (rows : List RecoveryRequest)
    → All (Pending user (filter_by (threatens user) rows)) rows
filter-Pending user [] = tt
filter-Pending user (r ∷ rows) = elim (Bool-cases (threatens user r)) [
  | inl e ↦
      subst (λ qs. All (Pending user qs) (r ∷ rows)) (sym (filter_by-pos (threatens user) r rows e))
        (inr (ground arith), Pending-cons user r _ rows (filter-Pending user rows))
  | inr e ↦
      subst (λ qs. All (Pending user qs) (r ∷ rows)) (sym (filter_by-neg (threatens user) r rows e))
        (inl e, filter-Pending user rows)
]

-- After a sign-in no request against the account awaits approvals or a time lock.
pub cancel_for_sign_in-safe :
    (now user : ℕ) (s : World)
    → All (λ r. threatens user r ≡ false) (cancel_for_sign_in now user s).1.requests
unfolding cancel_for_sign_in
cancel_for_sign_in-safe now user s =
    cancel_all-safe now user (filter_by (threatens user) s.requests) s
      (filter-Pending user s.requests)
