-- ===== src/Recovery/Lifecycle/Cancel.antt =====
-- The cancellations of recovery.service.ts against the life of a request.
use open_privy.Base.{
  ℕ, Text, text_eq, true, ◌&&◌, List, [], ◌∷◌, Option, ◌≡◌, subst, All, Option-cases, &&-split, inl,
  inr, ◌==◌, find_by, find_by-All, find_by_test,
}
use open_privy.Store.{
  World, RecoveryRequest, RecoveryStatus, awaiting_approvals, time_locked, completing, completed,
  cancelled, declined, expired,
}
use open_privy.Recovery.{Env, hash_token, valid_token_shape, is_cancellable}
use open_privy.Recovery.Requests.{close, cancel_by_token, cancel_all, cancel_for_sign_in}
use open_privy.Recovery.Lifecycle.Snapshot.{
  Closing, closed, IsNow, IsNow-replaced, IsNow-Reach, filter-IsNow,
}
use open_privy.Recovery.Lifecycle.{
  cancelling, life, early_cancel, late_cancel, Reach, here, then_, Reach-trans, IsTable, Follows,
  Follows-refl, replaced, update_by-IsTable, replaced-Reach, close-Follows,
}

cancellable-Reach :
    (a : RecoveryStatus)
    → is_cancellable a ≡ true
    → (u : Option ℕ) → Reach cancelling (a, u) (cancelled, u)
cancellable-Reach awaiting_approvals h u = then_ early_cancel (here (cancelled, u))
cancellable-Reach time_locked h u = then_ late_cancel (here (cancelled, u))
cancellable-Reach completing h u = absurd (cc)
cancellable-Reach completed h u = absurd (cc)
cancellable-Reach cancelled h u = absurd (cc)
cancellable-Reach declined h u = absurd (cc)
cancellable-Reach expired h u = absurd (cc)

module _ (env : Env) (now : ℕ) where
  pub cancel_by_token-Follows :
      (token : Option Text) (row : ℕ → RecoveryRequest) (s : World)
      → IsTable row s.requests
      → Follows cancelling row (cancel_by_token env now token s).1.requests
  unfolding cancel_by_token close
  cancel_by_token-Follows token row s h = elim (Option-cases (valid_token_shape token)) [
    | inl bad ↦ rw bad (Follows-refl row s.requests h)
    | inr (text, shaped) ↦
        rw shaped
          (elim (Option-cases (
            find_by
              (λ q. text_eq q.cancel_token_hash (hash_token env text) && is_cancellable q.status)
              s.requests)) [
                | inl absent ↦ rw absent (Follows-refl row s.requests h)
                | inr (q, found) ↦ rw found (
                    let mine = find_by-All (λ r. r ≡ row r.id) _ s.requests q found h in
                    let test =
                      find_by_test
                        (λ (q : RecoveryRequest).
                          text_eq q.cancel_token_hash (hash_token env text)
                          && is_cancellable q.status)
                        s.requests q found in
                    close-Follows now q cancelled "Cancelled by the account owner" row s h (
                      subst
                        (λ (r : RecoveryRequest).
                          Reach cancelling (life r) (cancelled, q.unlocks_at))
                        mine
                        (cancellable-Reach q.status
                          (&&-split (text_eq q.cancel_token_hash (hash_token env text))
                            (is_cancellable q.status) test).1
                          q.unlocks_at)))
              ])
  ]

-- The cancellation by a sign-in.
abbrev signing_in : Closing
signing_in = record {
  event = cancelling;
  closes = is_cancellable;
  status = cancelled;
  reason = "The account owner signed in";
  legal = cancellable-Reach;
}

cancel_all-Follows :
    (now user : ℕ) (qs : List RecoveryRequest) (row : ℕ → RecoveryRequest) (s : World)
    → IsTable row s.requests
    → All (IsNow signing_in now row) qs
    → Follows cancelling row (cancel_all now user qs s).1.requests
unfolding cancel_all close
cancel_all-Follows now user [] row s h n = Follows-refl row s.requests h
cancel_all-Follows now user (q ∷ qs) row s h (n, ns) =
    let (row', table, moved) =
      cancel_all-Follows now user qs (replaced (closed signing_in now q) row) _
        (update_by-IsTable (closed signing_in now q) row s.requests h)
        (IsNow-replaced signing_in now row q qs n ns) in
    (
      row',
      table,
      λ id.
          Reach-trans
            (replaced-Reach (closed signing_in now q) row (IsNow-Reach signing_in now row q n) id)
            (moved id),
    )

pub cancel_for_sign_in-Follows :
    (now user : ℕ) (row : ℕ → RecoveryRequest) (s : World)
    → IsTable row s.requests
    → Follows cancelling row (cancel_for_sign_in now user s).1.requests
unfolding cancel_for_sign_in
cancel_for_sign_in-Follows now user row s h = cancel_all-Follows now user _ row s h (
    filter-IsNow signing_in now _ row s.requests
      (λ q yes_. (&&-split (q.old_user_id == user) (is_cancellable q.status) yes_).1) h)
