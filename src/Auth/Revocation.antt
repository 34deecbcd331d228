-- ===== src/Auth/Revocation.antt =====
-- The sessions of an account after its recovery: `complete` of recovery.service.ts, then the session check
-- and the sign-in of the auth module.
use open_privy.Base.{
  ℕ, Bool, true, false, List, [], ◌∷◌, Option, none, some, unauthorized, Result, ok, err, ◌≡◌, ◌≢◌,
  refl, sym, ◌∙◌, ap, subst, arith, find_by, find_by_test, count_by, update_by, Option-cases,
  Bool-cases, inl, inr, All, ◌==◌,
}
use open_privy.Base.Actions.{next-eq-ok}
use open_privy.Store.{World, User, RecoveryRequest, rolled_back}
use open_privy.Recovery.{Env}
use open_privy.Recovery.Completion.{
  is_claimable, claim, move_wallets, lock_user, settle, carry_out, recover, complete,
}
use open_privy.Auth.{
  AuthEnv, Payload, Profile, Session, is_set, admit, validate, login_with_work_os,
}
use open_privy.Auth.Linking.{login_with_work_os-Entered}

-- The rows of the user are locked.
abbrev pub IsLockedOut : ℕ → List User → Type 0
IsLockedOut user = All (λ u. (u.id == user) ≡ true → is_set u.locked_at ≡ true)

update_by-IsLockedOut :
    (now user : ℕ) (us : List User)
    → IsLockedOut user (update_by (λ u. u.id == user) (lock_user now) us)
update_by-IsLockedOut now user [] = tt
update_by-IsLockedOut now user (u ∷ us) = (
  elim (Bool-cases (u.id == user)) [
    | inl hit ↦ rw hit (λ e. refl)
    | inr miss ↦ rw miss (λ e. absurd (cc))
  ],
  update_by-IsLockedOut now user us,
)

find_by-IsLockedOut :
    (p : User → Bool) (user : ℕ) (us : List User) (u : User)
    → IsLockedOut user us
    → find_by p us ≡ some u
    → (u.id == user) ≡ true
    → is_set u.locked_at ≡ true
find_by-IsLockedOut p user [] u h e hit = absurd (cc)
find_by-IsLockedOut p user (v ∷ us) u (h, hs) e hit = elim (Bool-cases (p v)) [
  | inl yes_ ↦ locked (rw yes_ at e)
  | inr no_ ↦ find_by-IsLockedOut p user us u hs (rw no_ at e) hit
]
  where
    locked : some v ≡ some u → is_set u.locked_at ≡ true
    locked e =
        subst (λ (w : User). (w.id == user) ≡ true → is_set w.locked_at ≡ true) (same e) h hit
      where
        same : some v ≡ some u → v ≡ u
        same e = cc

eq-test : (m n : ℕ) → m ≡ n → (m == n) ≡ true
eq-test m n h = ground arith

clash : (t : Option ℕ) → t ≡ none → is_set t ≡ true → ⊥
clash none h e = absurd (cc)
clash (some t) h e = absurd (cc)

module _ (env : Env) (now id : ℕ) (request : RecoveryRequest) where
  carry_out-IsLockedOut :
      (s s' : World) (n : ℕ)
      → find_by (λ q. q.id == id) s.requests ≡ some request
      → carry_out env now id s ≡ (ok n, s')
      → IsLockedOut request.old_user_id s'.users
  unfolding carry_out settle
  carry_out-IsLockedOut s s' n found e =
      let (a, t, moved, e1) = next-eq-ok (move_wallets env request _ s) _ (rw found at e) in
      subst (λ (r : Result ℕ × World). IsLockedOut request.old_user_id r.1.users) e1
        (update_by-IsLockedOut now request.old_user_id t.users)

  complete-IsLockedOut :
      (s s' : World)
      → find_by (λ q. q.id == id) (claim now id s).1.requests ≡ some request
      → complete env now id s ≡ (ok true, s')
      → IsLockedOut request.old_user_id s'.users
  unfolding complete claim recover
  complete-IsLockedOut s s' found e =
      elim (Bool-cases (count_by (is_claimable now id) s.requests == 1)) [
        | inl one ↦ done (carry_out env now id (claim now id s).1) refl (rw one at e)
        | inr other ↦ refused (rw other at e)
      ]
    where
      refused :
          {t : World}
          → (let r : Result Bool × World = (ok false, t) in r) ≡ (ok true, s')
          → IsLockedOut request.old_user_id s'.users
      refused e = absurd (cc)

      done :
          (r : Result ℕ × World)
          → carry_out env now id (claim now id s).1 ≡ r
          → recover env id (rolled_back (claim now id s).1 r) ≡ (ok true, s')
          → IsLockedOut request.old_user_id s'.users
      done (err x, u) m e = absurd (cc)
      done (ok n, u) m e =
          subst (λ (y : Result Bool × World). IsLockedOut request.old_user_id y.1.users) e
            (carry_out-IsLockedOut (claim now id s).1 u n found m)

  -- After a recovery that `complete` carried out, no token of the old account is admitted, whenever it
  -- was issued and whatever its email.
  pub complete-validate :
      (s s' : World) (payload : Payload)
      → find_by (λ q. q.id == id) (claim now id s).1.requests ≡ some request
      → complete env now id s ≡ (ok true, s')
      → payload.sub ≡ request.old_user_id
      → validate payload s' ≡ err (unauthorized "Unauthorized")
  unfolding validate admit
  complete-validate s s' payload found e mine =
      elim (Option-cases (find_by (λ u. u.id == payload.sub) s'.users)) [
        | inl missing ↦ rw missing refl
        | inr (u, at) ↦
            let hit = find_by_test (λ (u : User). u.id == payload.sub) s'.users u at in
            rw at (
              rw
                (find_by-IsLockedOut _ request.old_user_id s'.users u
                  (complete-IsLockedOut s s' found e) at (subst (λ n. (u.id == n) ≡ true) mine hit))
                refl)
      ]

  -- After a recovery that `complete` carried out, no sign-in through the identity provider, at
  -- whatever time, that succeeds is into the old account, where the recovery service is injected.
  pub complete-login_with_work_os :
      (s s' s'' : World) (auth : AuthEnv) (later : ℕ) (profile : Profile) (session : Session)
      → auth.has_recovery ≡ true
      → find_by (λ q. q.id == id) (claim now id s).1.requests ≡ some request
      → complete env now id s ≡ (ok true, s')
      → login_with_work_os auth later profile s' ≡ (ok session, s'')
      → session.id ≢ request.old_user_id
  complete-login_with_work_os s s' s'' auth later profile session recovers found e entered same =
      let (u, from, issued, safe) =
        login_with_work_os-Entered auth recovers later profile s' session s'' entered in
      let mine : from.row.id ≡ request.old_user_id =
        sym from.id ∙ sym (ap (λ (x : Session). x.id) issued) ∙ same in
      let test = eq-test from.row.id request.old_user_id mine in
      let locked = complete-IsLockedOut s s' found e in
      let shut : is_set from.row.locked_at ≡ true = elim from.found [
        | inl f ↦ find_by-IsLockedOut _ request.old_user_id s'.users from.row locked f test
        | inr f ↦ find_by-IsLockedOut _ request.old_user_id s'.users from.row locked f test
      ] in
      clash from.row.locked_at from.unlocked shut
