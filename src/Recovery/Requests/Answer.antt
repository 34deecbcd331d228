-- ===== src/Recovery/Requests/Answer.antt =====
-- What `startRequest` of recovery.service.ts tells the requester.
use open_privy.Base.{
  ℕ, Text, true, List, [], ◌∷◌, Option, none, some, String, bad_request, failure, filter_by, ◌+◌,
  Result, ok, err, ◌≡◌, refl, Option-cases, Bool-cases, inl, inr, Exec, ltb, if◌then◌else◌, length,
  find_by, any_by, ◌==◌, ◌&&◌,
}
use open_privy.Base.Actions.{next}
use open_privy.Store.{World, User, Guardian, Mail, rolled_back}
use open_privy.Recovery.{Env, new_token, notify, threshold_for, is_open}
use open_privy.Recovery.Guardians.{is_active_of}
use open_privy.Recovery.Requests.{
  generic, voters_of, is_blocked, insert_request, insert_approval, insert_approvals, send_all,
  create_request, open_request, try_open, start_request,
}

-- A call that does not throw.
abbrev Returns : {A : Type 0} → Result A × World → Type 0
Returns {A} r = (a : A) × (r.0 ≡ ok a)

next-ok :
    {A B : Type 0} (r : Result A × World) (f : A → Exec World B) (b : B)
    → Returns r
    → ((a : A) (s : World) → (f a s).0 ≡ ok b)
    → (next r f).0 ≡ ok b
next-ok (ok a, s) f b h k = k a s
next-ok (err e, s) f b (a, h) k = cc

next-Returns :
    {A B : Type 0} (r : Result A × World) (f : A → Exec World B)
    → Returns r
    → ((a : A) (s : World) → Returns (f a s))
    → Returns (next r f)
next-Returns (ok a, s) f h k = k a s
next-Returns (err e, s) f (a, h) k = absurd (cc)

rolled_back-Returns :
    {A : Type 0} (s : World) (r : Result A × World) → Returns r → Returns (rolled_back s r)
rolled_back-Returns s (ok a, s') h = h
rolled_back-Returns s (err e, s') (a, h) = absurd (cc)

module _ (env : Env) (sends : (m : Mail) → env.delivers m ≡ true) (now : ℕ) where
  notify-ok : (m : Mail) (s : World) → (notify env m s).0 ≡ ok tt
  unfolding notify
  notify-ok m s = rw (sends m)

  send_all-ok : (gs : List (Guardian × Text)) (s : World) → (send_all env now gs s).0 ≡ ok tt
  unfolding send_all notify
  send_all-ok [] s = refl
  send_all-ok ((g, token) ∷ gs) s = rw (sends _) (send_all-ok gs _)

  insert_approvals-ok :
      (id : ℕ) (gs : List Guardian) (s : World) → Returns (insert_approvals env now id gs s)
  unfolding insert_approvals insert_approval new_token
  insert_approvals-ok id [] s = ([], refl)
  insert_approvals-ok id (g ∷ gs) s =
      next-Returns _ _ (insert_approvals-ok id gs _)
        (λ rest t. ((g, env.random s.drawn) ∷ rest, refl))

  create_request-ok :
      (old new threshold : ℕ) (cancel : Text) (gs : List Guardian) (s : World)
      → Returns (create_request env now old new threshold cancel gs s)
  unfolding create_request insert_request
  create_request-ok old new threshold cancel gs s =
      next-Returns _ _ (insert_approvals-ok s.next_id gs _) (λ tokens t. (_, refl))

  open_request-ok :
      (new_user old_user : User) (active : List Guardian) (s : World)
      → (open_request env now new_user old_user active s).0 ≡ ok generic
  unfolding open_request new_token
  open_request-ok new_user old_user active s =
      elim (Bool-cases
        (ltb (length (voters_of new_user.email active)) (threshold_for (length active)))) [
          | inl few ↦ rw few
          | inr enough ↦ rw enough (
              next-ok _ _ generic
                (rolled_back-Returns (record s { drawn = s.drawn + 1 }) _
                  (create_request-ok old_user.id new_user.id (threshold_for (length active))
                    (env.random s.drawn) (voters_of new_user.email active)
                    (record s { drawn = s.drawn + 1 })))
                (λ made t.
                  next-ok _ _ generic (tt, send_all-ok made.1 t)
                    (λ u t'. next-ok _ _ generic (tt, notify-ok _ t') (λ u' t''. refl))))
        ]

  try_open-ok :
      (new_user : User) (found : Option User) (s : World)
      → (try_open env now new_user found s).0 ≡ ok generic
  unfolding try_open
  try_open-ok new_user none s = refl
  try_open-ok new_user (some old_user) s =
      let active = filter_by (is_active_of old_user.id) s.guardians in
      elim (Bool-cases (is_blocked now old_user.id active s)) [
        | inl shut ↦ rw shut
        | inr open_to ↦ rw open_to (open_request-ok new_user old_user active s)
      ]

  -- The answer, from what the requester's own account shows.
  abbrev pub answer_for : ℕ → World → Option User → Result String
  answer_for id s none = err (failure "EntityNotFoundError")
  answer_for id s (some u) =
      if any_by (λ q. q.new_user_id == id && is_open q.status) s.requests
      then err (bad_request "You already have a recovery in progress.")
      else if any_by (λ w. w.user_id == id) s.wallets
      then err (bad_request "Recover into a new account that has no wallets yet.")
      else ok generic

  abbrev pub answer : ℕ → World → Result String
  answer id s = answer_for id s (find_by (λ u. u.id == id) s.users)

  -- If every email is delivered, the answer depends on the requester's own account, requests and
  -- wallets alone: not on the email that was asked about, nor on whether an account has it, is locked,
  -- has guardians or is blocked.
  pub start_request-answer :
      (new_user_id : ℕ) (raw_old_email : Text) (s : World)
      → (start_request env now new_user_id raw_old_email s).0 ≡ answer new_user_id s
  unfolding start_request
  start_request-answer id email s = elim (Option-cases (find_by (λ u. u.id == id) s.users)) [
    | inl e ↦ rw e
    | inr (u, e) ↦
        rw e (elim (Bool-cases (any_by (λ q. q.new_user_id == id && is_open q.status) s.requests)) [
          | inl busy ↦ rw busy
          | inr free ↦ rw free (elim (Bool-cases (any_by (λ w. w.user_id == id) s.wallets)) [
            | inl owns ↦ rw owns
            | inr bare ↦ rw bare (try_open-ok u _ s)
          ])
        ])
  ]
