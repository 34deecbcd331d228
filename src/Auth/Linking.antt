-- ===== src/Auth/Linking.antt =====
-- Which account `loginWithWorkOs` of auth.service.ts signs in to.
use open_privy.Base.{
  ℕ, Text, [], ◌∷◌, text_eq, text_eq_iff, true, false, ◌||◌, Option, none, some, Result, ok, err,
  ◌≡◌, refl, ◌∙◌, ap, subst, arith, find_by, find_by_test, Option-cases, Bool-cases, inl, inr, ◌⊎◌,
  All,
}
use open_privy.Base.Actions.{next-eq-ok}
use open_privy.Store.{World, User}
use open_privy.Recovery.{hash_is}
use open_privy.Recovery.Requests.{cancel_for_sign_in}
use open_privy.Recovery.Requests.SignIn.{threatens, cancel_for_sign_in-safe}
use open_privy.Auth.{
  AuthEnv, Profile, Session, is_set, locked_out, is_workos, has_email, insert_user,
  linked_elsewhere, link, account_of, upsert_user, end_recoveries, open_session, login_with_work_os,
}

-- No identity, the empty one or this one.
abbrev IsUnlinked : Text → Option Text → Type 0
IsUnlinked id linked = (linked ≡ none) ⊎ ((linked ≡ some []) ⊎ (linked ≡ some id))

linked_elsewhere-IsUnlinked :
    (id : Text) (linked : Option Text) → linked_elsewhere id linked ≡ false → IsUnlinked id linked
unfolding linked_elsewhere
linked_elsewhere-IsUnlinked id none e = inl refl
linked_elsewhere-IsUnlinked id (some []) e = inr (inl refl)
linked_elsewhere-IsUnlinked id (some (c ∷ cs)) e = elim (Bool-cases (text_eq (c ∷ cs) id)) [
  | inl same ↦ inr (inr (ap some ((text_eq_iff (c ∷ cs) id).0 same)))
  | inr other ↦ absurd (cc (rw other at e))
]

-- The account may be entered by the identity: it is linked to it, or it has the verified email and
-- no other identity.
abbrev pub MayEnter : Profile → User → Type 0
MayEnter profile u =
    (u.workos_user_id ≡ some profile.workos_user_id)
    ⊎ ((u.email ≡ profile.email)
        × (profile.email_verified ≡ true)
        × IsUnlinked profile.workos_user_id u.workos_user_id)

hash_is-some : (h : Text) (k : Option Text) → hash_is h k ≡ true → k ≡ some h
hash_is-some h none e = cc
hash_is-some h (some k) e = ap some ((text_eq_iff k h).0 e)

-- The row that the sign-in starts from.
pub record Entered (profile : Profile) (s : World) (u : User) : Type 0 where
  pub row : User
  pub found :
      (find_by (is_workos profile.workos_user_id) s.users ≡ some row)
      ⊎ (find_by (has_email profile.email) s.users ≡ some row)
  pub may : MayEnter profile row
  pub unlocked : row.locked_at ≡ none
  pub id : u.id ≡ row.id
  pub email : u.email ≡ row.email

is_set-none : (t : Option ℕ) → is_set t ≡ false → t ≡ none
is_set-none none e = refl
is_set-none (some t) e = cc

upsert_user-ok :
    (profile : Profile) (a : Option User) (s s' : World) (u : User)
    → upsert_user profile a s ≡ (ok u, s')
    → (v : User) × (a ≡ some v) × (v.locked_at ≡ none) × (u.id ≡ v.id) × (u.email ≡ v.email)
unfolding upsert_user insert_user
upsert_user-ok profile none s s' u e = absurd (cc)
upsert_user-ok profile (some v) s s' u e = elim (Bool-cases (is_set v.locked_at)) [
  | inl shut ↦ absurd (refused (rw shut at e))
  | inr free ↦
      let same = ap (λ (r : Result User × World). r.0) (rw free at e) in
      (v, refl, is_set-none v.locked_at free, id_of same, email_of same)
]
  where
    refused : (let r : Result User × World = (err locked_out, s) in r) ≡ (ok u, s') → ⊥
    refused e = absurd (cc)

    id_of :
        {w : User}
        → (let r : Result User =
              ok (record v { email_verified = v.email_verified || profile.email_verified }) in
            r)
          ≡ ok w
        → w.id ≡ v.id
    id_of e = cc

    email_of :
        {w : User}
        → (let r : Result User =
              ok (record v { email_verified = v.email_verified || profile.email_verified }) in
            r)
          ≡ ok w
        → w.email ≡ v.email
    email_of e = cc

link-ok :
    (profile : Profile) (a : Option User) (v : User)
    → link profile a ≡ ok (some v)
    → (w : User) × (a ≡ some w)
      × (profile.email_verified ≡ true)
      × (linked_elsewhere profile.workos_user_id w.workos_user_id ≡ false)
      × (v ≡ record w { workos_user_id = some profile.workos_user_id })
unfolding link
link-ok profile none v e = absurd (cc)
link-ok profile (some w) v e = (w, refl, ground arith, ground arith, ground arith)

account_of-Entered :
    (profile : Profile) (s : World) (u v : User)
    → account_of profile
        (find_by (is_workos profile.workos_user_id) s.users)
        (find_by (has_email profile.email) s.users)
      ≡ ok (some v)
    → v.locked_at ≡ none
    → u.id ≡ v.id
    → u.email ≡ v.email
    → Entered profile s u
unfolding account_of
account_of-Entered profile s u v e free id email =
    elim (Option-cases (find_by (is_workos profile.workos_user_id) s.users)) [
      | inr (w, linked) ↦
          let same : w ≡ v = injective (rw linked at e) in
          record {
            row = v;
            found = inl (linked ∙ ap some same);
            may = inl (
                hash_is-some profile.workos_user_id v.workos_user_id (
                  find_by_test (is_workos profile.workos_user_id) s.users v
                    (linked ∙ ap some same)));
            unlocked = free;
            id = id;
            email = email;
          }
      | inl unlinked ↦
          let (w, found, verified, free_of_others, same) =
            link-ok profile (find_by (has_email profile.email) s.users) v (rw unlinked at e) in
          record {
            row = w;
            found = inr found;
            may = inr (
              (text_eq_iff w.email profile.email).0
                  (find_by_test (has_email profile.email) s.users w found),
              verified,
              linked_elsewhere-IsUnlinked profile.workos_user_id w.workos_user_id free_of_others,
            );
            unlocked = cc (same, free);
            id = id ∙ ap (λ (x : User). x.id) same;
            email = email ∙ ap (λ (x : User). x.email) same;
          }
    ]
  where
    injective : {w : User} → (let r : Result (Option User) = ok (some w) in r) ≡ ok (some v) → w ≡ v
    injective e = cc

module _ (env : AuthEnv) (recovers : env.has_recovery ≡ true) (now : ℕ) (profile : Profile)
    (s : World) where
  open_session-ok :
      (u : User) (t s' : World) (session : Session)
      → open_session env now u t ≡ (ok session, s')
      → (session ≡ record { access_token = env.sign now u.id u.email; id = u.id; email = u.email })
        × All (λ r. threatens u.id r ≡ false) s'.requests
  unfolding open_session end_recoveries
  open_session-ok u t s' session e =
      let (a, t', ended, e1) = next-eq-ok (end_recoveries env now u.id t) _ e in
      let closed : cancel_for_sign_in now u.id t ≡ (ok a, t') = rw recovers at ended in
      let after = ap (λ (r : Result Session × World). r.1) e1 in
      (
        injective (ap (λ (r : Result Session × World). r.0) e1),
        subst (λ (w : World). All (λ r. threatens u.id r ≡ false) w.requests)
            (ap (λ (r : Result (Unit {0}) × World). r.1) closed ∙ after)
            (cancel_for_sign_in-safe now u.id t),
      )
    where
      injective : {x y : Session} → (let r : Result Session = ok x in r) ≡ ok y → y ≡ x
      injective e = cc

  -- A sign-in through the identity provider that succeeds, where the recovery service is injected, is
  -- into an account that may be entered by the identity and is not locked: one that is linked to it,
  -- or one with its email, if the provider has verified the email and the account has no other
  -- identity. The token is for that account, and afterwards no recovery request against it is open.
  pub login_with_work_os-Entered :
      (session : Session) (s' : World)
      → login_with_work_os env now profile s ≡ (ok session, s')
      → (u : User) × Entered profile s u
        × (session
            ≡ record { access_token = env.sign now u.id u.email; id = u.id; email = u.email })
        × All (λ r. threatens u.id r ≡ false) s'.requests
  unfolding login_with_work_os
  login_with_work_os-Entered session s' e =
      let (account, t, resolved, e1) =
        next-eq-ok
          (
            account_of profile (find_by (is_workos profile.workos_user_id) s.users)
                (find_by (has_email profile.email) s.users),
            s,
          )
          _ e in
      let (u, t', saved, e2) = next-eq-ok (upsert_user profile account t) _ e1 in
      let (v, known, free, id, email) = upsert_user-ok profile account t t' u saved in
      let resolved' = ap (λ (r : Result (Option User) × World). r.0) resolved ∙ ap ok known in
      let (issued, safe) = open_session-ok u t' s' session e2 in
      (u, account_of-Entered profile s u v resolved' free id email, issued, safe)
