-- ===== src/Auth.antt =====
-- services/backend/src/modules/auth: auth.service.ts, which signs users in, and the session check of
-- strategies/jwt.strategy.ts. Supabase and the signing of tokens are parameters. The column `id` of the
-- users has no default (migrations/1787178996053-InitialSchema.ts), so a row without one is rejected.
pub mod OneTime
pub mod Linking
pub mod Mobile
pub mod Revocation
mod Tests
use open_privy.Base.{
  ℕ, ◌*◌, Text, text_eq, Bool, true, false, not, ◌&&◌, ◌||◌, List, [], ◌∷◌, ◌++◌, Option, none,
  some, Error, bad_request, unauthorized, unavailable, failure, Result, ok, err, or_err, ltb, ◌==◌,
  if◌then◌else◌, update_by, find_by, any_by, Exec, pure, raise, lift, gets, modify, refuse,
}
use open_privy.Base.Actions.{◌>>=◌, ◌>>◌}
use open_privy.Store.{World, User}
use open_privy.Recovery.{hash_is, or_null}
use open_privy.Recovery.Requests.{cancel_for_sign_in}

-- `WorkOsAuthResult` of workos.service.ts.
pub record Profile : Type 0 where
  pub workos_user_id : Text
  pub email : Text
  pub first_name : Option Text
  pub email_verified : Bool

-- The accounts of Supabase: the id of the user, or none where it answers with an error.
pub record Supabase : Type 0 where
  pub create_user : (email password : Text) → Option ℕ
  pub sign_in : (email password : Text) → Option ℕ

pub record AuthEnv : Type 0 where
  -- `jwtService.sign` at a time, of the subject and the email.
  pub sign : (now sub : ℕ) (email : Text) → Text
  -- Absent where it is not configured.
  pub supabase : Option Supabase
  -- Whether the recovery service is injected.
  pub has_recovery : Bool

-- What `usersRepository.create` makes: a row that may have no id.
pub record NewUser : Type 0 where
  pub id : Option ℕ
  pub email : Text
  pub workos_user_id : Option Text
  pub username : Option Text
  pub email_verified : Bool

pub record Session : Type 0 where
  pub access_token : Text
  pub id : ℕ
  pub email : Text

-- The claims of a token that passport has verified.
pub record Payload : Type 0 where
  pub sub : ℕ
  pub email : Text
  pub iat : Option ℕ

abbrev pub is_set : Option ℕ → Bool
is_set none = false
is_set (some t) = true

abbrev pub locked_out : Error
locked_out =
    unauthorized
      "This account was recovered to a new account and can no longer sign in. Sign in with the new account."

abbrev pub no_id : Error
no_id = failure "null value in column \"id\""

abbrev pub is_workos : Text → User → Bool
is_workos id u = hash_is id u.workos_user_id

abbrev pub has_email : Text → User → Bool
has_email email u = text_eq u.email email

abbrev pub row_of : ℕ → NewUser → User
row_of id n = record {
  id = id;
  email = n.email;
  workos_user_id = n.workos_user_id;
  username = n.username;
  email_verified = n.email_verified;
  locked_at = none;
  sessions_valid_after = none;
}

abbrev pub save_user : User → World → World
save_user u s = record s {
  db = record s.db { users = update_by (λ r. r.id == u.id) (λ _. u) s.users };
}

-- The first save of a user: an update where the id is taken, otherwise an insert, under the
-- constraints on the id and the email.
unfoldable pub insert_user : NewUser → Option ℕ → Exec World User
insert_user n none s = (err no_id, s)
insert_user n (some id) s =
    if any_by (λ r. r.id == id) s.users
    then (ok (row_of id n), save_user (row_of id n) s)
    else if any_by (has_email n.email) s.users
    then (err (failure "duplicate key value violates unique constraint"), s)
    else (ok (row_of id n), record s { db = record s.db { users = s.users ++ row_of id n ∷ [] } })

-- Whether an account is linked to another identity.
unfoldable pub linked_elsewhere : Text → Option Text → Bool
linked_elsewhere id none = false
linked_elsewhere id (some []) = false
linked_elsewhere id (some (c ∷ cs)) = not (text_eq (c ∷ cs) id)

-- The linking of an account with the profile's email.
unfoldable pub link : Profile → Option User → Result (Option User)
link profile none = ok none
link profile (some u) =
    if not profile.email_verified
    then err (
        unauthorized
          "Verify your email address with your sign-in provider before signing in to an existing account")
    else if linked_elsewhere profile.workos_user_id u.workos_user_id
    then err (unauthorized "This email is already linked to a different sign-in identity")
    else ok (some (record u { workos_user_id = some profile.workos_user_id }))

-- The account of a profile: the linked one, or else the one with its email.
unfoldable pub account_of : Profile → Option User → Option User → Result (Option User)
account_of profile (some u) by_email = ok (some u)
account_of profile none by_email = link profile by_email

-- The upsert of `loginWithWorkOs`: the row that is saved.
unfoldable pub upsert_user : Profile → Option User → Exec World User
upsert_user profile none =
    insert_user
      (record {
        id = none;
        email = profile.email;
        workos_user_id = some profile.workos_user_id;
        username = or_null profile.first_name;
        email_verified = profile.email_verified;
      })
      none
upsert_user profile (some u) = do
  refuse (is_set u.locked_at) locked_out
  let user = record u { email_verified = u.email_verified || profile.email_verified }
  modify (save_user user)
  pure user

module _ (env : AuthEnv) (now : ℕ) where
  -- `this.recoveryService?.cancelForSignIn`.
  unfoldable pub end_recoveries : ℕ → Exec World (Unit {0})
  end_recoveries user_id = if env.has_recovery then cancel_for_sign_in now user_id else pure tt

  -- The end of a sign-in.
  unfoldable pub open_session : User → Exec World Session
  open_session user = do
    end_recoveries user.id
    pure (record {
      access_token = env.sign now user.id user.email;
      id = user.id;
      email = user.email;
    })

  unfoldable pub login_with_work_os : Profile → Exec World Session
  login_with_work_os profile = do
    linked ← gets (λ s. find_by (is_workos profile.workos_user_id) s.users)
    by_email ← gets (λ s. find_by (has_email profile.email) s.users)
    account ← lift (account_of profile linked by_email)
    user ← upsert_user profile account
    open_session user

  abbrev configured : Result Supabase
  configured = or_err env.supabase (
      unavailable
        "Supabase auth is not configured (use WorkOS auth, or set SUPABASE_URL/SUPABASE_KEY)")

  unfoldable pub signup : Text → Text → Option Text → Exec World User
  signup email password username = do
    supabase ← lift configured
    id ← lift (or_err (supabase.create_user email password) (bad_request "Signup failed"))
    insert_user
        (record {
          id = some id;
          email = email;
          workos_user_id = none;
          username = or_null username;
          email_verified = false;
        })
        (some id)

  unfoldable pub login : Text → Text → Exec World Session
  login email password = do
    supabase ← lift configured
    id ← lift (or_err (supabase.sign_in email password) (unauthorized "Invalid credentials"))
    found ← gets (λ s. find_by (λ u. u.id == id) s.users)
    user ← lift (or_err found (unauthorized "User not found"))
    refuse (is_set user.locked_at) locked_out
    open_session user

pub validate_user : ℕ → World → Result User
validate_user user_id s =
    or_err (find_by (λ u. u.id == user_id) s.users) (unauthorized "User not found")

-- Whether the token is from before the account's sessions were revoked.
unfoldable pub is_revoked : Option ℕ → Option ℕ → Bool
is_revoked none iat = false
is_revoked (some t) none = ltb 0 t
is_revoked (some t) (some iat) = ltb (iat * 1000) t

unfoldable pub admit : Payload → Option User → Result (ℕ × Text)
admit payload none = err (unauthorized "Unauthorized")
admit payload (some u) =
    if is_set u.locked_at || is_revoked u.sessions_valid_after payload.iat
    then err (unauthorized "Unauthorized")
    else ok (payload.sub, payload.email)

-- `validate` of the JWT strategy: the user of a request.
unfoldable pub validate : Payload → World → Result (ℕ × Text)
validate payload s = admit payload (find_by (λ u. u.id == payload.sub) s.users)
