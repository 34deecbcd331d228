-- ===== src/Auth/Mobile.antt =====
-- services/backend/src/modules/auth/auth.controller.ts: the sign-in through WorkOS, of a browser and of the
-- mobile app with a PKCE challenge. Node's crypto and JSON, and WorkOS, are parameters. A response is
-- where it redirects to, with the token of the session cookie.
pub mod Changes
pub mod Once
pub mod Flow
use open_privy.Base.{
  ℕ, ◌+◌, Text, text_eq, length, Bool, true, false, not, ◌&&◌, ◌||◌, List, [], ◌∷◌, ◌++◌, Option,
  none, some, Error, bad_request, unauthorized, Result, ok, err, leb, ◌==◌, if◌then◌else◌, Exec,
  pure, lift, modify, raise, refuse, codes, is_base64url,
}
use open_privy.Base.Actions.{◌>>=◌, ◌>>◌}
use open_privy.Store.{World}
use open_privy.Auth.{AuthEnv, Profile, Session, login_with_work_os}
use open_privy.Auth.OneTime.{OneTimeStore}

pub record ControllerEnv : Type 0 where
  pub auth : AuthEnv
  -- `getAuthorizationUrl` and `authenticateWithCode` of workos.service.ts.
  pub authorization_url : (state : Text) (organization : Option Text) → Result Text
  pub authenticate_with_code : (now : ℕ) (code : Text) → Result Profile
  -- The n-th random value, as hex and as base64url.
  pub random_hex : ℕ → Text
  pub random_base64url : ℕ → Text
  -- `createHash('sha256').update(_).digest('base64url')`.
  pub sha256_base64url : Text → Text
  -- `JSON.stringify` and `JSON.parse` of a token and a challenge.
  pub stringify : (token challenge : Text) → Text
  pub parse : Text → Result (Text × Text)

-- What the handlers work on: the database, the store, and how many random values have been drawn.
pub record Site (store : OneTimeStore) : Type 0 where
  pub world : World
  pub values : store.State
  pub drawn : ℕ

-- A redirect to the app with a code, or to the dashboard with the session cookie.
pub data Redirect : Type 0 where
  to_app : (code : Text) → Redirect
  to_dashboard : (access_token : Text) → Redirect

abbrev pub mstate_key : Text → Text
mstate_key state = codes "mstate:" ++ state

abbrev pub mcode_key : Text → Text
mcode_key code = codes "mcode:" ++ code

abbrev pub invalid_state : Error
invalid_state = unauthorized "Invalid OAuth state or missing code"

abbrev pub invalid_code : Error
invalid_code = unauthorized "Sign-in code is invalid, expired or already used"

unfoldable pub all_units : (ℕ → Bool) → Text → Bool
all_units p [] = true
all_units p (c ∷ s) = p c && all_units p s

-- `BASE64URL_43`.
unfoldable pub base64url_43 : Text → Bool
base64url_43 s = length s == 43 && all_units is_base64url s

-- `[A-Za-z0-9._~-]{43,128}`.
unfoldable pub is_code_verifier : Text → Bool
is_code_verifier s =
    leb 43 (length s)
    && leb (length s) 128
    && all_units (λ c. is_base64url c || c == b'.' || c == b'~') s

-- The text is there and not empty.
abbrev pub is_truthy : Option Text → Bool
is_truthy none = false
is_truthy (some []) = false
is_truthy (some (c ∷ s)) = true

module _ (env : ControllerEnv) where
  unfoldable pub pkce_matches : (code_verifier code_challenge : Text) → Bool
  pkce_matches code_verifier code_challenge =
      if not (is_code_verifier code_verifier)
      then false
      else text_eq (env.sha256_base64url code_verifier) code_challenge

module _ (env : ControllerEnv) (store : OneTimeStore) where
  abbrev pub on_world : {A : Type 0} → Exec World A → Exec (Site store) A
  on_world m s = ((m s.world).0, record s { world = (m s.world).1 })

  abbrev pub take_once : ℕ → Text → Exec (Site store) (Option Text)
  take_once now key s = (
    ok (store.take_value now key s.values).0,
    record s { values = (store.take_value now key s.values).1 },
  )

  abbrev pub put_once : ℕ → Text → Text → ℕ → Exec (Site store) (Unit {0})
  put_once now key value ttl =
      modify (λ s. record s { values = store.put_value now key value ttl s.values })

  abbrev pub draw : (ℕ → Text) → Exec (Site store) Text
  draw random s = (ok (random s.drawn), record s { drawn = s.drawn + 1 })

  -- The URL, and the state of the cookie.
  unfoldable pub workos_authorize : Option Text → Exec (Site store) (Text × Text)
  workos_authorize organization = do
    state ← draw env.random_hex
    url ← lift (env.authorization_url state organization)
    pure (url, state)

  unfoldable pub workos_mobile_start : ℕ → Text → Option Text → Exec (Site store) Text
  workos_mobile_start now code_challenge organization = do
    refuse (not (base64url_43 code_challenge))
        (bad_request "codeChallenge must be a base64url SHA-256 (43 chars)")
    state ← draw env.random_hex
    url ← lift (env.authorization_url state organization)
    put_once now (mstate_key state) code_challenge 600
    pure url

  -- The profile of the code, signed in.
  unfoldable pub sign_in_with_code : ℕ → Text → Exec (Site store) Session
  sign_in_with_code now code = do
    profile ← lift (env.authenticate_with_code now code)
    on_world (login_with_work_os env.auth now profile)

  -- The rest of `workosCallback`, for the challenge that the state stands for, if any.
  unfoldable pub callback_for :
      ℕ → Option Text → Text → Text → Option Text → Exec (Site store) Redirect
  callback_for now cookie code state (some (c ∷ challenge)) = do
    session ← sign_in_with_code now code
    handoff ← draw env.random_base64url
    put_once now (mcode_key handoff) (env.stringify session.access_token (c ∷ challenge)) 60
    pure (to_app handoff)
  callback_for now none code state _ = raise invalid_state
  callback_for now (some expected) code state _ = do
    refuse (not (is_truthy (some expected)) || not (text_eq state expected)) invalid_state
    session ← sign_in_with_code now code
    pure (to_dashboard session.access_token)

  unfoldable pub workos_callback : ℕ → Option Text → Text → Text → Exec (Site store) Redirect
  workos_callback now cookie code state = do
    refuse (not (is_truthy (some code)) || not (is_truthy (some state))) invalid_state
    challenge ← take_once now (mstate_key state)
    callback_for now cookie code state challenge

  -- The token of what was stored, for the right verifier.
  unfoldable pub redeem : Text → Option Text → Exec (Site store) Text
  redeem code_verifier (some (c ∷ stored)) = do
    saved ← lift (env.parse (c ∷ stored))
    refuse (not (pkce_matches env code_verifier saved.1)) invalid_code
    pure saved.0
  redeem code_verifier _ = raise invalid_code

  unfoldable pub workos_mobile_exchange : ℕ → Text → Text → Exec (Site store) Text
  workos_mobile_exchange now [] code_verifier = redeem code_verifier none
  workos_mobile_exchange now (c ∷ code) code_verifier = do
    stored ← take_once now (mcode_key (c ∷ code))
    redeem code_verifier stored
