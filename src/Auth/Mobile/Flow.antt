-- ===== src/Auth/Mobile/Flow.antt =====
-- The mobile sign-in of auth.controller.ts from its start to the token: start, callback, exchange.
use open_privy.Base.{
  ℕ, ◌+◌, ◌*◌, ◌<◌, Text, true, [], ◌∷◌, Option, none, some, Result, ok, err, ◌≡◌, ◌≢◌, refl, ◌∙◌,
  if◌then◌else◌, Bool-cases, inl, inr,
}
use open_privy.Store.{World}
use open_privy.Auth.{Profile, Session, login_with_work_os}
use open_privy.Auth.OneTime.{OneTimeStore}
use open_privy.Auth.Mobile.{
  ControllerEnv, Site, Redirect, to_app, mstate_key, mcode_key, is_truthy, base64url_43,
  pkce_matches, workos_mobile_start, sign_in_with_code, callback_for, workos_callback, redeem,
  workos_mobile_exchange, invalid_code,
}
use open_privy.Auth.Mobile.Changes.{mstate-neq-mcode}

-- What is written as JSON is read back, and is not the empty text.
pub record JsonLaws (env : ControllerEnv) : Type 0 where
  pub parse_stringify :
      (token challenge : Text) → env.parse (env.stringify token challenge) ≡ ok (token, challenge)
  pub stringify_full : (token challenge : Text) → env.stringify token challenge ≢ []

base64url_43-truthy : (t : Text) → base64url_43 t ≡ true → is_truthy (some t) ≡ true
unfolding base64url_43
base64url_43-truthy [] e = absurd (cc)
base64url_43-truthy (c ∷ t) e = refl

module _ (env : ControllerEnv) (store : OneTimeStore) where
  -- The site after the start, with the challenge under the state.
  abbrev started : ℕ → Text → Site store → Site store
  started now challenge s = record s {
    values = store.put_value now (mstate_key (env.random_hex s.drawn)) challenge 600 s.values;
    drawn = s.drawn + 1;
  }

  start-ok :
      (now : ℕ) (challenge url : Text) (organization : Option Text) (s : Site store)
      → base64url_43 challenge ≡ true
      → env.authorization_url (env.random_hex s.drawn) organization ≡ ok url
      → workos_mobile_start env store now challenge organization s
        ≡ (ok url, started now challenge s)
  unfolding workos_mobile_start
  start-ok now challenge url organization s shaped at = rw shaped (rw at refl)

  -- The site after a callback of the app, with the token under the code.
  abbrev called_back : ℕ → Text → Session → World → Text → Site store → Site store
  called_back now challenge session w state s = record {
    world = w;
    values =
        store.put_value now (mcode_key (env.random_base64url s.drawn))
          (env.stringify session.access_token challenge) 60
          (store.take_value now (mstate_key state) s.values).1;
    drawn = s.drawn + 1;
  }

  sign_in-ok :
      (now : ℕ) (code : Text) (profile : Profile) (session : Session) (w : World) (s : Site store)
      → env.authenticate_with_code now code ≡ ok profile
      → login_with_work_os env.auth now profile s.world ≡ (ok session, w)
      → sign_in_with_code env store now code s ≡ (ok session, record s { world = w })
  unfolding sign_in_with_code
  sign_in-ok now code profile session w s known entered = rw known (rw entered refl)

  callback-ok :
      (now : ℕ) (cookie : Option Text) (code state challenge : Text) (profile : Profile)
      (session : Session) (w : World) (s : Site store)
      → is_truthy (some code) ≡ true
      → is_truthy (some state) ≡ true
      → is_truthy (some challenge) ≡ true
      → store.holds now (mstate_key state) s.values ≡ some challenge
      → env.authenticate_with_code now code ≡ ok profile
      → login_with_work_os env.auth now profile s.world ≡ (ok session, w)
      → workos_callback env store now cookie code state s
        ≡ (ok (to_app (env.random_base64url s.drawn)), called_back now challenge session w state s)
  unfolding workos_callback callback_for
  callback-ok now cookie code state [] profile session w s c t u held known entered = absurd (cc)
  callback-ok now cookie code state (x ∷ challenge) profile session w s c t u held known entered =
      rw c (
        rw t (
          rw (store.take-answer now (mstate_key state) s.values ∙ held) (
            rw
              (sign_in-ok now code profile session w
                (record s { values = (store.take_value now (mstate_key state) s.values).1 }) known
                entered)
              refl)))

  -- What a verifier gets for a challenge.
  abbrev pub answer : Text → Text → Text → Result Text
  answer token challenge code_verifier =
      if pkce_matches env code_verifier challenge then ok token else err invalid_code

  redeem-stored :
      (laws : JsonLaws env) (code_verifier token challenge : Text) (s : Site store)
      → (redeem env store code_verifier (some (env.stringify token challenge)) s).0
        ≡ answer token challenge code_verifier
  unfolding redeem
  redeem-stored laws code_verifier token challenge s =
      read (env.stringify token challenge) (laws.parse_stringify token challenge)
        (laws.stringify_full token challenge)
    where
      read :
          (stored : Text)
          → env.parse stored ≡ ok (token, challenge)
          → stored ≢ []
          → (redeem env store code_verifier (some stored) s).0
            ≡ answer token challenge code_verifier
      read [] known full = absurd (full refl)
      read (c ∷ stored) known full =
          rw known (elim (Bool-cases (pkce_matches env code_verifier challenge)) [
            | inl yes_ ↦ rw yes_ refl
            | inr no_ ↦ rw no_ refl
          ])

  exchange-held :
      (laws : JsonLaws env) (now : ℕ) (code code_verifier token challenge : Text) (s : Site store)
      → is_truthy (some code) ≡ true
      → store.holds now (mcode_key code) s.values ≡ some (env.stringify token challenge)
      → (workos_mobile_exchange env store now code code_verifier s).0
        ≡ answer token challenge code_verifier
  unfolding workos_mobile_exchange
  exchange-held laws now [] code_verifier token challenge s c held = absurd (cc)
  exchange-held laws now (x ∷ code) code_verifier token challenge s c held =
      rw (store.take-answer now (mcode_key (x ∷ code)) s.values ∙ held)
        (redeem-stored laws code_verifier token challenge _)

  -- A mobile sign-in that is started with a challenge of the right shape, called back within ten minutes with the
  -- state of the start and a code of the provider whose profile can sign in, and exchanged within a
  -- minute with the code of that callback, ends: the start gives the URL, the callback redirects to the
  -- app, and the exchange gives the token of that sign-in to a verifier that matches the challenge and
  -- refuses every other verifier. The random values must not be in the store yet.
  pub mobile_sign_in-answer :
      (laws : JsonLaws env) (t0 t1 t2 : ℕ) (challenge url code code_verifier : Text)
      (organization cookie : Option Text) (profile : Profile) (session : Session) (w : World)
      (s : Site store)
      → base64url_43 challenge ≡ true
      → is_truthy (some code) ≡ true
      → is_truthy (some (env.random_hex s.drawn)) ≡ true
      → is_truthy (some (env.random_base64url (s.drawn + 1))) ≡ true
      → ((t : ℕ) → store.holds t (mstate_key (env.random_hex s.drawn)) s.values ≡ none)
      → ((t : ℕ) → store.holds t (mcode_key (env.random_base64url (s.drawn + 1))) s.values ≡ none)
      → env.authorization_url (env.random_hex s.drawn) organization ≡ ok url
      → t1 < t0 + 600 * 1000
      → env.authenticate_with_code t1 code ≡ ok profile
      → login_with_work_os env.auth t1 profile s.world ≡ (ok session, w)
      → t2 < t1 + 60 * 1000
      → (let start : Result Text × Site store =
            workos_mobile_start env store t0 challenge organization s in
          let back : Result Redirect × Site store =
            workos_callback env store t1 cookie code (env.random_hex s.drawn) start.1 in
          let end_ : Result Text × Site store =
            workos_mobile_exchange env store t2
              (env.random_base64url (s.drawn + 1))
              code_verifier
              back.1 in
          (start.0 ≡ ok url)
          × (back.0 ≡ ok (to_app (env.random_base64url (s.drawn + 1))))
          × (end_.0 ≡ answer session.access_token challenge code_verifier))
  mobile_sign_in-answer laws t0 t1 t2 challenge url code code_verifier organization cookie profile
        session w s shaped given state handoff new_state new_code at soon known entered in_time =
      (rw e1 refl, rw e1 (rw e2 refl), rw e1 (rw e2 e3))
    where
      e1 :
          workos_mobile_start env store t0 challenge organization s
          ≡ (ok url, started t0 challenge s)
      e1 = start-ok t0 challenge url organization s shaped at

      e2 :
          workos_callback env store t1 cookie code (env.random_hex s.drawn) (started t0 challenge s)
          ≡ (
            ok (to_app (env.random_base64url (s.drawn + 1))),
            called_back t1 challenge session w (env.random_hex s.drawn) (started t0 challenge s),
          )
      e2 =
          callback-ok t1 cookie code (env.random_hex s.drawn) challenge profile session w
            (started t0 challenge s) given state (base64url_43-truthy challenge shaped)
            (store.put-live t0 t1 (mstate_key (env.random_hex s.drawn)) challenge 600 s.values
              new_state soon)
            known entered

      e3 :
          (workos_mobile_exchange env store t2 (env.random_base64url (s.drawn + 1)) code_verifier (
            called_back t1 challenge session w (env.random_hex s.drawn) (started t0 challenge s))).0
          ≡ answer session.access_token challenge code_verifier
      e3 =
          exchange-held laws t2 (env.random_base64url (s.drawn + 1)) code_verifier
            session.access_token challenge
            (called_back t1 challenge session w (env.random_hex s.drawn) (started t0 challenge s))
            handoff
            (store.put-live t1 t2 (mcode_key (env.random_base64url (s.drawn + 1)))
              (env.stringify session.access_token challenge) 60 _ unused in_time)
        where
          unused :
              (t : ℕ)
              → store.holds t
                  (mcode_key (env.random_base64url (s.drawn + 1)))
                  (store.take_value t1
                    (mstate_key (env.random_hex s.drawn))
                    (started t0 challenge s).values).1
                ≡ none
          unused t =
              store.take-other t1 t (mstate_key (env.random_hex s.drawn))
                (mcode_key (env.random_base64url (s.drawn + 1))) (started t0 challenge s).values
                (mstate-neq-mcode _ _)
              ∙ store.put-other t0 t (mstate_key (env.random_hex s.drawn))
                  (mcode_key (env.random_base64url (s.drawn + 1))) challenge 600 s.values
                  (mstate-neq-mcode _ _)
              ∙ new_code t
