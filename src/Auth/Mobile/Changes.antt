-- ===== src/Auth/Mobile/Changes.antt =====
-- What the requests of auth.controller.ts do to the store of one-time values, in steps.
use open_privy.Base.{
  Exec, Error, refuse, ℕ, ◌+◌, ◌≤◌, ◌<◌, Text, text_eq, text_eq_iff, Bool, true, false, List, [],
  ◌∷◌, Option, none, some, Result, ok, err, ◌≡◌, ◌≢◌, refl, ◌∙◌, ap, subst, arith, Bool-cases, inl,
  inr, ◌⊎◌, if◌then◌else◌,
}
use open_privy.Base.Actions.{next}
use open_privy.Store.{World}
use open_privy.Auth.OneTime.{OneTimeStore}
use open_privy.Auth.Mobile.{
  ControllerEnv, Site, mstate_key, mcode_key, workos_authorize, workos_mobile_start,
  sign_in_with_code, callback_for, workos_callback, redeem, workos_mobile_exchange, invalid_state,
  invalid_code,
}

-- The requests of the controller, each with its time.
pub data Call : Type 0 where
  authorize : (organization : Option Text) → Call
  mobile_start : (now : ℕ) (code_challenge : Text) (organization : Option Text) → Call
  callback : (now : ℕ) (cookie : Option Text) (code state : Text) → Call
  exchange : (now : ℕ) (code code_verifier : Text) → Call

abbrev pub ok_count : {A : Type 0} → Result A → ℕ
ok_count (ok a) = 1
ok_count (err e) = 0

pub ok_count-cases : {A : Type 0} (r : Result A) → (ok_count r ≡ 0) ⊎ (ok_count r ≡ 1)
ok_count-cases (ok a) = inr refl
ok_count-cases (err e) = inl refl

second_unit : Text → ℕ
second_unit (a ∷ b ∷ s) = b
second_unit _ = 0

pub mstate-neq-mcode : (code state : Text) → mstate_key state ≢ mcode_key code
unfolding second_unit
mstate-neq-mcode code state e = omega (arith, ap second_unit e)

mcode_key-injective : (a b : Text) → mcode_key a ≡ mcode_key b → a ≡ b
mcode_key-injective a b e = cc

module _ (env : ControllerEnv) (store : OneTimeStore) where
  abbrev pub after : Call → Site store → Site store
  after (authorize organization) s = (workos_authorize env store organization s).1
  after (mobile_start now code_challenge organization) s =
      (workos_mobile_start env store now code_challenge organization s).1
  after (callback now cookie code state) s = (workos_callback env store now cookie code state s).1
  after (exchange now code code_verifier) s =
      (workos_mobile_exchange env store now code code_verifier s).1

  -- Whether the call is a redemption of the code that yields a token.
  abbrev pub redeemed : Text → Call → Site store → ℕ
  redeemed code (exchange now c code_verifier) s =
      if text_eq c code
      then ok_count (workos_mobile_exchange env store now c code_verifier s).0
      else 0
  redeemed code _ s = 0

  unfoldable pub redemptions : Text → List Call → Site store → ℕ
  redemptions code [] s = 0
  redemptions code (call ∷ calls) s = redeemed code call s + redemptions code calls (after call s)

  -- The store gives nothing for the code, at any time.
  abbrev pub Spent : Text → Site store → Type 0
  Spent code s = (t : ℕ) → store.holds t (mcode_key code) s.values ≡ none

  -- The codes that are still to be drawn are not in the store.
  abbrev pub IsFresh : Site store → Type 0
  IsFresh s = (i : ℕ) → s.drawn ≤ i → Spent (env.random_base64url i) s

  -- What a handler does to the site, in steps.
  pub data Change : Site store → Site store → Type 0 where
    idle : (s : Site store) (w : World) → Change s (record s { world = w })
    drew : (s : Site store) → Change s (record s { drawn = s.drawn + 1 })
    took :
        (s : Site store) (now : ℕ) (key : Text)
        → Change s (record s { values = (store.take_value now key s.values).1 })
    began :
        (s : Site store) (now : ℕ) (state value : Text) (ttl : ℕ)
        → Change s (record s { values = store.put_value now (mstate_key state) value ttl s.values })
    issued :
        (s : Site store) (now : ℕ) (value : Text) (ttl : ℕ)
        → Change s (record s {
          values =
              store.put_value now (mcode_key (env.random_base64url s.drawn)) value ttl s.values;
          drawn = s.drawn + 1;
        })
    then_ : {s t u : Site store} → Change s t → Change t u → Change s u

  pub Change-drawn : {s t : Site store} → Change s t → s.drawn ≤ t.drawn
  Change-drawn (idle s w) = omega arith
  Change-drawn (drew s) = omega arith
  Change-drawn (took s now key) = omega arith
  Change-drawn (began s now state value ttl) = omega arith
  Change-drawn (issued s now value ttl) = omega arith
  Change-drawn (then_ c d) = omega (arith, Change-drawn c, Change-drawn d)

  pub Change-Spent :
      {s t : Site store} (code : Text)
      → Change s t
      → ((i : ℕ) → s.drawn ≤ i → i < t.drawn → env.random_base64url i ≢ code)
      → Spent code s
      → Spent code t
  Change-Spent code (idle s w) new h = h
  Change-Spent code (drew s) new h = h
  Change-Spent code (took s now key) new h = λ later.
      elim (Bool-cases (text_eq key (mcode_key code))) [
        | inl same ↦
            subst (λ k. store.holds later k (store.take_value now key s.values).1 ≡ none)
              ((text_eq_iff key (mcode_key code)).0 same) (store.take-gone now later key s.values)
        | inr other ↦
            store.take-other now later key (mcode_key code) s.values
              (λ e. absurd (clash other ((text_eq_iff key (mcode_key code)).1 e)))
            ∙ h later
      ]
    where
      clash : {b : Bool} → b ≡ false → b ≡ true → ⊥
      clash e f = absurd (cc)
  Change-Spent code (began s now state value ttl) new h = λ later.
      store.put-other now later (mstate_key state) (mcode_key code) value ttl s.values
        (mstate-neq-mcode code state)
      ∙ h later
  Change-Spent code (issued s now value ttl) new h = λ later.
      store.put-other now later (mcode_key (env.random_base64url s.drawn)) (mcode_key code) value
        ttl s.values (λ e. new s.drawn (omega arith) (omega arith) (mcode_key-injective _ _ e))
      ∙ h later
  Change-Spent code (then_ c d) new h =
      Change-Spent code d (λ i low high. new i (omega (arith, Change-drawn c)) high)
        (Change-Spent code c (λ i low high. new i low (omega (arith, Change-drawn d))) h)

  stay : (s : Site store) → Change s s
  stay s = idle s s.world

  next-Change :
      {A B : Type 0} (s : Site store) (r : Result A × Site store) (f : A → Exec (Site store) B)
      → Change s r.1
      → ((a : A) (t : Site store) → Change t (f a t).1)
      → Change s (next r f).1
  next-Change s (ok a, t) f c d = then_ c (d a t)
  next-Change s (err e, t) f c d = c

  refuse-Change : (b : Bool) (e : Error) (s : Site store) → Change s (refuse b e s).1
  refuse-Change true e s = stay s
  refuse-Change false e s = stay s

  sign_in-Change :
      (now : ℕ) (code : Text) (s : Site store) → Change s (sign_in_with_code env store now code s).1
  unfolding sign_in_with_code
  sign_in-Change now code s =
      next-Change s (env.authenticate_with_code now code, s) _ (stay s) (λ profile t. idle t _)

  web-Change :
      (now : ℕ) (cookie : Option Text) (code state : Text) (s : Site store)
      → Change s (callback_for env store now cookie code state none s).1
  unfolding callback_for
  web-Change now none code state s = stay s
  web-Change now (some expected) code state s =
      next-Change s _ _ (refuse-Change _ invalid_state s) (λ _ t.
        next-Change t (sign_in_with_code env store now code t) _ (sign_in-Change now code t)
          (λ session u. stay u))

  callback_for-Change :
      (now : ℕ) (cookie : Option Text) (code state : Text) (challenge : Option Text)
      (s : Site store)
      → Change s (callback_for env store now cookie code state challenge s).1
  unfolding callback_for
  callback_for-Change now cookie code state none s = web-Change now cookie code state s
  callback_for-Change now cookie code state (some []) s = web-Change now cookie code state s
  callback_for-Change now cookie code state (some (c ∷ challenge)) s =
      next-Change s (sign_in_with_code env store now code s) _ (sign_in-Change now code s)
        (λ session t. issued t now (env.stringify session.access_token (c ∷ challenge)) 60)

  redeem-Change :
      (code_verifier : Text) (stored : Option Text) (s : Site store)
      → Change s (redeem env store code_verifier stored s).1
  unfolding redeem
  redeem-Change code_verifier none s = stay s
  redeem-Change code_verifier (some []) s = stay s
  redeem-Change code_verifier (some (c ∷ stored)) s =
      next-Change s (env.parse (c ∷ stored), s) _ (stay s)
        (λ saved t. next-Change t _ _ (refuse-Change _ invalid_code t) (λ _ u. stay u))

  pub after-Change : (call : Call) (s : Site store) → Change s (after call s)
  unfolding workos_authorize workos_mobile_start workos_callback workos_mobile_exchange redeem
  after-Change (authorize organization) s = then_ (drew s) (
      next-Change _ (env.authorization_url (env.random_hex s.drawn) organization, _) _ (stay _)
        (λ url t. stay t))
  after-Change (mobile_start now code_challenge organization) s =
      next-Change s _ _ (refuse-Change _ _ s) (λ _ t. then_ (drew t) (
        next-Change _ (env.authorization_url (env.random_hex t.drawn) organization, _) _ (stay _)
          (λ url u. began u now (env.random_hex t.drawn) code_challenge 600)))
  after-Change (callback now cookie code state) s =
      next-Change s _ _ (refuse-Change _ invalid_state s) (λ _ t.
        then_ (took t now (mstate_key state)) (callback_for-Change now cookie code state _ _))
  after-Change (exchange now [] code_verifier) s = stay s
  after-Change (exchange now (c ∷ code) code_verifier) s =
      then_ (took s now (mcode_key (c ∷ code))) (redeem-Change code_verifier _ _)

  pub after-IsFresh :
      ((i j : ℕ) → env.random_base64url i ≡ env.random_base64url j → i ≡ j)
      → (call : Call) (s : Site store) → IsFresh s
      → IsFresh (after call s)
  after-IsFresh distinct call s fresh i later =
      Change-Spent (env.random_base64url i) (after-Change call s)
        (λ j low high e. absurd (omega (arith, distinct j i e)))
        (fresh i (omega (arith, Change-drawn (after-Change call s))))
