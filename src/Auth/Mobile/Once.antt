-- ===== src/Auth/Mobile/Once.antt =====
-- How often a code of the mobile sign-in is redeemed, whatever requests reach auth.controller.ts, in whatever
-- order.
use open_privy.Base.{
  ℕ, ◌≤◌, ◌<◌, Text, text_eq, text_eq_iff, List, [], ◌∷◌, Option, none, some, Result, ok, err, ◌≡◌,
  ◌≢◌, refl, ◌∙◌, subst, arith, Bool-cases, inl, inr, ◌⊎◌,
}
use open_privy.Auth.OneTime.{OneTimeStore}
use open_privy.Auth.Mobile.{
  ControllerEnv, Site, mcode_key, redeem, workos_mobile_exchange, pkce_matches,
}
use open_privy.Auth.Mobile.Changes.{
  Call, authorize, mobile_start, callback, exchange, ok_count, after, redeemed, redemptions, Spent,
  IsFresh, Change-drawn, Change-Spent, after-Change, after-IsFresh, ok_count-cases,
}

module _ (env : ControllerEnv) (store : OneTimeStore) where
  redeem-site :
      (code_verifier : Text) (stored : Option Text) (s : Site store)
      → (redeem env store code_verifier stored s).1 ≡ s
  unfolding redeem
  redeem-site code_verifier none s = refl
  redeem-site code_verifier (some []) s = refl
  redeem-site code_verifier (some (c ∷ stored)) s = parsed (env.parse (c ∷ stored)) refl
    where
      parsed :
          (r : Result (Text × Text))
          → env.parse (c ∷ stored) ≡ r
          → (redeem env store code_verifier (some (c ∷ stored)) s).1 ≡ s
      parsed (err e) at = rw at refl
      parsed (ok saved) at = elim (Bool-cases (pkce_matches env code_verifier saved.1)) [
        | inl yes_ ↦ rw at (rw yes_ refl)
        | inr no_ ↦ rw at (rw no_ refl)
      ]

  exchange-Spent :
      (now : ℕ) (c : ℕ) (code code_verifier : Text) (s : Site store)
      → Spent env store
          (c ∷ code)
          (workos_mobile_exchange env store now (c ∷ code) code_verifier s).1
  unfolding workos_mobile_exchange
  exchange-Spent now c code code_verifier s =
      rw
        (redeem-site code_verifier (store.take_value now (mcode_key (c ∷ code)) s.values).0
          (record s { values = (store.take_value now (mcode_key (c ∷ code)) s.values).1 }))
        (λ later. store.take-gone now later (mcode_key (c ∷ code)) s.values)

  exchange-empty :
      (now : ℕ) (code_verifier : Text) (s : Site store)
      → ok_count (workos_mobile_exchange env store now [] code_verifier s).0 ≡ 0
  unfolding workos_mobile_exchange redeem
  exchange-empty now code_verifier s = refl

  redeemed-cases :
      (code : Text) (call : Call) (s : Site store)
      → (redeemed env store code call s ≡ 0) ⊎ (redeemed env store code call s ≡ 1)
  redeemed-cases code (authorize organization) s = inl refl
  redeemed-cases code (mobile_start now code_challenge organization) s = inl refl
  redeemed-cases code (callback now cookie c state) s = inl refl
  redeemed-cases code (exchange now c code_verifier) s = elim (Bool-cases (text_eq c code)) [
    | inl same ↦ rw same (ok_count-cases (workos_mobile_exchange env store now c code_verifier s).0)
    | inr other ↦ rw other (inl refl)
  ]

  exchange-absent :
      (now : ℕ) (code code_verifier : Text) (s : Site store)
      → store.holds now (mcode_key code) s.values ≡ none
      → ok_count (workos_mobile_exchange env store now code code_verifier s).0 ≡ 0
  unfolding workos_mobile_exchange redeem
  exchange-absent now [] code_verifier s h = refl
  exchange-absent now (c ∷ code) code_verifier s h =
      rw (store.take-answer now (mcode_key (c ∷ code)) s.values ∙ h) refl

  Spent-redeemed :
      (code : Text) (call : Call) (s : Site store)
      → Spent env store code s
      → redeemed env store code call s ≡ 0
  Spent-redeemed code (authorize organization) s h = refl
  Spent-redeemed code (mobile_start now code_challenge organization) s h = refl
  Spent-redeemed code (callback now cookie c state) s h = refl
  Spent-redeemed code (exchange now c code_verifier) s h = elim (Bool-cases (text_eq c code)) [
    | inl same ↦
        rw same (exchange-absent now c code_verifier s (rw ((text_eq_iff c code).0 same) (h now)))
    | inr other ↦ rw other refl
  ]

  -- A code that was redeemed is spent, and was not still to be drawn.
  redeemed-Spent :
      (code : Text) (call : Call) (s : Site store)
      → IsFresh env store s
      → 0 < redeemed env store code call s
      → Spent env store code (after env store call s)
        × ((i : ℕ) → s.drawn ≤ i → env.random_base64url i ≢ code)
  redeemed-Spent code call s fresh h = (spent call h, old)
    where
      old : (i : ℕ) → s.drawn ≤ i → env.random_base64url i ≢ code
      old i low e =
          omega (
            arith,
            h,
            Spent-redeemed code call s (subst (λ c. Spent env store c s) e (fresh i low)),
          )

      nothing :
          (code_verifier : Text) (now : ℕ)
          → redeemed env store code (exchange now [] code_verifier) s ≡ 0
      nothing code_verifier now = elim (Bool-cases (text_eq [] code)) [
        | inl same ↦ rw same (exchange-empty now code_verifier s)
        | inr other ↦ rw other refl
      ]

      spent :
          (call : Call)
          → 0 < redeemed env store code call s
          → Spent env store code (after env store call s)
      spent (authorize organization) h = absurd (omega arith)
      spent (mobile_start now code_challenge organization) h = absurd (omega arith)
      spent (callback now cookie c state) h = absurd (omega arith)
      spent (exchange now [] code_verifier) h = absurd (omega (arith, h, nothing code_verifier now))
      spent (exchange now (c ∷ cs) code_verifier) h = elim (Bool-cases (text_eq (c ∷ cs) code)) [
        | inl same ↦
            subst (λ k. Spent env store k (after env store (exchange now (c ∷ cs) code_verifier) s))
              ((text_eq_iff (c ∷ cs) code).0 same) (exchange-Spent now c cs code_verifier s)
        | inr other ↦ absurd (omega (arith, (rw other at h)))
      ]

  Spent-redemptions :
      ((i j : ℕ) → env.random_base64url i ≡ env.random_base64url j → i ≡ j)
      → (code : Text) (calls : List Call) (s : Site store) → Spent env store code s
      → ((i : ℕ) → s.drawn ≤ i → env.random_base64url i ≢ code)
      → redemptions env store code calls s ≡ 0
  unfolding redemptions
  Spent-redemptions distinct code [] s h old = refl
  Spent-redemptions distinct code (call ∷ calls) s h old =
      let c = after-Change env store call s in
      omega (
        arith,
        Spent-redeemed code call s h,
        Spent-redemptions distinct code calls (after env store call s)
            (Change-Spent env store code c (λ i low high. old i low) h)
            (λ i low. old i (omega (arith, Change-drawn env store c))),
      )

  -- Whatever requests arrive, at whatever times and in whatever order, each code yields a token at most once, if
  -- the random values that codes are made of are distinct and those still to be drawn are not yet in
  -- the store.
  pub redemptions-once :
      ((i j : ℕ) → env.random_base64url i ≡ env.random_base64url j → i ≡ j)
      → (code : Text) (calls : List Call) (s : Site store) → IsFresh env store s
      → redemptions env store code calls s ≤ 1
  unfolding redemptions
  redemptions-once distinct code [] s fresh = omega arith
  redemptions-once distinct code (call ∷ calls) s fresh = elim (redeemed-cases code call s) [
    | inl none_ ↦ omega (
      arith,
      none_,
      redemptions-once distinct code calls (after env store call s)
          (after-IsFresh env store distinct call s fresh),
    )
    | inr one ↦
        let c = after-Change env store call s in
        let (spent, old) = redeemed-Spent code call s fresh (omega (arith, one)) in
        omega (
          arith,
          one,
          Spent-redemptions distinct code calls (after env store call s) spent
              (λ i low. old i (omega (arith, Change-drawn env store c))),
        )
  ]
