-- ===== src/Signing/LowS.antt =====
-- The signatures of hsm-signing-key.ts.
use open_privy.Base.{
  ℕ, ◌+◌, ◌/◌, ◌≤◌, Text, text_eq, to_lower, length, take, drop, List, [], ◌∷◌, Result, ok, err,
  ◌≡◌, ◌==◌, arith, Error, text_eq_iff, ==_iff, Bool-cases, inl, inr, ◌⊎◌, sym, ◌∙◌, ap, subst,
}
use open_privy.Base.Errors.{>>=-eq-ok}
use open_privy.Signing.{
  secp256k1_order, Signature, Session, HsmSigningKey, low_s, try_parities, sign,
}

low_s-bound :
    (s low : ℕ)
    → low_s s ≡ ok low
    → (low ≤ secp256k1_order / 2) × ((low ≡ s) ⊎ (low + s ≡ secp256k1_order))
unfolding low_s
low_s-bound s low h = ground arith

ok-injective : {x y : Signature} → (let r : Result Signature = ok x in r) ≡ ok y → x ≡ y
ok-injective h = cc

module _ (session : Session) (key : HsmSigningKey) (digest : Text) where
  -- The signature recovers to the address of the key.
  abbrev pub Recovers : Signature → Type 0
  Recovers sig =
      (a : Text) × (session.recover_address digest sig.r sig.s sig.v ≡ ok a)
      × (to_lower a ≡ to_lower (session.compute_address key.public_key))

  try_parities-ok :
      (r s : ℕ) (vs : List ℕ) (sig : Signature)
      → try_parities session digest key.public_key r s vs ≡ ok sig
      → (sig.r ≡ r) × (sig.s ≡ s) × Recovers sig
  unfolding try_parities
  try_parities-ok r s [] sig h = absurd (cc)
  try_parities-ok r s (v ∷ vs) sig h =
      let (a, recovered, h1) = >>=-eq-ok (session.recover_address digest r s v) _ h in
      elim (Bool-cases (text_eq (to_lower a) (to_lower (session.compute_address key.public_key)))) [
        | inr other ↦ try_parities-ok r s vs sig (rw other at h1)
        | inl same ↦
            let done = ok-injective (rw same at h1) in
            (
              sym (ap (λ (x : Signature). x.r) done),
              sym (ap (λ (x : Signature). x.s) done),
              subst Recovers done (
                a,
                recovered,
                (text_eq_iff (to_lower a) (to_lower (session.compute_address key.public_key))).0
                    same,
              ),
            )
      ]

  -- A signature that is given is of a digest of 32 bytes; its s is in the lower half of the order, is the token's
  -- or the token's taken from the order, and it recovers to the address of the key, up to the case
  -- of letters.
  pub sign-low :
      (sig : Signature)
      → sign session key digest ≡ ok sig
      → (length digest ≡ 32)
        × (sig.s ≤ secp256k1_order / 2)
        × Recovers sig
        × (raw : Text) × (s : ℕ) × (session.sign_once key.private_key digest ≡ ok raw)
        × (session.to_number (take 32 raw) ≡ ok sig.r)
        × (session.to_number (take 32 (drop 32 raw)) ≡ ok s)
        × ((sig.s ≡ s) ⊎ (sig.s + s ≡ secp256k1_order))
  unfolding sign
  sign-low sig h = elim (Bool-cases (length digest == 32)) [
    | inr other ↦ absurd (refused (rw other at h))
    | inl whole ↦
        let (raw, given, h1) =
          >>=-eq-ok (session.sign_once key.private_key digest) _ (rw whole at h) in
        let (r, low_r, h2) = >>=-eq-ok (session.to_number (take 32 raw)) _ h1 in
        let (s, high, h3) = >>=-eq-ok (session.to_number (take 32 (drop 32 raw))) _ h2 in
        let (low, lowered, h4) = >>=-eq-ok (low_s s) _ h3 in
        let (same_r, same_s, recovers) = try_parities-ok r low (27 ∷ 28 ∷ []) sig h4 in
        let (bound, origin) = low_s-bound s low lowered in
        (
          (==_iff (length digest) 32).0 whole,
          subst (λ n. n ≤ secp256k1_order / 2) (sym same_s) bound,
          recovers,
          raw,
          s,
          given,
          low_r ∙ ap ok (sym same_r),
          high,
          subst (λ n. (n ≡ s) ⊎ (n + s ≡ secp256k1_order)) (sym same_s) origin,
        )
  ]
    where
      refused : {e : Error} → (let r : Result Signature = err e in r) ≡ ok sig → ⊥
      refused h = absurd (cc)
