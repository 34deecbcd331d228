-- ===== src/Rotation/Retire.antt =====
-- The report of key-rotation.ts on the previous keys, and the dry run.
use open_privy.Base.{
  ℕ, zero, suc, Text, true, false, List, [], ◌∷◌, some, ok, ◌≡◌, refl, sym, ap, ◌∙◌, subst, inl,
  inr, arith, Bool-cases, All, ◌==◌, count_by,
}
use mathlib.Core.Option
use mathlib.Core.Option.{some-injective}
use open_privy.Encryption.{
  Crypto, EncryptionService, current_key_id, decrypt, decrypt_with_key_id, try_keys,
  decrypt_with_current_key_only,
}
use open_privy.Wallet.{Wallet, Chains, software}
use open_privy.Rotation.{
  RotationOptions, Rotation, is_pending, is_key_id, write_back, rotate_wallet, rotate_batch,
  rotate_from, rotate_wallets, next_batch, finish,
}
use open_privy.Rotation.Keeps.{Rows, Kept, Owned, IsTagged}
use open_privy.Rotation.Preserve.{rotate_wallets-Kept}

none_pending :
    (current : Text) (ws : List Wallet)
    → (count_by (is_pending current) ws == 0) ≡ true
    → All (λ w. is_pending current w ≡ false) ws
none_pending current [] h = tt
none_pending current (w ∷ ws) h = elim (Bool-cases (is_pending current w)) [
  | inl e ↦ absurd (ground arith)
  | inr e ↦ (e, none_pending current ws (rw e at h))
]

-- The service once its previous keys are gone.
abbrev pub without_previous : EncryptionService → EncryptionService
without_previous service = record service { previous_keys = [] }

module _ (c : Crypto) (service : EncryptionService) where
  current_only :
      (text p : Text) (user_id : ℕ)
      → decrypt_with_current_key_only c service text user_id ≡ ok p
      → decrypt c (without_previous service) text user_id ≡ ok p
  unfolding decrypt decrypt_with_key_id try_keys decrypt_with_current_key_only
  current_only text p user_id e = ground arith

  -- A software row's key material opens with the current key alone.
  abbrev pub IsReadable : Wallet → Type 0
  IsReadable w =
      w.signing_mode ≡ software
      → (text : Text) → w.encrypted_private_key ≡ some text
      → (p : Text) × (decrypt c (without_previous service) text w.user_id ≡ ok p)

  IsReadable-of_IsTagged :
      (w : Wallet)
      → IsTagged c service w
      → is_pending (current_key_id c service) w ≡ false
      → IsReadable w
  unfolding is_pending
  IsReadable-of_IsTagged w tagged done soft text held =
      let current : is_key_id (current_key_id c service) w.encryption_key_id ≡ true =
        ground arith in
      let (p, e) = tagged current text held in (p, current_only text p w.user_id e)

  Rows-IsTagged :
      (vs ws : List Wallet)
      → Rows (Kept c service) vs ws
      → All (IsTagged c service) vs
      → All (IsTagged c service) ws
  Rows-IsTagged [] [] h t = tt
  Rows-IsTagged (v ∷ vs) (w ∷ ws) (h, hs) (t, ts) = (h.tagged t, Rows-IsTagged vs ws hs ts)
  Rows-IsTagged [] (w ∷ ws) h t = elim h [ ]
  Rows-IsTagged (v ∷ vs) [] h t = elim h [ ]

  All-IsReadable :
      (ws : List Wallet)
      → All (IsTagged c service) ws
      → All (λ w. is_pending (current_key_id c service) w ≡ false) ws
      → All IsReadable ws
  All-IsReadable [] t d = tt
  All-IsReadable (w ∷ ws) (t, ts) (d, ds) = (IsReadable-of_IsTagged w t d, All-IsReadable ws ts ds)

  module _ (chains : Chains) (opts : RotationOptions) (draw : ℕ → Text)
      (meanwhile : ℕ → List Wallet → List Wallet) where
    finish_safe :
        (s : Rotation)
        → (finish c chains service opts draw meanwhile s).report.safe_to_retire_previous_keys ≡ true
        → (count_by (is_pending (current_key_id c service)) s.wallets == 0) ≡ true
    unfolding finish
    finish_safe s h = ground arith

    -- If ids are unique, the tags are true before the run and other clients keep every row's id,
    -- owner, address, chain, mode, keys and true tags, then a report that calls it safe to retire
    -- the previous keys is right: every software wallet with key material is decrypted by a service
    -- that has no previous keys.
    pub rotate_wallets-IsReadable :
        ((n : ℕ) (ws : List Wallet) → Rows (Kept c service) ws (meanwhile n ws))
        → (owner : ℕ → ℕ) (fuel : ℕ) (wallets : List Wallet) (t : Rotation)
        → Owned c service owner wallets
        → All (IsTagged c service) wallets
        → rotate_wallets c chains service opts draw meanwhile fuel wallets ≡ some t
        → t.report.safe_to_retire_previous_keys ≡ true
        → All IsReadable t.wallets
    unfolding rotate_wallets
    rotate_wallets-IsReadable others owner fuel wallets t o tags e safe =
        let kept =
          rotate_wallets-Kept c service chains opts draw meanwhile others owner fuel wallets t o
            e in
        let (s, run, same) = (Option.map-eq-some_iff _ _).0 e in
        let safe' =
          subst (λ (x : Rotation). x.report.safe_to_retire_previous_keys ≡ true) (sym same) safe in
        let done = none_pending (current_key_id c service) s.wallets (finish_safe s safe') in
        All-IsReadable t.wallets (Rows-IsTagged wallets t.wallets kept tags) (
          subst
            (λ (x : Rotation). All (λ w. is_pending (current_key_id c service) w ≡ false) x.wallets)
            same (unfold finish in done))

  module _ (chains : Chains) (opts : RotationOptions) (dry : opts.apply ≡ false)
      (draw : ℕ → Text) where
    rotate_wallet_dry :
        (w : Wallet) (s : Rotation)
        → (rotate_wallet c chains service opts draw (λ n ws. ws) w s).wallets ≡ s.wallets
    unfolding rotate_wallet write_back
    rotate_wallet_dry w s = ground arith

    rotate_batch_dry :
        (ws : List Wallet) (s : Rotation)
        → (rotate_batch c chains service opts draw (λ n vs. vs) ws s).wallets ≡ s.wallets
    unfolding rotate_batch
    rotate_batch_dry [] s = refl
    rotate_batch_dry (w ∷ ws) s = rotate_batch_dry ws _ ∙ rotate_wallet_dry w s

    rotate_from_dry :
        (fuel last : ℕ) (s t : Rotation)
        → rotate_from c chains service opts draw (λ n vs. vs) fuel last s ≡ some t
        → t.wallets ≡ s.wallets
    unfolding rotate_from
    rotate_from_dry zero last s t e = cc
    rotate_from_dry (suc fuel) last s t e =
        go (next_batch (current_key_id c service) last opts.batch_size s.wallets) refl
          (rotate_from_dry fuel)
      where
        go :
            (b : List Wallet)
            → next_batch (current_key_id c service) last opts.batch_size s.wallets ≡ b
            → ((last' : ℕ) (s' t' : Rotation)
                → rotate_from c chains service opts draw (λ n vs. vs) fuel last' s' ≡ some t'
                → t'.wallets ≡ s'.wallets)
            → t.wallets ≡ s.wallets
        go [] q ih =
            ap (λ (x : Rotation). x.wallets) (sym (some-injective s t (rw (q, rotate_from) at e)))
        go (w ∷ ws) q ih = ih _ _ t (rw (q, rotate_from) at e) ∙ rotate_batch_dry (w ∷ ws) s

    -- Without `apply`, and with no other client writing, a run leaves the table as it was.
    rotate_wallets_dry :
        (fuel : ℕ) (wallets : List Wallet) (t : Rotation)
        → rotate_wallets c chains service opts draw (λ n vs. vs) fuel wallets ≡ some t
        → t.wallets ≡ wallets
    unfolding rotate_wallets finish
    rotate_wallets_dry fuel wallets t e =
        let (s, run, same) = (Option.map-eq-some_iff _ _).0 e in
        ap (λ (x : Rotation). x.wallets) (sym same) ∙ rotate_from_dry fuel 0 _ s run
