-- ===== src/Rotation/Preserve.antt =====
-- The run of key-rotation.ts, step by step, against what it is to keep of the rows.
use open_privy.Rotation.Order.{All-take_rows}
use open_privy.Base.{
  ℕ, zero, suc, Text, List, [], ◌∷◌, some, Result, ok, err, ◌≡◌, refl, subst, inl, inr, Bool-cases,
  ◌==◌, count_by, All-filter_by,
}
use mathlib.Core.Option
use mathlib.Core.Option.{some-injective}
use open_privy.Encryption.{
  Crypto, EncryptionService, current_key_id, decrypt, decrypt_with_current_key_only,
}
use open_privy.Wallet.{Wallet, Chains}
use open_privy.Rotation.{
  RotationOptions, Rotation, is_unchanged, key_text, rotated_key, write_back, rotate_wallet,
  rotate_batch, rotate_from, rotate_wallets, next_batch, finish,
}
use open_privy.Rotation.Queries.{last_id, sort_by_id-All}
use open_privy.Rotation.Keeps.{
  Rows, Kept, Owned, Rows-refl, Rows-trans, Rows-Owned, update-Kept, rotated_key_sound,
}

module _ (c : Crypto) (service : EncryptionService) where
  module _ (chains : Chains) (opts : RotationOptions) (draw : ℕ → Text)
      (meanwhile : ℕ → List Wallet → List Wallet)
      (others : (n : ℕ) (ws : List Wallet) → Rows (Kept c service) ws (meanwhile n ws))
      (owner : ℕ → ℕ) where
    -- What the checks have shown of a new ciphertext for the row `w`.
    abbrev Verified : Wallet → Text → Result Text → Type 0
    Verified w old (err e) = Unit
    Verified w old (ok new) =
        (p : Text) × (decrypt c service old (owner w.id) ≡ ok p)
        × (decrypt_with_current_key_only c service new (owner w.id) ≡ ok p)

    write_back-Kept :
        (w : Wallet) (old : Text) (r : Result Text) (s : Rotation)
        → Verified w old r
        → Owned c service owner s.wallets
        → Rows
            (Kept c service)
            s.wallets
            (write_back c chains service opts draw meanwhile w old r s).wallets
    unfolding write_back
    write_back-Kept w old (err e) s v o = Rows-refl c service s.wallets
    write_back-Kept w old (ok new) s (p, d, e) o = elim (Bool-cases opts.apply) [
      | inr dry ↦ rw (dry, write_back) (Rows-refl c service s.wallets)
      | inl apply ↦
          let kept = update-Kept c service owner w.id old new p s.wallets o d e in
          elim (Bool-cases (count_by (is_unchanged w.id old) s.wallets == 1)) [
            | inl one ↦ rw (apply, one, write_back) kept
            | inr other ↦ rw (apply, other, write_back) kept
          ]
    ]

    rotated_key-Verified :
        (iv : Text) (w : Wallet) (old : Text)
        → w.user_id ≡ owner w.id
        → Verified w old (rotated_key c service chains iv w old)
    rotated_key-Verified iv w old mine = go (rotated_key c service chains iv w old) refl
      where
        go : (r : Result Text) → rotated_key c service chains iv w old ≡ r → Verified w old r
        go (err e) h = tt
        go (ok new) h =
            let (p, d, e, checked) = rotated_key_sound c service chains iv w old new h in
            (p, rw mine at d, rw mine at e)

    rotate_wallet-Kept :
        (w : Wallet) (s : Rotation)
        → w.user_id ≡ owner w.id
        → Owned c service owner s.wallets
        → Rows
            (Kept c service)
            s.wallets
            (rotate_wallet c chains service opts draw meanwhile w s).wallets
    unfolding rotate_wallet
    rotate_wallet-Kept w s mine o =
        let n = s.report.scanned in
        let other = others n s.wallets in
        let old = key_text w.encrypted_private_key in
        Rows-trans c service s.wallets (meanwhile n s.wallets) _ other (
          write_back-Kept w old (rotated_key c service chains (draw n) w old) _
            (rotated_key-Verified (draw n) w old mine) (Rows-Owned c service owner _ _ other o))

    pub rotate_batch-Kept :
        (ws : List Wallet) (s : Rotation)
        → Owned c service owner ws
        → Owned c service owner s.wallets
        → Rows
            (Kept c service)
            s.wallets
            (rotate_batch c chains service opts draw meanwhile ws s).wallets
    unfolding rotate_batch
    rotate_batch-Kept [] s b o = Rows-refl c service s.wallets
    rotate_batch-Kept (w ∷ ws) s (mine, b) o =
        let kept = rotate_wallet-Kept w s mine o in
        Rows-trans c service s.wallets
          (rotate_wallet c chains service opts draw meanwhile w s).wallets _ kept
          (rotate_batch-Kept ws (rotate_wallet c chains service opts draw meanwhile w s) b
            (Rows-Owned c service owner _ _ kept o))

    pub next_batch-Owned :
        (last : ℕ) (ws : List Wallet)
        → Owned c service owner ws
        → Owned c service owner (next_batch (current_key_id c service) last opts.batch_size ws)
    unfolding next_batch
    next_batch-Owned last ws o =
        All-take_rows _ opts.batch_size _ (sort_by_id-All _ _ (All-filter_by _ _ ws o))

    rotate_from-Kept :
        (fuel last : ℕ) (s t : Rotation)
        → rotate_from c chains service opts draw meanwhile fuel last s ≡ some t
        → Owned c service owner s.wallets
        → Rows (Kept c service) s.wallets t.wallets
    unfolding rotate_from
    rotate_from-Kept zero last s t e o = cc
    rotate_from-Kept (suc fuel) last s t e o =
        go (next_batch (current_key_id c service) last opts.batch_size s.wallets) refl
          (λ last' s' e' o'. rotate_from-Kept fuel last' s' t e' o')
      where
        go :
            (b : List Wallet)
            → next_batch (current_key_id c service) last opts.batch_size s.wallets ≡ b
            → ((last' : ℕ) (s' : Rotation)
                → rotate_from c chains service opts draw meanwhile fuel last' s' ≡ some t
                → Owned c service owner s'.wallets
                → Rows (Kept c service) s'.wallets t.wallets)
            → Rows (Kept c service) s.wallets t.wallets
        go [] q ih =
            subst (λ (x : Rotation). Rows (Kept c service) s.wallets x.wallets)
              (some-injective s t (rw (q, rotate_from) at e)) (Rows-refl c service s.wallets)
        go (w ∷ ws) q ih =
            let s' = rotate_batch c chains service opts draw meanwhile (w ∷ ws) s in
            let kept =
              rotate_batch-Kept (w ∷ ws) s
                (subst (Owned c service owner) q (next_batch-Owned last s.wallets o)) o in
            Rows-trans c service s.wallets s'.wallets t.wallets kept (
              ih (last_id w ws) s' (rw (q, rotate_from) at e)
                (Rows-Owned c service owner _ _ kept o))

-- If ids are unique (each id has one owner) and other clients keep what is listed here, then a run
-- keeps, row by row, the wallet's id, owner, address, chain and signing mode, and every key: what a
-- row's ciphertext decrypted to before the run, its ciphertext decrypts to after it; and a row
-- whose tag is true keeps a true tag. This holds for any primitives, since each new ciphertext is
-- read back before it is written.
pub rotate_wallets-Kept :
    (c : Crypto) (service : EncryptionService) (chains : Chains) (opts : RotationOptions)
    (draw : ℕ → Text) (meanwhile : ℕ → List Wallet → List Wallet)
    → ((n : ℕ) (ws : List Wallet) → Rows (Kept c service) ws (meanwhile n ws))
    → (owner : ℕ → ℕ) (fuel : ℕ) (wallets : List Wallet) (t : Rotation)
    → Owned c service owner wallets
    → rotate_wallets c chains service opts draw meanwhile fuel wallets ≡ some t
    → Rows (Kept c service) wallets t.wallets
unfolding rotate_wallets finish
rotate_wallets-Kept c service chains opts draw meanwhile others owner fuel wallets t o e =
    let (s, run, same) = (Option.map-eq-some_iff _ _).0 e in
    subst (λ (x : Rotation). Rows (Kept c service) wallets x.wallets) same
      (rotate_from-Kept c service chains opts draw meanwhile others owner fuel 0 _ s run o)
