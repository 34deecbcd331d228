-- ===== src/Rotation/Finish.antt =====
-- The loop of key-rotation.ts over the batches and its end.
use open_privy.Base.{
  ℕ, zero, suc, ◌<◌, Text, length, List, [], ◌∷◌, some, ◌≡◌, refl, subst, arith, All,
}
use open_privy.Encryption.{Crypto, EncryptionService, current_key_id}
use open_privy.Wallet.{Wallet, Chains}
use open_privy.Rotation.{
  RotationOptions, Rotation, rotate_batch, rotate_from, rotate_wallets, next_batch, finish,
  empty_report,
}
use open_privy.Rotation.Queries.{last_id}
use open_privy.Rotation.Order.{
  rows_after, rows_after-lt, rows_after-le-length, IsNext, next_batch-IsNext, last_id-IsNext,
}
use open_privy.Rotation.Keeps.{Rows, Kept, Owned, Rows-Owned}
use open_privy.Rotation.Preserve.{rotate_batch-Kept, next_batch-Owned}

module _ (c : Crypto) (service : EncryptionService) where
  rows_after-Rows :
      (l : ℕ) (vs ws : List Wallet)
      → Rows (Kept c service) vs ws
      → rows_after l ws ≡ rows_after l vs
  unfolding rows_after
  rows_after-Rows l [] [] h = refl
  rows_after-Rows l (v ∷ vs) (w ∷ ws) (h, hs) = ground (arith, h.id, rows_after-Rows l vs ws hs)
  rows_after-Rows l [] (w ∷ ws) h = elim h [ ]
  rows_after-Rows l (v ∷ vs) [] h = elim h [ ]

  module _ (chains : Chains) (opts : RotationOptions) (draw : ℕ → Text)
      (meanwhile : ℕ → List Wallet → List Wallet)
      (others : (n : ℕ) (ws : List Wallet) → Rows (Kept c service) ws (meanwhile n ws))
      (owner : ℕ → ℕ) where
    rotate_from_total :
        (fuel last : ℕ) (s : Rotation)
        → Owned c service owner s.wallets
        → rows_after last s.wallets < fuel
        → (t : Rotation) × (rotate_from c chains service opts draw meanwhile fuel last s ≡ some t)
    unfolding rotate_from
    rotate_from_total zero last s o h = absurd (omega arith)
    rotate_from_total (suc fuel) last s o h =
        go (next_batch (current_key_id c service) last opts.batch_size s.wallets) refl
          (rotate_from_total fuel)
      where
        go :
            (b : List Wallet)
            → next_batch (current_key_id c service) last opts.batch_size s.wallets ≡ b
            → ((last' : ℕ) (s' : Rotation)
                → Owned c service owner s'.wallets
                → rows_after last' s'.wallets < fuel
                → (t : Rotation) × (rotate_from c chains service opts draw meanwhile fuel last' s'
                    ≡ some t))
            → (t : Rotation) × (rotate_from c chains service opts draw meanwhile (suc fuel) last s
                ≡ some t)
        go [] q ih = (s, rw (q, rotate_from))
        go (w ∷ ws) q ih =
            let s' = rotate_batch c chains service opts draw meanwhile (w ∷ ws) s in
            let kept =
              rotate_batch-Kept c service chains opts draw meanwhile others owner (w ∷ ws) s
                (subst (Owned c service owner) q (
                  next_batch-Owned c service chains opts draw meanwhile others owner last s.wallets
                    o))
                o in
            let (later, listed) = last_id-IsNext last s.wallets w ws (
              subst (All (IsNext last s.wallets)) q
                (next_batch-IsNext (current_key_id c service) last opts.batch_size s.wallets)) in
            let fewer = rows_after-lt last (last_id w ws) s.wallets later listed in
            let same = rows_after-Rows (last_id w ws) s.wallets s'.wallets kept in
            let (t, run) =
              ih (last_id w ws) s' (Rows-Owned c service owner _ _ kept o) (omega arith) in
            (t, rw (q, rotate_from) run)

-- If ids are unique and other clients keep every row's id, owner, address, chain, mode, keys and
-- true tags, a run ends: one unit of fuel more than there are rows is enough for any batch size.
pub rotate_wallets_total :
    (c : Crypto) (service : EncryptionService) (chains : Chains) (opts : RotationOptions)
    (draw : ℕ → Text) (meanwhile : ℕ → List Wallet → List Wallet)
    → ((n : ℕ) (ws : List Wallet) → Rows (Kept c service) ws (meanwhile n ws))
    → (owner : ℕ → ℕ) (fuel : ℕ) (wallets : List Wallet) → Owned c service owner wallets
    → length wallets < fuel
    → (t : Rotation) × (rotate_wallets c chains service opts draw meanwhile fuel wallets ≡ some t)
unfolding rotate_wallets
rotate_wallets_total c service chains opts draw meanwhile others owner fuel wallets o h =
    let (t, run) =
      rotate_from_total c service chains opts draw meanwhile others owner fuel 0
        (record { wallets = wallets; report = empty_report }) o
        (omega (arith, rows_after-le-length 0 wallets)) in
    (finish c chains service opts draw meanwhile t, rw run)
