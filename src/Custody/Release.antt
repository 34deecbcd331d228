-- ===== src/Custody/Release.antt =====
-- The release of a key by wallet.service.ts, and the creation of a wallet.
use open_privy.Base.{
  ℕ, ◌+◌, Text, text_eq, Bool, true, false, not, ◌&&◌, ◌||◌, List, [], ◌∷◌, ◌++◌, All, Option, none,
  some, Result, ok, err, or_err, ◌≡◌, ◌≢◌, refl, sym, ◌∙◌, ap, subst, arith, ◌==◌, if◌then◌else◌,
  find_by, any_by, Option-cases, Bool-cases, inl, inr,
}
use open_privy.Encryption.{
  encrypt, current_key_id, decrypt, decrypt_with_key_id, parse_ciphertext, iv_length,
}
use open_privy.Encryption.Hex.{IsByte, split_on}
use open_privy.Encryption.Format.{IsBytes}
use open_privy.Encryption.RoundTrip.{CryptoLaws, decrypt_with_key_id-encrypt}
use open_privy.Wallet.{Wallet, SigningMode, software, is_software}
use open_privy.Store.{World}
use open_privy.Custody.{
  Custodian, is_native_evm, not_yours, get_wallet_by_id, new_keys, insert_wallet,
  create_software_wallet, create_in_mode, create_wallet, decrypt_held, get_decrypted_private_key,
}

find_by-append :
    (p : Wallet → Bool) (ws : List Wallet) (w : Wallet)
    → any_by p ws ≡ false
    → p w ≡ true
    → find_by p (ws ++ w ∷ []) ≡ some w
find_by-append p [] w e h = rw h
find_by-append p (v ∷ ws) w e h = elim (Bool-cases (p v)) [
  | inl hit ↦ absurd (cc)
  | inr miss ↦ rw miss (find_by-append p ws w (rw miss at e) h)
]

module _ (c : Custodian) where
  decrypt_held_opened :
      (text : Text) (user_id : ℕ) (p : Text)
      → decrypt c.crypto c.encryption text user_id ≡ ok p
      → decrypt_held c (some text) user_id ≡ ok p
  unfolding decrypt_held decrypt decrypt_with_key_id parse_ciphertext split_on
  decrypt_held_opened [] user_id p e = cc
  decrypt_held_opened (k ∷ ks) user_id p e = e

  -- What the release of a key has established.
  pub record Released (wallet_id user_id : ℕ) (s : World) (p : Text) : Type 0 where
    pub wallet : Wallet
    pub found : find_by (λ w. w.id == wallet_id) s.wallets ≡ some wallet
    pub owner : wallet.user_id ≡ user_id
    pub mode : wallet.signing_mode ≡ software
    pub text : Text
    pub held : wallet.encrypted_private_key ≡ some text
    pub opens : decrypt c.crypto c.encryption text user_id ≡ ok p

  released_held :
      (k : Option Text) (user_id : ℕ) (p : Text)
      → decrypt_held c k user_id ≡ ok p
      → (text : Text) × (k ≡ some text) × (decrypt c.crypto c.encryption text user_id ≡ ok p)
  unfolding decrypt_held
  released_held none user_id p e = cc
  released_held (some []) user_id p e = cc
  released_held (some (t ∷ ts)) user_id p e = (t ∷ ts, refl, e)

  software_of : (m : SigningMode) → is_software m ≡ true → m ≡ software
  software_of m e = ground arith

  -- A key is released only for a wallet of the user that asks, in software mode, and is what the
  -- row's ciphertext decrypts to for that user.
  pub get_decrypted_private_key-Released :
      (wallet_id user_id : ℕ) (s : World) (p : Text)
      → (get_decrypted_private_key c wallet_id user_id s).0 ≡ ok p
      → Released wallet_id user_id s p
  unfolding get_decrypted_private_key get_wallet_by_id
  get_decrypted_private_key-Released wallet_id user_id s p e =
      elim (Option-cases (find_by (λ w. w.id == wallet_id) s.wallets)) [
        | inl missing ↦ absurd (impossible (rw missing at e))
        | inr (w, found) ↦ elim (Bool-cases (w.user_id == user_id)) [
          | inr other ↦ absurd (impossible (rw other at (rw found at e)))
          | inl mine ↦ elim (Bool-cases (is_software w.signing_mode)) [
            | inr hard ↦ absurd (impossible (rw hard at (rw mine at (rw found at e))))
            | inl soft ↦
                let (text, held, opens) =
                  released_held w.encrypted_private_key user_id p
                    (rw soft at (rw mine at (rw found at e))) in
                record {
                  wallet = w;
                  found = found;
                  owner = ground arith;
                  mode = software_of w.signing_mode soft;
                  text = text;
                  held = held;
                  opens = opens;
                }
          ]
        ]
      ]
    where
      impossible : {x : open_privy.Base.Error} → (let r : Result Text = err x in r) ≡ ok p → ⊥
      impossible e = absurd (cc)

  decrypt-encrypt :
      CryptoLaws c.crypto
      → (iv plaintext : Text) (user_id : ℕ) → IsBytes iv_length iv
      → All IsByte plaintext
      → decrypt c.crypto c.encryption (encrypt c.crypto c.encryption iv plaintext user_id) user_id
        ≡ ok plaintext
  unfolding decrypt
  decrypt-encrypt laws iv plaintext user_id i p = rw (
      decrypt_with_key_id-encrypt c.crypto laws c.encryption c.encryption iv plaintext user_id []
        c.encryption.previous_keys refl tt i p)

  -- The row that `createWallet` inserts.
  abbrev created : ℕ → Text → World → Wallet
  created user_id chain s = record {
    id = s.next_id;
    user_id = user_id;
    address = (c.random_evm s.drawn).address;
    chain = chain;
    public_key = (c.random_evm s.drawn).public_key;
    encrypted_private_key = some (
        encrypt c.crypto c.encryption (c.random_iv (s.drawn + 1)) (c.random_evm s.drawn).private_key
          user_id);
    encryption_key_id = some (current_key_id c.crypto c.encryption);
    signing_mode = software;
    hsm_key_label = none;
    recovery_email = none;
    is_active = true;
  }

  created-find_by :
      (user_id : ℕ) (chain : Text) (s : World)
      → is_native_evm chain ≡ true
      → any_by (λ w. w.user_id == user_id && text_eq w.chain chain) s.wallets ≡ false
      → any_by (λ w. w.id == s.next_id) s.wallets ≡ false
      → find_by (λ w. w.id == s.next_id) (create_wallet c user_id chain software s).1.wallets
        ≡ some (created user_id chain s)
  unfolding create_wallet create_in_mode create_software_wallet new_keys insert_wallet
  created-find_by user_id chain s evm free fresh = rw free (
      rw evm (
        find_by-append (λ w. w.id == s.next_id) s.wallets (created user_id chain s) fresh
          (ground arith)))

  -- Under the laws of the primitives, with a sixteen-byte iv and a private key of bytes: a software
  -- wallet created on Ethereum or Polygon for a user without a wallet on that chain, under an id
  -- that no row has, gives its owner the generated key back, and refuses every other user.
  pub create_wallet-get_decrypted_private_key :
      CryptoLaws c.crypto
      → (user_id : ℕ) (chain : Text) (s : World) → is_native_evm chain ≡ true
      → any_by (λ w. w.user_id == user_id && text_eq w.chain chain) s.wallets ≡ false
      → any_by (λ w. w.id == s.next_id) s.wallets ≡ false
      → IsBytes iv_length (c.random_iv (s.drawn + 1))
      → All IsByte (c.random_evm s.drawn).private_key
      → (reader : ℕ)
      → (get_decrypted_private_key c s.next_id reader
          (create_wallet c user_id chain software s).1).0
        ≡ (if user_id == reader then ok (c.random_evm s.drawn).private_key else err not_yours)
  unfolding get_decrypted_private_key get_wallet_by_id
  create_wallet-get_decrypted_private_key laws user_id chain s evm free fresh i p reader =
      rw (created-find_by user_id chain s evm free fresh) (elim (Bool-cases (user_id == reader)) [
        | inr other ↦ rw other refl
        | inl mine ↦ rw mine (same reader (ground arith))
      ])
    where
      same :
          (reader : ℕ)
          → user_id ≡ reader
          → decrypt_held c (created user_id chain s).encrypted_private_key reader
            ≡ ok (c.random_evm s.drawn).private_key
      same reader e =
          subst
            (λ r.
              decrypt_held c (created user_id chain s).encrypted_private_key r
              ≡ ok (c.random_evm s.drawn).private_key)
            e
            (decrypt_held_opened _ user_id (c.random_evm s.drawn).private_key (
              decrypt-encrypt laws (c.random_iv (s.drawn + 1)) (c.random_evm s.drawn).private_key
                user_id i p))
