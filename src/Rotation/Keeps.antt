-- ===== src/Rotation/Keeps.antt =====
-- What one row's rotation (key-rotation.ts) is to keep of the row, and the rewriting of one row.
use open_privy.Base.{
  ℕ, Text, text_eq, text_eq_iff, true, List, [], ◌∷◌, Option, none, some, All, Error, ok, err, ◌≡◌,
  refl, sym, ap, ◌∙◌, inl, inr, arith, Bool-cases, if◌then◌else◌, update_by,
}
use open_privy.Base.Errors.{>>=-eq-ok}
use open_privy.Encryption.{
  Crypto, EncryptionService, Reencrypted, current_key_id, decrypt, decrypt_with_key_id, try_keys,
  reencrypt_to_current_key, decrypt_with_current_key_only,
}
use open_privy.Wallet.{Wallet, Chains, assert_key_matches_address}
use open_privy.Rotation.{is_key_id, is_unchanged, rotated_key, tag}

abbrev pub Rows : (Wallet → Wallet → Type 0) → List Wallet → List Wallet → Type 0
Rows R [] [] = Unit
Rows R (v ∷ vs) (w ∷ ws) = R v w × Rows R vs ws
Rows R [] (w ∷ ws) = ⊥
Rows R (v ∷ vs) [] = ⊥

module _ (c : Crypto) (service : EncryptionService) where
  -- The row holds key material that decrypts to `p` for the row's user.
  pub record Decrypts (w : Wallet) (p : Text) : Type 0 where
    pub text : Text
    pub held : w.encrypted_private_key ≡ some text
    pub opens : decrypt c service text w.user_id ≡ ok p

  -- The row's tag is true: if it names the current key, that key alone opens the row's ciphertext.
  abbrev pub IsTagged : Wallet → Type 0
  IsTagged w =
      is_key_id (current_key_id c service) w.encryption_key_id ≡ true
      → (text : Text) → w.encrypted_private_key ≡ some text
      → (p : Text) × (decrypt_with_current_key_only c service text w.user_id ≡ ok p)

  pub record Kept (v w : Wallet) : Type 0 where
    pub id : v.id ≡ w.id
    pub user_id : v.user_id ≡ w.user_id
    pub address : v.address ≡ w.address
    pub chain : v.chain ≡ w.chain
    pub signing_mode : v.signing_mode ≡ w.signing_mode
    pub decrypts : (p : Text) → Decrypts v p → Decrypts w p
    pub tagged : IsTagged v → IsTagged w

  Kept-refl : (v : Wallet) → Kept v v
  Kept-refl v = record {
    id = refl;
    user_id = refl;
    address = refl;
    chain = refl;
    signing_mode = refl;
    decrypts = λ p d. d;
    tagged = λ h. h;
  }

  Kept-trans : (u v w : Wallet) → Kept u v → Kept v w → Kept u w
  Kept-trans u v w h k = record {
    id = h.id ∙ k.id;
    user_id = h.user_id ∙ k.user_id;
    address = h.address ∙ k.address;
    chain = h.chain ∙ k.chain;
    signing_mode = h.signing_mode ∙ k.signing_mode;
    decrypts = λ p d. k.decrypts p (h.decrypts p d);
    tagged = λ x. k.tagged (h.tagged x);
  }

  pub Rows-refl : (ws : List Wallet) → Rows Kept ws ws
  Rows-refl [] = tt
  Rows-refl (w ∷ ws) = (Kept-refl w, Rows-refl ws)

  pub Rows-trans : (us vs ws : List Wallet) → Rows Kept us vs → Rows Kept vs ws → Rows Kept us ws
  Rows-trans [] [] [] h k = tt
  Rows-trans (u ∷ us) (v ∷ vs) (w ∷ ws) (h, hs) (k, ks) =
      (Kept-trans u v w h k, Rows-trans us vs ws hs ks)
  Rows-trans [] [] (w ∷ ws) h k = elim k [ ]
  Rows-trans [] (v ∷ vs) ws h k = elim h [ ]
  Rows-trans (u ∷ us) [] ws h k = elim h [ ]
  Rows-trans (u ∷ us) (v ∷ vs) [] h k = elim k [ ]

  -- The current key is tried first.
  pub decrypt_of_current :
      (text p : Text) (user_id : ℕ)
      → decrypt_with_current_key_only c service text user_id ≡ ok p
      → decrypt c service text user_id ≡ ok p
  unfolding decrypt decrypt_with_key_id try_keys decrypt_with_current_key_only
  decrypt_of_current text p user_id e = ground arith

  verified :
      (a b x new : Text) (e : Error)
      → (if text_eq a b then ok x else err e) ≡ ok new
      → (a ≡ b) × (x ≡ new)
  verified a b x new e h = ground (arith, text_eq_iff a b)

  decrypt_of_reencrypt :
      (iv old : Text) (user_id : ℕ) (r : Reencrypted)
      → reencrypt_to_current_key c service iv old user_id ≡ ok r
      → decrypt c service old user_id ≡ ok r.plaintext
  unfolding reencrypt_to_current_key decrypt
  decrypt_of_reencrypt iv old user_id r e = ground arith

  -- A ciphertext that passed the checks decrypts, under the current key alone, to what the old
  -- one decrypted to, and that key material is the wallet's.
  pub rotated_key_sound :
      (chains : Chains) (iv : Text) (w : Wallet) (old new : Text)
      → rotated_key c service chains iv w old ≡ ok new
      → (p : Text) × (decrypt c service old w.user_id ≡ ok p)
        × (decrypt_with_current_key_only c service new w.user_id ≡ ok p)
        × (assert_key_matches_address chains w.chain p w.address ≡ ok tt)
  unfolding rotated_key
  rotated_key_sound chains iv w old new e =
      let (r, re, e1) = >>=-eq-ok (reencrypt_to_current_key c service iv old w.user_id) _ e in
      let (u, checked, e2) =
        >>=-eq-ok (assert_key_matches_address chains w.chain r.plaintext w.address) _ e1 in
      let (round_trip, opened, e3) =
        >>=-eq-ok (decrypt_with_current_key_only c service r.ciphertext w.user_id) _ e2 in
      let (same, written) = verified round_trip r.plaintext r.ciphertext new _ e3 in
      (r.plaintext, decrypt_of_reencrypt iv old w.user_id r re, cc, cc)

  unchanged-facts :
      (id : ℕ) (old : Text) (r : Wallet)
      → is_unchanged id old r ≡ true
      → (r.id ≡ id) × (r.encrypted_private_key ≡ some old)
  unfolding is_unchanged
  unchanged-facts id old r h = facts r.encrypted_private_key refl
    where
      facts :
          (k : Option Text)
          → r.encrypted_private_key ≡ k
          → (r.id ≡ id) × (r.encrypted_private_key ≡ some old)
      facts none e = ground arith
      facts (some k) e = ground (arith, text_eq_iff k old)

  tag-Kept :
      (r : Wallet) (old new p : Text)
      → r.encrypted_private_key ≡ some old
      → decrypt c service old r.user_id ≡ ok p
      → decrypt_with_current_key_only c service new r.user_id ≡ ok p
      → Kept r (tag c service new r)
  unfolding tag
  tag-Kept r old new p held d e = record {
    id = refl;
    user_id = refl;
    address = refl;
    chain = refl;
    signing_mode = refl;
    decrypts = λ q o. record {
      text = new;
      held = refl;
      opens = decrypt_of_current new q r.user_id (same q o);
    };
    tagged = λ x current text held'. (p, cc);
  }
    where
      same :
          (q : Text) → Decrypts r q → decrypt_with_current_key_only c service new r.user_id ≡ ok q
      same q o = cc (held, d, e, o.held, o.opens)

  -- Each id has one owner: ids are the primary key of the table.
  abbrev pub Owned : (ℕ → ℕ) → List Wallet → Type 0
  Owned owner = All (λ r. r.user_id ≡ owner r.id)

  -- Writing such a ciphertext over the one that was read keeps every row.
  pub update-Kept :
      (owner : ℕ → ℕ) (id : ℕ) (old new p : Text) (ws : List Wallet)
      → Owned owner ws
      → decrypt c service old (owner id) ≡ ok p
      → decrypt_with_current_key_only c service new (owner id) ≡ ok p
      → Rows Kept ws (update_by (is_unchanged id old) (tag c service new) ws)
  update-Kept owner id old new p [] o d e = tt
  update-Kept owner id old new p (r ∷ ws) (mine, o) d e = (
    elim (Bool-cases (is_unchanged id old r)) [
      | inl hit ↦
          let (same_id, held) = unchanged-facts id old r hit in
          let user : owner id ≡ r.user_id = cc in
          rw hit (tag-Kept r old new p held (rw user at d) (rw user at e))
      | inr miss ↦ rw miss (Kept-refl r)
    ],
    update-Kept owner id old new p ws o d e,
  )

  pub Rows-Owned :
      (owner : ℕ → ℕ) (vs ws : List Wallet) → Rows Kept vs ws → Owned owner vs → Owned owner ws
  Rows-Owned owner [] [] h o = tt
  Rows-Owned owner (v ∷ vs) (w ∷ ws) (h, hs) (o, os) =
      (sym h.user_id ∙ o ∙ ap owner h.id, Rows-Owned owner vs ws hs os)
  Rows-Owned owner [] (w ∷ ws) h o = elim h [ ]
  Rows-Owned owner (v ∷ vs) [] h o = elim h [ ]
