-- ===== src/Recovery/Completion/Moves.antt =====
-- What `complete` of recovery.service.ts is to keep of a wallet that it moves.
use open_privy.Base.{
  ℕ, Text, text_eq, text_eq_iff, [], ◌∷◌, Option, none, some, Error, ok, err, ◌≡◌, refl, subst,
  arith, Bool-cases, inl, inr, if◌then◌else◌,
}
use open_privy.Base.Errors.{>>=-eq-ok}
use open_privy.Encryption.{
  encrypt, decrypt, decrypt_with_key_id, parse_ciphertext, decrypt_with_current_key_only,
}
use open_privy.Encryption.Hex.{split_on}
use open_privy.Wallet.{Wallet, software, is_software, assert_key_matches_address}
use open_privy.Store.{RecoveryRequest}
use open_privy.Recovery.{Env}
use open_privy.Recovery.Keys.{carried_key, carry_key, moved_wallet, with_key}
use open_privy.Rotation.Keeps.{Decrypts, decrypt_of_current}

-- The row after the move has the same id and address, and a software row's key material still
-- decrypts, for the row's owner, to what it did.
pub record Carried (env : Env) (v w : Wallet) : Type 0 where
  pub id : v.id ≡ w.id
  pub address : v.address ≡ w.address
  pub signing_mode : v.signing_mode ≡ w.signing_mode
  pub decrypts :
      v.signing_mode ≡ software
      → (p : Text) → Decrypts env.crypto env.encryption v p
      → Decrypts env.crypto env.encryption w p

pub Carried-refl : (env : Env) (v : Wallet) → Carried env v v
Carried-refl env v = record {
  id = refl;
  address = refl;
  signing_mode = refl;
  decrypts = λ soft p d. d;
}

module _ (env : Env) (request : RecoveryRequest) where
  carried_key_sound :
      (iv : Text) (w : Wallet) (old new : Text)
      → carried_key env request iv w old ≡ ok new
      → (p : Text) × (decrypt env.crypto env.encryption old request.old_user_id ≡ ok p)
        × (decrypt_with_current_key_only env.crypto env.encryption new request.new_user_id ≡ ok p)
  unfolding carried_key
  carried_key_sound iv w old new e =
      let (p, opened, e1) =
        >>=-eq-ok (decrypt env.crypto env.encryption old request.old_user_id) _ e in
      let (u, checked, e2) =
        >>=-eq-ok (assert_key_matches_address env.chains w.chain p w.address) _ e1 in
      let (back, again, e3) =
        >>=-eq-ok
          (decrypt_with_current_key_only env.crypto env.encryption
            (encrypt env.crypto env.encryption iv p request.new_user_id) request.new_user_id)
          _ e2 in
      let (same, written) = verified back p _ new _ e3 in (p, opened, cc)
    where
      verified :
          (a b x new : Text) (e : Error)
          → (if text_eq a b then ok x else err e) ≡ ok new
          → (a ≡ b) × (x ≡ new)
      verified a b x new e h = ground (arith, text_eq_iff a b)

  -- The empty text is no ciphertext.
  never_opens :
      (text : Text) (user_id : ℕ) (p : Text)
      → text ≡ []
      → decrypt env.crypto env.encryption text user_id ≡ ok p
      → ⊥
  unfolding decrypt decrypt_with_key_id parse_ciphertext split_on
  never_opens [] user_id p e opens = cc
  never_opens (c ∷ text) user_id p e opens = absurd (cc)

  abbrev given : Wallet → Wallet
  given w = record w { user_id = request.new_user_id }

  -- Without software key material only the owner changes.
  given-Carried :
      (w : Wallet)
      → (w.signing_mode ≡ software → w.encrypted_private_key ≡ none)
      → Carried env w (given w)
  given-Carried w bare = record {
    id = refl;
    address = refl;
    signing_mode = refl;
    decrypts = λ soft p d. let empty = bare soft in let held = d.held in absurd (cc);
  }

  with_key-Carried :
      (w : Wallet) (old new p : Text)
      → w.user_id ≡ request.old_user_id
      → w.encrypted_private_key ≡ some old
      → decrypt env.crypto env.encryption old request.old_user_id ≡ ok p
      → decrypt_with_current_key_only env.crypto env.encryption new request.new_user_id ≡ ok p
      → Carried env w (given (with_key env w new))
  with_key-Carried w old new p mine held opened again = record {
    id = refl;
    address = refl;
    signing_mode = refl;
    decrypts = λ soft q d. record {
      text = new;
      held = refl;
      opens = decrypt_of_current env.crypto env.encryption new q request.new_user_id (same q d);
    };
  }
    where
      same :
          (q : Text)
          → Decrypts env.crypto env.encryption w q
          → decrypt_with_current_key_only env.crypto env.encryption new request.new_user_id ≡ ok q
      same q d = cc (mine, held, opened, again, d.held, d.opens)

  carry_key-Carried :
      (iv : Text) (w u : Wallet) (k : Option Text)
      → w.user_id ≡ request.old_user_id
      → w.encrypted_private_key ≡ k
      → carry_key env request iv w k ≡ ok u
      → Carried env w (given u)
  unfolding carry_key
  carry_key-Carried iv w u none mine h e =
      subst (λ x. Carried env w (given x)) (same e) (given-Carried w (λ soft. h))
    where
      same : ok w ≡ ok u → w ≡ u
      same e = cc
  carry_key-Carried iv w u (some []) mine h e =
      subst (λ x. Carried env w (given x)) (same e)
        (record {
          id = refl;
          address = refl;
          signing_mode = refl;
          decrypts =
              λ soft p d. absurd (never_opens d.text w.user_id p (empty d.text d.held) d.opens);
        })
    where
      same : ok w ≡ ok u → w ≡ u
      same e = cc

      empty : (text : Text) → w.encrypted_private_key ≡ some text → text ≡ []
      empty text held = cc
  carry_key-Carried iv w u (some (k ∷ ks)) mine h e =
      elim (Bool-cases (is_software w.signing_mode)) [
        | inl soft ↦
            let (new, carried, e1) =
              >>=-eq-ok (carried_key env request iv w (k ∷ ks)) _ (rw soft at e) in
            let (p, opened, again) = carried_key_sound iv w (k ∷ ks) new carried in
            subst (λ x. Carried env w (given x)) (same (with_key env w new) e1)
              (with_key-Carried w (k ∷ ks) new p mine h opened again)
        | inr hard ↦
            subst (λ x. Carried env w (given x)) (same w (rw hard at e))
              (given-Carried w (λ soft. absurd (ground arith)))
      ]
    where
      same : (x : Wallet) → ok x ≡ ok u → x ≡ u
      same x e = cc

  -- A wallet of the old account, moved.
  pub moved_wallet-Carried :
      (iv : Text) (w v : Wallet)
      → w.user_id ≡ request.old_user_id
      → moved_wallet env request iv w ≡ ok v
      → Carried env w v × (v.user_id ≡ request.new_user_id)
  unfolding moved_wallet
  moved_wallet-Carried iv w v mine e =
      let (u, carried, e1) = >>=-eq-ok (carry_key env request iv w w.encrypted_private_key) _ e in
      subst (λ x. Carried env w x × (x.user_id ≡ request.new_user_id)) (same (given u) e1)
        (carry_key-Carried iv w u w.encrypted_private_key mine refl carried, refl)
    where
      same : (x : Wallet) → ok x ≡ ok v → x ≡ v
      same x e = cc
