-- ===== src/Recovery/Completion/Loop.antt =====
-- The loop of `complete` over the old account's wallets, row by row, and the completed recovery.
use open_privy.Base.{
  ℕ, ◌+◌, Bool, true, false, List, [], ◌∷◌, some, Result, ok, err, ◌≡◌, ◌≢◌, refl, sym, ◌∙◌, ap,
  subst, arith, Bool-cases, inl, inr, ◌⊎◌, find_by, any_by, count_by, filter_by, filter_by-pos,
  filter_by-neg, update_by, ◌==◌, All,
}
use open_privy.Base.Actions.{next}
use open_privy.Wallet.{Wallet}
use open_privy.Store.{World, RecoveryRequest, rolled_back, save_wallet}
use open_privy.Recovery.{Env}
use open_privy.Recovery.Keys.{moved_wallet}
use open_privy.Recovery.Completion.{
  is_claimable, claim, move_wallets, settle, carry_out, recover, complete,
}
use open_privy.Recovery.Completion.Moves.{Carried, Carried-refl, moved_wallet-Carried}
use open_privy.Rotation.Keeps.{Rows}

eq-of-test : (m n : ℕ) → (m == n) ≡ true → m ≡ n
eq-of-test m n e = ground arith

module _ (env : Env) (request : RecoveryRequest) (row : ℕ → Wallet) where
  -- A row is carried over so far, and is no longer the old account's unless it is still to be moved.
  abbrev Moving : List Wallet → Wallet → Wallet → Type 0
  Moving ws v w =
      Carried env v w × ((w.user_id ≢ request.old_user_id) ⊎ (any_by (λ x. w.id == x.id) ws ≡ true))

  -- The rows of the table are what `row` says: ids are unique.
  abbrev pub Known : List Wallet → Type 0
  Known = All (λ w. w ≡ row w.id)

  abbrev Old : List Wallet → Type 0
  Old = All (λ w. (w ≡ row w.id) × (w.user_id ≡ request.old_user_id))

  save-Moving :
      (w x : Wallet) (ws vs us : List Wallet)
      → w ≡ row w.id
      → Carried env w x
      → x.user_id ≢ request.old_user_id
      → Known vs
      → Rows (Moving (w ∷ ws)) vs us
      → Rows (Moving ws) vs (update_by (λ r. r.id == x.id) (λ _. x) us)
  save-Moving w x ws [] [] known c new k h = tt
  save-Moving w x ws (v ∷ vs) (u ∷ us) known c new (kv, k) ((cu, p), h) = (
    elim (Bool-cases (u.id == x.id)) [
      | inl hit ↦
          let id : v.id ≡ w.id = cu.id ∙ eq-of-test u.id x.id hit ∙ sym c.id in
          let same : w ≡ v = known ∙ ap row (sym id) ∙ sym kv in
          rw hit (subst (λ y. Carried env y x) same c, inl new)
      | inr miss ↦
          rw miss (cu, elim p [ inl gone ↦ inl gone | inr listed ↦ inr (ground (arith, c.id)) ])
    ],
    save-Moving w x ws vs us known c new k h,
  )
  save-Moving w x ws [] (u ∷ us) known c new k h = elim h [ ]
  save-Moving w x ws (v ∷ vs) [] known c new k h = elim h [ ]

  module _ (others : request.new_user_id ≢ request.old_user_id) where
    move_wallets-Moving :
        (ws vs : List Wallet) (s s' : World)
        → Old ws
        → Known vs
        → Rows (Moving ws) vs s.wallets
        → move_wallets env request ws s ≡ (ok tt, s')
        → Rows (Moving []) vs s'.wallets
    unfolding move_wallets
    move_wallets-Moving [] vs s s' o k h e =
        subst (λ (t : World). Rows (Moving []) vs t.wallets) (end e) h
      where
        end : (let r : Result (Unit {0}) × World = (ok tt, s) in r) ≡ (ok tt, s') → s ≡ s'
        end e = ap (λ (r : Result (Unit {0}) × World). r.1) e
    move_wallets-Moving (w ∷ ws) vs s s' ((known, mine), o) k h e =
        go (moved_wallet env request (env.random s.drawn) w) refl e
          (λ t h' e'. move_wallets-Moving ws vs t s' o k h' e')
      where
        go :
            (r : Result Wallet)
            → moved_wallet env request (env.random s.drawn) w ≡ r
            → next
                (r, s)
                (λ moved t.
                  move_wallets env request ws
                    (save_wallet moved (record t { drawn = t.drawn + 1 })))
              ≡ (ok tt, s')
            → ((t : World)
                → Rows (Moving ws) vs t.wallets
                → move_wallets env request ws t ≡ (ok tt, s')
                → Rows (Moving []) vs s'.wallets)
            → Rows (Moving []) vs s'.wallets
        go (err x) m e ih = absurd (cc)
        go (ok x) m e ih =
            let (carried, new) = moved_wallet-Carried env request (env.random s.drawn) w x mine m in
            ih _ (save-Moving w x ws vs s.wallets known carried (λ p. others (sym new ∙ p)) k h) e

  -- The old account's rows, as the code reads them.
  mine : Wallet → Bool
  mine w = w.user_id == request.old_user_id

  filter-Old : (vs : List Wallet) → Known vs → Old (filter_by mine vs)
  unfolding mine
  filter-Old [] k = tt
  filter-Old (v ∷ vs) (kv, k) = elim (Bool-cases (mine v)) [
    | inl e ↦
        subst Old (sym (filter_by-pos mine v vs e))
          ((kv, eq-of-test v.user_id request.old_user_id e), filter-Old vs k)
    | inr e ↦ subst Old (sym (filter_by-neg mine v vs e)) (filter-Old vs k)
  ]

  Moving-cons :
      (w : Wallet) (ws vs us : List Wallet) → Rows (Moving ws) vs us → Rows (Moving (w ∷ ws)) vs us
  Moving-cons w ws [] [] h = tt
  Moving-cons w ws (v ∷ vs) (u ∷ us) ((c, inl p), h) = ((c, inl p), Moving-cons w ws vs us h)
  Moving-cons w ws (v ∷ vs) (u ∷ us) ((c, inr p), h) =
      ((c, inr (ground arith)), Moving-cons w ws vs us h)
  Moving-cons w ws [] (u ∷ us) h = elim h [ ]
  Moving-cons w ws (v ∷ vs) [] h = elim h [ ]

  filter-Moving : (vs : List Wallet) → Rows (Moving (filter_by mine vs)) vs vs
  unfolding mine
  filter-Moving [] = tt
  filter-Moving (v ∷ vs) = elim (Bool-cases (mine v)) [
    | inl e ↦
        subst (λ ws. Rows (Moving ws) (v ∷ vs) (v ∷ vs)) (sym (filter_by-pos mine v vs e))
          ((Carried-refl env v, inr (ground arith)), Moving-cons v _ vs vs (filter-Moving vs))
    | inr e ↦
        subst (λ ws. Rows (Moving ws) (v ∷ vs) (v ∷ vs)) (sym (filter_by-neg mine v vs e))
          ((Carried-refl env v, inl (λ p. ground arith)), filter-Moving vs)
  ]

  -- The row after the recovery, and whose it is not.
  abbrev pub Moved : Wallet → Wallet → Type 0
  Moved v w = Carried env v w × (w.user_id ≢ request.old_user_id)

  Moving-done : (vs us : List Wallet) → Rows (Moving []) vs us → Rows Moved vs us
  Moving-done [] [] h = tt
  Moving-done (v ∷ vs) (u ∷ us) ((c, inl p), h) = ((c, p), Moving-done vs us h)
  Moving-done (v ∷ vs) (u ∷ us) ((c, inr p), h) = absurd (cc)
  Moving-done [] (u ∷ us) h = elim h [ ]
  Moving-done (v ∷ vs) [] h = elim h [ ]

  module _ (others : request.new_user_id ≢ request.old_user_id) (now id : ℕ) where
    carry_out-Moved :
        (t s' : World) (n : ℕ)
        → find_by (λ q. q.id == id) t.requests ≡ some request
        → Known t.wallets
        → carry_out env now id t ≡ (ok n, s')
        → Rows Moved t.wallets s'.wallets
    unfolding carry_out settle
    carry_out-Moved t s' n found k e =
        go (move_wallets env request (filter_by mine t.wallets) t) refl
          (unfold mine in rw found at e)
      where
        go :
            (r : Result (Unit {0}) × World)
            → move_wallets env request (filter_by mine t.wallets) t ≡ r
            → next r (λ u. settle env now request (filter_by mine t.wallets)) ≡ (ok n, s')
            → Rows Moved t.wallets s'.wallets
        go (err x, u) m e = absurd (cc)
        go (ok tt, u) m e =
            subst (λ (y : Result ℕ × World). Rows Moved t.wallets y.1.wallets) e
              (Moving-done t.wallets u.wallets (
                move_wallets-Moving others (filter_by mine t.wallets) t.wallets t u
                  (filter-Old t.wallets k) k (filter-Moving t.wallets) m))

    -- If wallet ids are unique (`row` gives the wallet of an id), the claimed request passes from one
    -- user to another one, and `complete` answers true, then every wallet is still there in its place
    -- with its id, address and mode, none of them belongs to the old account, and the key material of
    -- each software wallet decrypts, for the wallet's owner, to what it did before.
    pub complete-Moved :
        (s s' : World)
        → find_by (λ q. q.id == id) (claim now id s).1.requests ≡ some request
        → Known s.wallets
        → complete env now id s ≡ (ok true, s')
        → Rows Moved s.wallets s'.wallets
    unfolding complete claim recover
    complete-Moved s s' found k e =
        elim (Bool-cases (count_by (is_claimable now id) s.requests == 1)) [
          | inl one ↦ done (carry_out env now id (claim now id s).1) refl (rw one at e)
          | inr other ↦ refused (rw other at e)
        ]
      where
        refused :
            {t : World}
            → (let r : Result Bool × World = (ok false, t) in r) ≡ (ok true, s')
            → Rows Moved s.wallets s'.wallets
        refused e = absurd (cc)

        done :
            (r : Result ℕ × World)
            → carry_out env now id (claim now id s).1 ≡ r
            → recover env id (rolled_back (claim now id s).1 r) ≡ (ok true, s')
            → Rows Moved s.wallets s'.wallets
        done (err x, u) m e = absurd (cc)
        done (ok n, u) m e =
            subst (λ (y : Result Bool × World). Rows Moved s.wallets y.1.wallets) e
              (carry_out-Moved (claim now id s).1 u n found k m)
