-- ===== src/Recovery/Lifecycle/Complete.antt =====
-- `complete` of recovery.service.ts against the life of a request.
use open_privy.Base.{
  ℕ, ◌≤◌, Option, leb, arith, Bool, true, ◌&&◌, List, [], ◌∷◌, some, Result, ok, err, ◌≡◌, refl,
  sym, subst, Bool-cases, Option-cases, &&-split, ==_iff, inl, inr, ◌==◌, find_by, find_by-All,
  find_by_test, count_by, update_by, filter_by, if◌then◌else◌,
}
use open_privy.Base.Actions.{next}
use open_privy.Wallet.{Wallet}
use open_privy.Store.{
  World, RecoveryRequest, RecoveryStatus, awaiting_approvals, time_locked, completing, completed,
  cancelled, declined, expired, rolled_back,
}
use open_privy.Recovery.{Env}
use open_privy.Recovery.Keys.{moved_wallet}
use open_privy.Recovery.Completion.{
  is_claimable, is_completing, set_status, claim, hand_back, move_wallets, settle, carry_out,
  recover, complete,
}
use open_privy.Recovery.Completion.Atomic.{claimable-IsRipe, count-find}
use open_privy.Recovery.Lifecycle.{
  Event, finishing, Life, life, Move, claiming, success, return, Reach, here, then_, Reach-trans,
  IsTable, Follows, Follows-refl, replaced, update_by-IsTable, replaced-Reach,
}
use open_privy.Recovery.Lifecycle.Decide.{next-keeps}

-- The rows that pass get a status.
abbrev marked :
    (RecoveryRequest → Bool) → RecoveryStatus → (ℕ → RecoveryRequest) → ℕ → RecoveryRequest
marked p status row id = if p (row id) then set_status status (row id) else row id

module _ (p : RecoveryRequest → Bool) (status : RecoveryStatus) (row : ℕ → RecoveryRequest) where
  marked-IsTable :
      (rows : List RecoveryRequest)
      → IsTable row rows
      → IsTable (marked p status row) (update_by p (set_status status) rows)
  marked-IsTable [] h = tt
  marked-IsTable (r ∷ rows) (h, hs) = (one, marked-IsTable rows hs)
    where
      one :
          (if p r then set_status status r else r)
          ≡ marked p status row (if p r then set_status status r else r).id
      one = elim (Bool-cases (p r)) [
        | inl hit ↦ rw hit (
            subst (λ x. set_status status r ≡ (if p x then set_status status x else x)) h
              (rw hit refl))
        | inr miss ↦
            rw miss (subst (λ x. r ≡ (if p x then set_status status x else x)) h (rw miss refl))
      ]

  marked-Reach :
      {g : Event}
      → ((r : RecoveryRequest) → p r ≡ true → Reach g (life r) (status, r.unlocks_at))
      → (id : ℕ) → Reach g (life (row id)) (life (marked p status row id))
  marked-Reach legal id = elim (Bool-cases (p (row id))) [
    | inl hit ↦ rw hit (legal (row id) hit)
    | inr miss ↦ rw miss (here (life (row id)))
  ]

  marked-Follows :
      {g : Event} (rows : List RecoveryRequest)
      → IsTable row rows
      → ((r : RecoveryRequest) → p r ≡ true → Reach g (life r) (status, r.unlocks_at))
      → Follows g row (update_by p (set_status status) rows)
  marked-Follows rows h legal = (marked p status row, marked-IsTable rows h, marked-Reach legal)

completing-Reach :
    {g : Event} (a : RecoveryStatus) (u : Option ℕ) (b : Life)
    → is_completing a ≡ true
    → Move g (completing, u) b
    → Reach g (a, u) b
completing-Reach completing u b h m = then_ m (here b)
completing-Reach awaiting_approvals u b h m = absurd (cc)
completing-Reach time_locked u b h m = absurd (cc)
completing-Reach completed u b h m = absurd (cc)
completing-Reach cancelled u b h m = absurd (cc)
completing-Reach declined u b h m = absurd (cc)
completing-Reach expired u b h m = absurd (cc)

claimable-Reach :
    (now id : ℕ) (q : RecoveryRequest)
    → is_claimable now id q ≡ true
    → Reach (finishing now) (life q) (completing, q.unlocks_at)
claimable-Reach now id q h =
    let (named, locked, (t, due, over)) = claimable-IsRipe now id q h in
    subst (λ a. Reach (finishing now) (a, q.unlocks_at) (completing, q.unlocks_at)) (sym locked)
      (subst (λ u. Reach (finishing now) (time_locked, u) (completing, u)) (sym due)
        (then_ (claiming (leb-true over)) (here (completing, some t))))
  where
    leb-true : {t : ℕ} → t ≤ now → leb t now ≡ true
    leb-true p = ground arith

module _ (env : Env) where
  move_wallets-keeps :
      (request : RecoveryRequest) (ws : List Wallet) (s : World)
      → (move_wallets env request ws s).1.requests ≡ s.requests
  unfolding move_wallets
  move_wallets-keeps request [] s = refl
  move_wallets-keeps request (w ∷ ws) s =
      next-keeps (moved_wallet env request (env.random s.drawn) w, s) _
        (λ moved t. move_wallets-keeps request ws _)

  settle-Follows :
      (now : ℕ) (request : RecoveryRequest) (ws : List Wallet) (row : ℕ → RecoveryRequest)
      (s : World)
      → IsTable row s.requests
      → Reach (finishing now) (life (row request.id)) (completed, request.unlocks_at)
      → Follows (finishing now) row (settle env now request ws s).1.requests
  unfolding settle
  settle-Follows now request ws row s h p =
      let c : RecoveryRequest = record request {
        status = completed;
        closed_at = some now;
        closed_reason = some "Recovered wallet(s)";
      } in
      (replaced c row, update_by-IsTable c row s.requests h, replaced-Reach c row p)

  carry_out-Follows :
      (now id : ℕ) (row : ℕ → RecoveryRequest) (s : World)
      → IsTable row s.requests
      → is_completing (row id).status ≡ true
      → Follows (finishing now) row (carry_out env now id s).1.requests
  unfolding carry_out
  carry_out-Follows now id row s h claimed =
      elim (Option-cases (find_by (λ q. q.id == id) s.requests)) [
        | inl absent ↦ rw absent (Follows-refl row s.requests h)
        | inr (q, found) ↦ rw found (
            moved q found
              (move_wallets env q (filter_by (λ w. w.user_id == q.old_user_id) s.wallets) s)
              (move_wallets-keeps q (filter_by (λ w. w.user_id == q.old_user_id) s.wallets) s))
      ]
    where
      moved :
          (q : RecoveryRequest)
          → find_by (λ q. q.id == id) s.requests ≡ some q
          → (r : Result (Unit {0}) × World) → r.1.requests ≡ s.requests
          → Follows
              (finishing now)
              row
              (next r (λ _.
                settle env now q
                  (filter_by (λ w. w.user_id == q.old_user_id) s.wallets))).1.requests
      moved q found (err e, t) same =
          subst (Follows (finishing now) row) (sym same) (Follows-refl row s.requests h)
      moved q found (ok tt, t) same =
          let named : q.id ≡ id =
            (==_iff q.id id).0
              (find_by_test (λ (q : RecoveryRequest). q.id == id) s.requests q found) in
          settle-Follows now q _ row t (subst (IsTable row) (sym same) h) (
            subst
              (λ (r : RecoveryRequest).
                is_completing r.status ≡ true
                → Reach (finishing now) (life r) (completed, q.unlocks_at))
              (find_by-All (λ r. r ≡ row r.id) _ s.requests q found h)
              (λ c. completing-Reach q.status q.unlocks_at (completed, q.unlocks_at) c success)
              (subst (λ n. is_completing (row n).status ≡ true) (sym named) claimed))

  recover-Follows :
      (now id : ℕ) (row : ℕ → RecoveryRequest) (s : World) (r : Result ℕ × World)
      → IsTable row s.requests
      → Follows (finishing now) row r.1.requests
      → Follows (finishing now) row (recover env id (rolled_back s r)).1.requests
  unfolding recover hand_back
  recover-Follows now id row s (ok n, t) h f = f
  recover-Follows now id row s (err e, t) h f =
      marked-Follows (λ q. q.id == id && is_completing q.status) time_locked row s.requests h
        (λ q hit.
          completing-Reach q.status q.unlocks_at (time_locked, q.unlocks_at)
            (&&-split (q.id == id) (is_completing q.status) hit).1 return)

  -- A completion, whatever comes of it.
  pub complete-Follows :
      (now id : ℕ) (row : ℕ → RecoveryRequest) (s : World)
      → IsTable row s.requests
      → Follows (finishing now) row (complete env now id s).1.requests
  unfolding complete claim
  complete-Follows now id row s h =
      elim (Bool-cases (count_by (is_claimable now id) s.requests == 1)) [
        | inr other ↦ rw other (row1, table1, moved1)
        | inl one ↦ rw one (
            let (row', table, moved) =
              recover-Follows now id row1 (claim now id s).1
                (carry_out env now id (claim now id s).1) table1
                (carry_out-Follows now id row1 (claim now id s).1 table1 (held one)) in
            (row', table, λ i. Reach-trans (moved1 i) (moved i)))
      ]
    where
      row1 : ℕ → RecoveryRequest
      row1 = marked (is_claimable now id) completing row

      table1 : IsTable row1 (claim now id s).1.requests
      table1 = marked-IsTable (is_claimable now id) completing row s.requests h

      moved1 : (i : ℕ) → Reach (finishing now) (life (row i)) (life (row1 i))
      moved1 = marked-Reach (is_claimable now id) completing row (claimable-Reach now id)

      held :
          (count_by (is_claimable now id) s.requests == 1) ≡ true
          → is_completing (row1 id).status ≡ true
      held one =
          let (q, found, ripe) = count-find now id s.requests one in
          let mine = find_by-All (λ r. r ≡ row r.id) (is_claimable now id) s.requests q found h in
          let hit : is_claimable now id (row id) ≡ true =
            subst (λ n. is_claimable now id (row n) ≡ true) ripe.0
              (subst (λ r. is_claimable now id r ≡ true) mine
                (find_by_test (is_claimable now id) s.requests q found)) in
          rw hit refl
