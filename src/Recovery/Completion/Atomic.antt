-- ===== src/Recovery/Completion/Atomic.antt =====
-- The claim, the roll-back and the hand-over of `complete` of recovery.service.ts.
use open_privy.Base.{
  ℕ, ◌≤◌, Bool, true, false, ◌&&◌, List, [], ◌∷◌, Option, none, some, Result, ok, err, ◌≡◌, refl,
  ap, ap₂, arith, ◌≢◌, Bool-cases, inl, inr, ◌⊎◌, if◌then◌else◌, find_by, update_by, count_by, ◌==◌,
  All,
}
use open_privy.Store.{World, RecoveryRequest, time_locked, completing, rolled_back}
use open_privy.Recovery.{Env}
use open_privy.Recovery.Completion.{
  is_claimable, is_completing, set_status, claim, hand_back, recover, complete,
}

-- A request that `complete` may claim.
abbrev pub IsRipe : ℕ → ℕ → RecoveryRequest → Type 0
IsRipe now id q =
    (q.id ≡ id) × (q.status ≡ time_locked) × ((t : ℕ) × (q.unlocks_at ≡ some t) × (t ≤ now))

pub claimable-IsRipe :
    (now id : ℕ) (q : RecoveryRequest) → is_claimable now id q ≡ true → IsRipe now id q
unfolding is_claimable
claimable-IsRipe now id q e = go q.unlocks_at refl
  where
    go : (u : Option ℕ) → q.unlocks_at ≡ u → IsRipe now id q
    go none h = absurd (ground arith)
    go (some t) h = (ground arith, ground arith, (t, h, ground arith))

pub count-find :
    (now id : ℕ) (qs : List RecoveryRequest)
    → (count_by (is_claimable now id) qs == 1) ≡ true
    → (q : RecoveryRequest) × (find_by (is_claimable now id) qs ≡ some q) × IsRipe now id q
count-find now id [] e = absurd (ground arith)
count-find now id (q ∷ qs) e = elim (Bool-cases (is_claimable now id q)) [
  | inl hit ↦ (q, rw hit, claimable-IsRipe now id q hit)
  | inr miss ↦
      let (r, found, ripe) = count-find now id qs (rw miss at e) in (r, rw miss found, ripe)
]

-- A claim that is handed back leaves each row as it was, if none was being completed before.
Restored :
    (now id : ℕ) (q : RecoveryRequest) → is_completing q.status ≡ false → RecoveryRequest → Type 0
Restored now id q idle c =
    (if c.id == id && is_completing c.status then set_status time_locked c else c) ≡ q

Restored-claimed :
    (now id : ℕ) (q : RecoveryRequest) (idle : is_completing q.status ≡ false)
    → Restored now id q idle (if is_claimable now id q then set_status completing q else q)
unfolding Restored
Restored-claimed now id q idle = elim (Bool-cases (is_claimable now id q)) [
  | inl hit ↦
      rw hit (ground (arith, (claimable-IsRipe now id q hit).0, (claimable-IsRipe now id q hit).1))
  | inr miss ↦ rw miss (ground arith)
]

handed_back :
    (now id : ℕ) (qs : List RecoveryRequest)
    → All (λ q. is_completing q.status ≡ false) qs
    → update_by
        (λ q. q.id == id && is_completing q.status)
        (set_status time_locked)
        (update_by (is_claimable now id) (set_status completing) qs)
      ≡ qs
handed_back now id [] h = refl
handed_back now id (q ∷ qs) (idle, h) =
    ap₂ (◌∷◌) (unfold Restored in Restored-claimed now id q idle) (handed_back now id qs h)

unclaimed :
    (now id : ℕ) (qs : List RecoveryRequest)
    → count_by (is_claimable now id) qs ≡ 0
    → update_by (is_claimable now id) (set_status completing) qs ≡ qs
unclaimed now id [] e = refl
unclaimed now id (q ∷ qs) e = elim (Bool-cases (is_claimable now id q)) [
  | inl hit ↦ absurd (ground arith)
  | inr miss ↦ rw miss (ap (◌∷◌ q) (unclaimed now id qs (rw miss at e)))
]

claimable-le :
    (now id : ℕ) (qs : List RecoveryRequest)
    → count_by (is_claimable now id) qs ≤ count_by (λ q. q.id == id) qs
unfolding is_claimable
claimable-le now id [] = omega arith
claimable-le now id (q ∷ qs) = ground (arith, claimable-le now id qs)

eq-one : (n : ℕ) → (n == 1) ≡ false → n ≢ 1
eq-one n e = ground arith

module _ (env : Env) (now id : ℕ) (s : World) where
  -- How a call of `complete` can end.
  abbrev pub Ends : Result Bool × World → Type 0
  Ends r =
      ((r.0 ≡ ok false) × (r.1.db ≡ s.db))
      ⊎ ((r.0 ≡ ok true)
          × ((q : RecoveryRequest) × (find_by (is_claimable now id) s.requests ≡ some q)
              × IsRipe now id q))

  recover-Ends :
      (r : Result ℕ × World)
      → All (λ q. is_completing q.status ≡ false) s.requests
      → (count_by (is_claimable now id) s.requests == 1) ≡ true
      → Ends (recover env id (rolled_back (claim now id s).1 r))
  unfolding recover claim hand_back
  recover-Ends (ok n, t) idle one = inr (refl, count-find now id s.requests one)
  recover-Ends (err x, t) idle one =
      inl (refl, ap (λ qs. record s.db { requests = qs }) (handed_back now id s.requests idle))

  -- If at most one request has this id and none is already being completed: either `complete` answers
  -- false and the database is as it was, or it answers true and the request with this id was time
  -- locked with its lock over. It never throws.
  pub complete-Ends :
      count_by (λ q. q.id == id) s.requests ≤ 1
      → All (λ q. is_completing q.status ≡ false) s.requests
      → Ends (complete env now id s)
  unfolding complete claim
  complete-Ends unique idle = elim (Bool-cases (count_by (is_claimable now id) s.requests == 1)) [
    | inl one ↦ rw one (unfold claim in recover-Ends _ idle one)
    | inr other ↦
        let none_claimed : count_by (is_claimable now id) s.requests ≡ 0 = omega (
          arith,
          eq-one (count_by (is_claimable now id) s.requests) other,
          claimable-le now id s.requests,
        ) in
        rw other (
          inl (
            refl,
            ap (λ qs. record s.db { requests = qs }) (unclaimed now id s.requests none_claimed),
          ))
  ]
