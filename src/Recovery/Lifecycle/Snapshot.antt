-- ===== src/Recovery/Lifecycle/Snapshot.antt =====
-- The loops of recovery.service.ts over requests that were read before: what such a request is by now.
use open_privy.Base.{
  ℕ, Option, String, Bool, true, List, [], ◌∷◌, ◌≡◌, sym, ◌∙◌, ap, subst, All, Bool-cases, ==_iff,
  inl, inr, ◌⊎◌, ◌==◌, filter_by,
}
use open_privy.Store.{RecoveryRequest, RecoveryStatus}
use open_privy.Recovery.Lifecycle.{Event, life, Reach, here, IsTable, replaced, closed_row}

-- How a loop closes requests: which statuses it closes, and the status and reason that it gives.
pub record Closing : Type 0 where
  pub event : Event
  pub closes : RecoveryStatus → Bool
  pub status : RecoveryStatus
  pub reason : String
  pub legal :
      (a : RecoveryStatus) → closes a ≡ true → (u : Option ℕ) → Reach event (a, u) (status, u)

module _ (c : Closing) (now : ℕ) where
  abbrev pub closed : RecoveryRequest → RecoveryRequest
  closed q = closed_row now q c.status c.reason

  -- A request that was open is still itself, or closed by the loop.
  abbrev pub IsNow : (ℕ → RecoveryRequest) → RecoveryRequest → Type 0
  IsNow row q = (c.closes q.status ≡ true) × ((row q.id ≡ q) ⊎ (row q.id ≡ closed q))

  -- Closing what the row is now gives the same as closing what it was.
  IsNow-closed :
      (row : ℕ → RecoveryRequest) (q : RecoveryRequest) → IsNow row q → closed (row q.id) ≡ closed q
  IsNow-closed row q (open_, inl e) = ap closed e
  IsNow-closed row q (open_, inr e) = ap closed e

  pub IsNow-replaced :
      (row : ℕ → RecoveryRequest) (q : RecoveryRequest) (qs : List RecoveryRequest)
      → IsNow row q
      → All (IsNow row) qs
      → All (IsNow (replaced (closed q) row)) qs
  IsNow-replaced row q [] n ns = tt
  IsNow-replaced row q (r ∷ qs) n (m, ns) = (
    (
      m.0,
      elim (Bool-cases (r.id == q.id)) [
        | inr other ↦ rw other m.1
        | inl same ↦ rw same (
            inr (
              sym (IsNow-closed row q n)
              ∙ ap (λ k. closed (row k)) (sym ((==_iff r.id q.id).0 same))
              ∙ IsNow-closed row r m))
      ],
    ),
    IsNow-replaced row q qs n ns,
  )

  pub IsNow-Reach :
      (row : ℕ → RecoveryRequest) (q : RecoveryRequest)
      → IsNow row q
      → Reach c.event (life (row q.id)) (c.status, q.unlocks_at)
  IsNow-Reach row q (open_, inl e) =
      subst (λ (r : RecoveryRequest). Reach c.event (life r) (c.status, q.unlocks_at)) (sym e)
        (c.legal q.status open_ q.unlocks_at)
  IsNow-Reach row q (open_, inr e) =
      subst (λ (r : RecoveryRequest). Reach c.event (life r) (c.status, q.unlocks_at)) (sym e)
        (here (c.status, q.unlocks_at))

  -- The requests that a loop starts from.
  pub filter-IsNow :
      (p : RecoveryRequest → Bool) (row : ℕ → RecoveryRequest) (rows : List RecoveryRequest)
      → ((q : RecoveryRequest) → p q ≡ true → c.closes q.status ≡ true)
      → IsTable row rows
      → All (IsNow row) (filter_by p rows)
  filter-IsNow p row [] fits h = tt
  filter-IsNow p row (r ∷ rows) fits (h, hs) = elim (Bool-cases (p r)) [
    | inl yes_ ↦ rw yes_ ((fits r yes_, inl (sym h)), filter-IsNow p row rows fits hs)
    | inr no_ ↦ rw no_ (filter-IsNow p row rows fits hs)
  ]
