-- ===== src/Recovery/Lifecycle.antt =====
-- The life of a recovery request, over the calls of recovery.service.ts that change one: the statuses that it goes
-- through, and what a call may do to the table of requests.
pub mod Snapshot
pub mod Cancel
pub mod Decide
pub mod Complete
pub mod Waits
pub mod Run
use open_privy.Base.{
  ℕ, String, Bool, true, false, List, [], ◌∷◌, some, ◌≡◌, refl, sym, ◌∙◌, ap, arith, ==_iff, subst,
  All, Bool-cases, inl, inr, ◌==◌, update_by, Option, leb, if◌then◌else◌, Result,
}
use open_privy.Store.{
  World, RecoveryRequest, RecoveryStatus, awaiting_approvals, time_locked, completing, completed,
  cancelled, declined, expired, save_request,
}
use open_privy.Recovery.Requests.{close}

-- What a call may do to a request. A vote sets the time when its time lock is over; a completion has a time.
pub data Event : Type 0 where
  approving : (unlocks_at : ℕ) → Event
  declining expiring cancelling : Event
  finishing : (now : ℕ) → Event

-- The status and the end of the time lock.
abbrev pub Life : Type 0
Life = RecoveryStatus × Option ℕ

abbrev pub life : RecoveryRequest → Life
life q = (q.status, q.unlocks_at)

-- The moves that an event allows.
pub data Move : Event → Life → Life → Type 0 where
  approval :
      {t : ℕ} {u : Option ℕ} → Move (approving t) (awaiting_approvals, u) (time_locked, some t)
  refusal : {u : Option ℕ} → Move declining (awaiting_approvals, u) (declined, u)
  lapse : {g : Event} {u : Option ℕ} → Move g (awaiting_approvals, u) (expired, u)
  early_cancel : {u : Option ℕ} → Move cancelling (awaiting_approvals, u) (cancelled, u)
  late_cancel : {u : Option ℕ} → Move cancelling (time_locked, u) (cancelled, u)
  claiming :
      {now t : ℕ}
      → leb t now ≡ true
      → Move (finishing now) (time_locked, some t) (completing, some t)
  success : {now : ℕ} {u : Option ℕ} → Move (finishing now) (completing, u) (completed, u)
  return : {now : ℕ} {u : Option ℕ} → Move (finishing now) (completing, u) (time_locked, u)

pub data Reach (g : Event) : Life → Life → Type 0 where
  here : (a : Life) → Reach g a a
  then_ : {a b c : Life} → Move g a b → Reach g b c → Reach g a c

pub Reach-trans : {g : Event} {a b c : Life} → Reach g a b → Reach g b c → Reach g a c
Reach-trans (here a) q = q
Reach-trans (then_ m p) q = then_ m (Reach-trans p q)

-- The rows are those of the function: an id has one row.
abbrev pub IsTable : (ℕ → RecoveryRequest) → List RecoveryRequest → Type 0
IsTable row = All (λ r. r ≡ row r.id)

-- The requests afterwards, each reached from its status before.
abbrev pub Follows : Event → (ℕ → RecoveryRequest) → List RecoveryRequest → Type 0
Follows g row rows =
    (row' : ℕ → RecoveryRequest) × IsTable row' rows
    × ((id : ℕ) → Reach g (life (row id)) (life (row' id)))

pub Follows-refl :
    {g : Event} (row : ℕ → RecoveryRequest) (rows : List RecoveryRequest)
    → IsTable row rows
    → Follows g row rows
Follows-refl row rows h = (row, h, λ id. here (life (row id)))

pub Follows-trans :
    {g : Event} (row : ℕ → RecoveryRequest) (rows rows' : List RecoveryRequest)
    → Follows g row rows
    → ((row' : ℕ → RecoveryRequest) → IsTable row' rows → Follows g row' rows')
    → Follows g row rows'
Follows-trans row rows rows' (row', table, moved) next =
    let (row'', table', moved') = next row' table in
    (row'', table', λ id. Reach-trans (moved id) (moved' id))

-- The table with one row replaced.
abbrev pub replaced : RecoveryRequest → (ℕ → RecoveryRequest) → ℕ → RecoveryRequest
replaced q row id = if id == q.id then q else row id

pub update_by-IsTable :
    (q : RecoveryRequest) (row : ℕ → RecoveryRequest) (rows : List RecoveryRequest)
    → IsTable row rows
    → IsTable (replaced q row) (update_by (λ r. r.id == q.id) (λ _. q) rows)
update_by-IsTable q row [] h = tt
update_by-IsTable q row (r ∷ rows) (h, hs) = (
  elim (Bool-cases (r.id == q.id)) [
    | inl hit ↦ rw hit (rw (itself q.id) refl)
    | inr miss ↦ rw miss (rw miss h)
  ],
  update_by-IsTable q row rows hs,
)
  where
    itself : (n : ℕ) → (n == n) ≡ true
    itself n = ground arith

-- A row that is replaced by one with its id.
pub replaced-Reach :
    {g : Event} (q : RecoveryRequest) (row : ℕ → RecoveryRequest)
    → Reach g (life (row q.id)) (life q)
    → (id : ℕ) → Reach g (life (row id)) (life (replaced q row id))
replaced-Reach {g} q row p id = elim (Bool-cases (id == q.id)) [
  | inl hit ↦ rw hit (subst (λ n. Reach g (life (row n)) (life q)) (sym ((==_iff id q.id).0 hit)) p)
  | inr miss ↦ rw miss (here (life (row id)))
]

abbrev pub closed_row : ℕ → RecoveryRequest → RecoveryStatus → String → RecoveryRequest
closed_row now q status reason = record q {
  status = status;
  closed_at = some now;
  closed_reason = some reason;
}

pub close-Follows :
    {g : Event} (now : ℕ) (q : RecoveryRequest) (status : RecoveryStatus) (reason : String)
    (row : ℕ → RecoveryRequest) (s : World)
    → IsTable row s.requests
    → Reach g (life (row q.id)) (status, q.unlocks_at)
    → Follows g row (close now q status reason s).1.requests
unfolding close
close-Follows now q status reason row s h p =
    let c = closed_row now q status reason in
    (replaced c row, update_by-IsTable c row s.requests h, replaced-Reach c row p)
