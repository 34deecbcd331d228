-- ===== src/Recovery/Lifecycle/Run.antt =====
-- The life of a recovery request over any calls of recovery.service.ts after its start.
use open_privy.Base.{
  All-map, ℕ, ◌++◌, ◌≡◌, true, refl, sym, ◌∙◌, ap, Text, List, [], ◌∷◌, Option, Result, ok, err,
  All, &&-split, leb, Exec,
}
use open_privy.Base.Actions.{next}
use open_privy.Store.{World, RecoveryRequest, awaiting_approvals, completed, expired}
use open_privy.Recovery.{Env, is_awaiting}
use open_privy.Recovery.Requests.{close, cancel_by_token, cancel_for_sign_in}
use open_privy.Recovery.Votes.{Decision, describe_approval, decide}
use open_privy.Recovery.Completion.{complete, expire_all, complete_all, sweep}
use open_privy.Recovery.Lifecycle.{
  Event, expiring, cancelling, finishing, life, here, lapse, Reach-trans, IsTable, Follows,
  Follows-refl, Follows-trans, replaced, update_by-IsTable, replaced-Reach,
}
use open_privy.Recovery.Lifecycle.Snapshot.{
  Closing, closed, IsNow, IsNow-replaced, IsNow-Reach, filter-IsNow,
}
use open_privy.Recovery.Lifecycle.Cancel.{cancel_by_token-Follows, cancel_for_sign_in-Follows}
use open_privy.Recovery.Lifecycle.Decide.{
  event_of, awaiting-Move, describe_approval-Follows, decide-Follows,
}
use open_privy.Recovery.Lifecycle.Complete.{complete-Follows}
use open_privy.Recovery.Lifecycle.Waits.{
  is_final, waited, Course, Course-append, Course-waited, Course-final,
}

-- The expiry by a sweep.
abbrev lapsing : Closing
lapsing = record {
  event = expiring;
  closes = is_awaiting;
  status = expired;
  reason = "Guardians did not respond in time";
  legal = λ a h u. awaiting-Move a u (expired, u) h lapse;
}

module _ (env : Env) where
  expire_all-Follows :
      (now : ℕ) (qs : List RecoveryRequest) (row : ℕ → RecoveryRequest) (s : World)
      → IsTable row s.requests
      → All (IsNow lapsing now row) qs
      → Follows expiring row (expire_all env now qs s).1.requests
  unfolding expire_all close
  expire_all-Follows now [] row s h n = Follows-refl row s.requests h
  expire_all-Follows now (q ∷ qs) row s h (n, ns) =
      let (row', table, moved) =
        expire_all-Follows now qs (replaced (closed lapsing now q) row) _
          (update_by-IsTable (closed lapsing now q) row s.requests h)
          (IsNow-replaced lapsing now row q qs n ns) in
      (
        row',
        table,
        λ id.
            Reach-trans
              (replaced-Reach (closed lapsing now q) row (IsNow-Reach lapsing now row q n) id)
              (moved id),
      )

  -- What follows a call that keeps to the life of the requests.
  next-Follows :
      {A B : Type 0} {g : Event} (row : ℕ → RecoveryRequest) (r : Result A × World)
      (f : A → Exec World B)
      → Follows g row r.1.requests
      → ((a : A) (row' : ℕ → RecoveryRequest) (t : World)
          → IsTable row' t.requests
          → Follows g row' (f a t).1.requests)
      → Follows g row (next r f).1.requests
  next-Follows row (err e, t) f h k = h
  next-Follows row (ok a, t) f h k =
      Follows-trans row t.requests (f a t).1.requests h (λ row' table. k a row' t table)

  complete_all-Follows :
      (now : ℕ) (qs : List RecoveryRequest) (n : ℕ) (row : ℕ → RecoveryRequest) (s : World)
      → IsTable row s.requests
      → Follows (finishing now) row (complete_all env now qs n s).1.requests
  unfolding complete_all
  complete_all-Follows now [] n row s h = Follows-refl row s.requests h
  complete_all-Follows now (q ∷ qs) n row s h =
      next-Follows row (complete env now q.id s) _ (complete-Follows env now q.id row s h)
        (λ finished row' t table. complete_all-Follows now qs _ row' t table)

  -- The requests afterwards, each reached from what it was before by these events in this order.
  FollowsAll : List Event → (ℕ → RecoveryRequest) → List RecoveryRequest → Type 0
  FollowsAll events row rows =
      (row' : ℕ → RecoveryRequest) × IsTable row' rows
      × ((id : ℕ) → Course events (life (row id)) (life (row' id)))

  Follows-FollowsAll :
      {g : Event} (row : ℕ → RecoveryRequest) (rows : List RecoveryRequest)
      → Follows g row rows
      → FollowsAll (g ∷ []) row rows
  unfolding FollowsAll Course
  Follows-FollowsAll row rows (row', table, moved) =
      (row', table, λ id. (life (row' id), moved id, refl))

  next-FollowsAll :
      {A B : Type 0} {g g' : Event} (row : ℕ → RecoveryRequest) (r : Result A × World)
      (f : A → Exec World B)
      → Follows g row r.1.requests
      → ((a : A) (row' : ℕ → RecoveryRequest) (t : World)
          → IsTable row' t.requests
          → Follows g' row' (f a t).1.requests)
      → FollowsAll (g ∷ g' ∷ []) row (next r f).1.requests
  unfolding FollowsAll Course
  next-FollowsAll row (err e, t) f (row', table, moved) k =
      (row', table, λ id. (life (row' id), moved id, (life (row' id), here (life (row' id)), refl)))
  next-FollowsAll row (ok a, t) f (row', table, moved) k =
      let (row'', table', moved') = k a row' t table in
      (row'', table', λ id. (life (row' id), moved id, (life (row'' id), moved' id, refl)))

  sweep-FollowsAll :
      (now : ℕ) (row : ℕ → RecoveryRequest) (s : World)
      → IsTable row s.requests
      → FollowsAll (expiring ∷ finishing now ∷ []) row (sweep env now s).1.requests
  unfolding sweep
  sweep-FollowsAll now row s h =
      next-FollowsAll row (expire_all env now _ s) _
        (expire_all-Follows now _ row s h (
          filter-IsNow lapsing now _ row s.requests
            (λ q yes_. (&&-split (is_awaiting q.status) (leb q.approvals_expire_at now) yes_).0) h))
        (λ _ row' t table. complete_all-Follows now _ 0 row' t table)

  -- The calls that change a request, each with its time.
  pub data Call : Type 0 where
    lookup : (now : ℕ) (token : Option Text) → Call
    deciding : (now : ℕ) (token : Option Text) (decision : Decision) → Call
    cancel : (now : ℕ) (token : Option Text) → Call
    sign_in : (now user : ℕ) → Call
    completion : (now id : ℕ) → Call
    sweeping : (now : ℕ) → Call

  pub perform : Call → World → World
  perform (lookup now token) s = (describe_approval env now token s).1
  perform (deciding now token decision) s = (decide env now token decision s).1
  perform (cancel now token) s = (cancel_by_token env now token s).1
  perform (sign_in now user) s = (cancel_for_sign_in now user s).1
  perform (completion now id) s = (complete env now id s).1
  perform (sweeping now) s = (sweep env now s).1

  -- What a call may do to a request, in this order.
  unfoldable pub events_of : Call → List Event
  events_of (lookup now token) = expiring ∷ []
  events_of (deciding now token decision) = event_of env now decision ∷ []
  events_of (cancel now token) = cancelling ∷ []
  events_of (sign_in now user) = cancelling ∷ []
  events_of (completion now id) = finishing now ∷ []
  events_of (sweeping now) = expiring ∷ finishing now ∷ []

  unfoldable pub events : List Call → List Event
  events [] = []
  events (call ∷ calls) = events_of call ++ events calls

  pub perform_all : List Call → World → World
  perform_all [] s = s
  perform_all (call ∷ calls) s = perform_all calls (perform call s)

  perform-FollowsAll :
      (call : Call) (row : ℕ → RecoveryRequest) (s : World)
      → IsTable row s.requests
      → FollowsAll (events_of call) row (perform call s).requests
  unfolding perform events_of
  perform-FollowsAll (lookup now token) row s h =
      Follows-FollowsAll row _ (describe_approval-Follows env now row token s h)
  perform-FollowsAll (deciding now token decision) row s h =
      Follows-FollowsAll row _ (decide-Follows env now row token decision s h)
  perform-FollowsAll (cancel now token) row s h =
      Follows-FollowsAll row _ (cancel_by_token-Follows env now token row s h)
  perform-FollowsAll (sign_in now user) row s h =
      Follows-FollowsAll row _ (cancel_for_sign_in-Follows now user row s h)
  perform-FollowsAll (completion now id) row s h =
      Follows-FollowsAll row _ (complete-Follows env now id row s h)
  perform-FollowsAll (sweeping now) row s h = sweep-FollowsAll now row s h

  perform_all-FollowsAll :
      (calls : List Call) (row : ℕ → RecoveryRequest) (s : World)
      → IsTable row s.requests
      → FollowsAll (events calls) row (perform_all calls s).requests
  unfolding perform_all events FollowsAll Course
  perform_all-FollowsAll [] row s h = (row, h, λ id. refl)
  perform_all-FollowsAll (call ∷ calls) row s h =
      let (row1, table1, moved1) = perform-FollowsAll call row s h in
      let (row2, table2, moved2) = perform_all-FollowsAll calls row1 (perform call s) table1 in
      (
        row2,
        table2,
        λ id.
            Course-append (events_of call) (events calls) (life (row id)) (life (row1 id))
              (life (row2 id)) (moved1 id) (moved2 id),
      )

  -- Over any lookups and decisions of guardians, cancellations, sign-ins, completions and sweeps, at whatever
  -- times and in whatever order, in a table whose rows with one id are the same row (that of the function
  -- `row`), of the rows that are in the table afterwards: a request that was completed, cancelled, declined or
  -- expired has the status and the end of its time lock that it had; and a request that awaited its approvals
  -- and is now completed had an approval among the calls and, later among them, a completion or a sweep at a
  -- time that is not before the approval's time plus the time lock.
  pub perform_all-waited :
      (calls : List Call) (row : ℕ → RecoveryRequest) (s : World)
      → IsTable row s.requests
      → All
          (λ r.
            (is_final (row r.id).status ≡ true → life r ≡ life (row r.id))
            × ((row r.id).status ≡ awaiting_approvals
                → r.status ≡ completed
                → waited (events calls) ≡ true))
          (perform_all calls s).requests
  unfolding FollowsAll
  perform_all-waited calls row s h =
      let (row', table, moved) = perform_all-FollowsAll calls row s h in
      All-map _
        (λ r mine. (
          λ final. ap life mine ∙ Course-final (events calls) _ _ (moved r.id) final,
          λ start end.
              Course-waited (events calls) _ _ (moved r.id) start
                (ap (λ (q : RecoveryRequest). q.status) (sym mine) ∙ end),
        ))
        _ table
