-- ===== src/Recovery/Lifecycle/Waits.antt =====
-- What the moves of a recovery request say of its life as a whole: the wait for the approvals and the time lock.
use open_privy.Base.{
  ℕ, Bool, true, false, ◌||◌, List, [], ◌∷◌, ◌++◌, none, some, leb, ◌≡◌, refl, sym, ◌∙◌, subst,
  arith,
}
use open_privy.Store.{
  RecoveryStatus, awaiting_approvals, time_locked, completing, completed, cancelled, declined,
  expired,
}
use open_privy.Recovery.Lifecycle.{
  Event, approving, declining, expiring, cancelling, finishing, Life, Move, approval, refusal,
  lapse, early_cancel, late_cancel, claiming, success, return, Reach, here, then_,
}

-- The statuses that end a request.
abbrev pub is_final : RecoveryStatus → Bool
is_final completed = true
is_final cancelled = true
is_final declined = true
is_final expired = true
is_final _ = false

-- A completion at the time or later.
unfoldable pub finishes_after : ℕ → List Event → Bool
finishes_after t [] = false
finishes_after t (finishing now ∷ events) = leb t now || finishes_after t events
finishes_after t (approving u ∷ events) = finishes_after t events
finishes_after t (declining ∷ events) = finishes_after t events
finishes_after t (expiring ∷ events) = finishes_after t events
finishes_after t (cancelling ∷ events) = finishes_after t events

-- An approval, and later a completion that is not before the end of the time lock that the approval sets.
unfoldable pub waited : List Event → Bool
waited [] = false
waited (approving t ∷ events) = finishes_after t events || waited events
waited (finishing now ∷ events) = waited events
waited (declining ∷ events) = waited events
waited (expiring ∷ events) = waited events
waited (cancelling ∷ events) = waited events

-- The life over a list of events.
unfoldable pub Course : List Event → Life → Life → Type 0
Course [] a c = a ≡ c
Course (g ∷ events) a c = (b : Life) × Reach g a b × Course events b c

pub Course-append :
    (events events' : List Event) (a b c : Life)
    → Course events a b
    → Course events' b c
    → Course (events ++ events') a c
unfolding Course
Course-append [] events' a b c p q = subst (λ x. Course events' x c) (sym p) q
Course-append (g ∷ events) events' a b c (m, r, p) q =
    (m, r, Course-append events events' m b c p q)

-- What the events have to be for a request to be completed by them.
can_complete : Life → List Event → Bool
can_complete (awaiting_approvals, u) events = waited events
can_complete (time_locked, none) events = false
can_complete (time_locked, some t) events = finishes_after t events
can_complete (completing, u) events = true
can_complete (completed, u) events = true
can_complete (cancelled, u) events = false
can_complete (declined, u) events = false
can_complete (expired, u) events = false

finishes_after-later :
    (t : ℕ) (g : Event) (events : List Event)
    → finishes_after t events ≡ true
    → finishes_after t (g ∷ events) ≡ true
unfolding finishes_after
finishes_after-later t (finishing now) events h = ground (arith, h)
finishes_after-later t (approving u) events h = h
finishes_after-later t declining events h = h
finishes_after-later t expiring events h = h
finishes_after-later t cancelling events h = h

waited-later : (g : Event) (events : List Event) → waited events ≡ true → waited (g ∷ events) ≡ true
unfolding waited
waited-later (approving t) events h = ground (arith, h)
waited-later (finishing now) events h = h
waited-later declining events h = h
waited-later expiring events h = h
waited-later cancelling events h = h

can_complete-later :
    (a : Life) (g : Event) (events : List Event)
    → can_complete a events ≡ true
    → can_complete a (g ∷ events) ≡ true
unfolding can_complete
can_complete-later (awaiting_approvals, u) g events h = waited-later g events h
can_complete-later (time_locked, none) g events h = h
can_complete-later (time_locked, some t) g events h = finishes_after-later t g events h
can_complete-later (completing, u) g events h = h
can_complete-later (completed, u) g events h = h
can_complete-later (cancelled, u) g events h = h
can_complete-later (declined, u) g events h = h
can_complete-later (expired, u) g events h = h

Move-can_complete :
    {g : Event} {a b : Life} (events : List Event)
    → Move g a b
    → can_complete b (g ∷ events) ≡ true
    → can_complete a (g ∷ events) ≡ true
unfolding can_complete waited finishes_after
Move-can_complete events (approval {t}) h = rw h refl
Move-can_complete events refusal h = absurd (cc)
Move-can_complete events lapse h = absurd (cc)
Move-can_complete events early_cancel h = absurd (cc)
Move-can_complete events late_cancel h = absurd (cc)
Move-can_complete events (claiming due) h = rw due refl
Move-can_complete events success h = refl
Move-can_complete events return h = refl

Reach-can_complete :
    {g : Event} {a b : Life} (events : List Event)
    → Reach g a b
    → can_complete b (g ∷ events) ≡ true
    → can_complete a (g ∷ events) ≡ true
Reach-can_complete events (here a) h = h
Reach-can_complete events (then_ m r) h = Move-can_complete events m (Reach-can_complete events r h)

Course-can_complete :
    (events : List Event) (a c : Life)
    → Course events a c
    → c.0 ≡ completed
    → can_complete a events ≡ true
unfolding Course can_complete
Course-can_complete [] a c p h = subst (λ x. can_complete x [] ≡ true) (sym p) (done c h)
  where
    done : (c : Life) → c.0 ≡ completed → can_complete c [] ≡ true
    done (completed, u) h = refl
    done (awaiting_approvals, u) h = absurd (cc)
    done (time_locked, u) h = absurd (cc)
    done (completing, u) h = absurd (cc)
    done (cancelled, u) h = absurd (cc)
    done (declined, u) h = absurd (cc)
    done (expired, u) h = absurd (cc)
Course-can_complete (g ∷ events) a c (b, r, p) h =
    Reach-can_complete events r (can_complete-later b g events (Course-can_complete events b c p h))

-- From approvals to completion there is no shorter way.
pub Course-waited :
    (events : List Event) (a c : Life)
    → Course events a c
    → a.0 ≡ awaiting_approvals
    → c.0 ≡ completed
    → waited events ≡ true
unfolding can_complete
Course-waited events (s, u) c p start end =
    subst (λ (x : RecoveryStatus). can_complete (x, u) events ≡ true) start
      (Course-can_complete events (s, u) c p end)

Move-final : {g : Event} {a b : Life} → Move g a b → is_final a.0 ≡ true → b ≡ a
Move-final approval h = absurd (cc)
Move-final refusal h = absurd (cc)
Move-final lapse h = absurd (cc)
Move-final early_cancel h = absurd (cc)
Move-final late_cancel h = absurd (cc)
Move-final (claiming due) h = absurd (cc)
Move-final success h = absurd (cc)
Move-final return h = absurd (cc)

Reach-final : {g : Event} {a b : Life} → Reach g a b → is_final a.0 ≡ true → b ≡ a
Reach-final (here a) h = refl
Reach-final (then_ m r) h =
    let same = Move-final m h in
    Reach-final r (subst (λ (x : Life). is_final x.0 ≡ true) (sym same) h) ∙ same

pub Course-final :
    (events : List Event) (a c : Life) → Course events a c → is_final a.0 ≡ true → c ≡ a
unfolding Course
Course-final [] a c p h = sym p
Course-final (g ∷ events) a c (b, r, p) h =
    let same = Reach-final r h in
    Course-final events b c p (subst (λ (x : Life). is_final x.0 ≡ true) (sym same) h) ∙ same
