-- ===== src/Auth/OneTime/Refinement.antt =====
-- The map of one-time-store.ts against a specification by what each key gives at each time.
use open_privy.Base.{
  ℕ, ◌+◌, ◌*◌, ◌<◌, Text, text_eq, text_eq_iff, text_eq_refl, true, false, List, [], ◌∷◌, Option,
  none, some, leb, if◌then◌else◌, ◌≡◌, ◌≢◌, refl, sym, ◌∙◌, ap, arith, Bool-cases, inl, inr,
}
use mathlib.Core.Path.{fun_ext}
use open_privy.Auth.OneTime.{Entry, Memory, get, set, delete, live, put, take, OneTimeStore}

-- What every key gives at every time.
abbrev pub View : Type 0
View = Text → ℕ → Option Text

abbrev pub view : Memory → View
view m key t = live t (get key m)

-- A value lives to its last millisecond.
abbrev pub spec_put : ℕ → Text → Text → ℕ → View → View
spec_put now key value ttl v k t =
    if text_eq key k then (if leb t (now + ttl * 1000) then some value else none) else v k t

-- The value that is there, once.
abbrev pub spec_take : ℕ → Text → View → Option Text × View
spec_take now key v = (v key now, λ k t. if text_eq key k then none else v k t)

pub text_eq-neq : (s t : Text) → s ≢ t → text_eq s t ≡ false
text_eq-neq s t h = elim (Bool-cases (text_eq s t)) [
  | inl e ↦ absurd (h ((text_eq_iff s t).0 e))
  | inr e ↦ e
]

-- A key that equals another misses what the other misses.
miss_along : (l key k : Text) → text_eq l key ≡ false → text_eq key k ≡ true → text_eq l k ≡ false
miss_along l key k miss same = rw (sym ((text_eq_iff key k).0 same)) miss

get-set :
    (key k : Text) (e : Entry) (m : Memory)
    → get k (set key e m) ≡ (if text_eq key k then some e else get k m)
unfolding get set
get-set key k e [] = refl
get-set key k e ((l, f) ∷ m) = elim (Bool-cases (text_eq l key)) [
  | inl hit ↦ rw hit (rw ((text_eq_iff l key).0 hit) (ground arith))
  | inr miss ↦ rw miss (
      rw (get-set key k e m) (elim (Bool-cases (text_eq key k)) [
        | inl same ↦ rw same (rw (miss_along l key k miss same) refl)
        | inr other ↦ rw other refl
      ]))
]

get-delete :
    (key k : Text) (m : Memory) → get k (delete key m) ≡ (if text_eq key k then none else get k m)
unfolding get delete
get-delete key k [] = ground arith
get-delete key k ((l, f) ∷ m) = elim (Bool-cases (text_eq l key)) [
  | inl hit ↦ rw hit (rw ((text_eq_iff l key).0 hit) (rw (get-delete key k m) (ground arith)))
  | inr miss ↦ rw miss (
      rw (get-delete key k m) (elim (Bool-cases (text_eq key k)) [
        | inl same ↦ rw same (rw (miss_along l key k miss same) refl)
        | inr other ↦ rw other refl
      ]))
]

pub view-put :
    (now : ℕ) (key value : Text) (ttl : ℕ) (m : Memory) (k : Text) (t : ℕ)
    → view (put now key value ttl m) k t ≡ spec_put now key value ttl (view m) k t
unfolding put live
view-put now key value ttl m k t = rw (get-set key k _ m) (ground arith)

pub view-take :
    (now : ℕ) (key : Text) (m : Memory) (k : Text) (t : ℕ)
    → view (take now key m).1 k t ≡ (spec_take now key (view m)).1 k t
unfolding take live
view-take now key m k t = rw (get-delete key k m) (ground arith)

pub take-eq-view : (now : ℕ) (key : Text) (m : Memory) → (take now key m).0 ≡ view m key now
unfolding take
take-eq-view now key m = refl

pub data Call : Type 0 where
  put_call : (now : ℕ) (key value : Text) (ttl : ℕ) → Call
  take_call : (now : ℕ) (key : Text) → Call

-- What the takes of a run answer.
pub run : List Call → Memory → List (Option Text)
run [] m = []
run (put_call now key value ttl ∷ calls) m = run calls (put now key value ttl m)
run (take_call now key ∷ calls) m = (take now key m).0 ∷ run calls (take now key m).1

pub run_spec : List Call → View → List (Option Text)
run_spec [] v = []
run_spec (put_call now key value ttl ∷ calls) v = run_spec calls (spec_put now key value ttl v)
run_spec (take_call now key ∷ calls) v =
    (spec_take now key v).0 ∷ run_spec calls (spec_take now key v).1

-- Every sequence of puts and takes on the map of the process gives the answers of the specification:
-- a value is there from its put to the last millisecond of its time, unless the key is put again, and
-- is taken at most once.
pub run-run_spec : (calls : List Call) (m : Memory) → run calls m ≡ run_spec calls (view m)
unfolding take run run_spec
run-run_spec [] m = refl
run-run_spec (put_call now key value ttl ∷ calls) m =
    run-run_spec calls (put now key value ttl m)
    ∙ ap (run_spec calls) (fun_ext (λ k. fun_ext (view-put now key value ttl m k)))
run-run_spec (take_call now key ∷ calls) m = ap (◌∷◌ (view m key now)) (
    run-run_spec calls (take now key m).1
    ∙ ap (run_spec calls) (fun_ext (λ k. fun_ext (view-take now key m k))))

module _ (now later : ℕ) (key value : Text) (ttl : ℕ) (v : View) where
  pub spec_put-early :
      later < now + ttl * 1000 → spec_put now key value ttl v key later ≡ some value
  spec_put-early soon = rw (text_eq_refl key) (ground arith)

  pub spec_put-after : now + ttl * 1000 < later → spec_put now key value ttl v key later ≡ none
  spec_put-after late = rw (text_eq_refl key) (ground arith)

-- The map of the process as a store.
abbrev pub memory_store : OneTimeStore
memory_store = record {
  State = Memory;
  holds = λ t key m. view m key t;
  put_value = put;
  take_value = take;
  take-answer = take-eq-view;
  take-gone = λ now later key m. view-take now key m key later ∙ rw (text_eq_refl key) refl;
  take-other = λ now later key other m differ.
      view-take now key m other later ∙ rw (text_eq-neq key other differ) refl;
  put-live = λ now later key value ttl m unused soon.
      view-put now key value ttl m key later ∙ spec_put-early now later key value ttl (view m) soon;
  put-late = λ now later key value ttl m unused late.
      view-put now key value ttl m key later ∙ spec_put-after now later key value ttl (view m) late;
  put-other = λ now later key other value ttl m differ.
      view-put now key value ttl m other later ∙ rw (text_eq-neq key other differ) refl;
}
