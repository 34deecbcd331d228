-- ===== src/Auth/OneTime.antt =====
-- services/backend/src/modules/auth/one-time-store.ts: short-lived values that are taken once. The map of
-- the process is modelled; what both it and Redis do is the interface that the sign-in uses.
pub mod Refinement
use open_privy.Base.{
  ℕ, ◌+◌, ◌*◌, ◌<◌, ◌≤◌, Text, text_eq, Bool, true, false, not, List, [], ◌∷◌, Option, none, some,
  ltb, if◌then◌else◌, ◌≡◌, ◌≢◌, filter_by,
}

pub record Entry : Type 0 where
  pub value : Text
  pub expires_at : ℕ

abbrev pub Memory : Type 0
Memory = List (Text × Entry)

-- `Map.get`, `Map.set` and `Map.delete`.
unfoldable pub get : Text → Memory → Option Entry
get key [] = none
get key ((k, e) ∷ m) = if text_eq k key then some e else get key m

unfoldable pub set : Text → Entry → Memory → Memory
set key e [] = (key, e) ∷ []
set key e ((k, f) ∷ m) = if text_eq k key then (k, e) ∷ m else (k, f) ∷ set key e m

unfoldable pub delete : Text → Memory → Memory
delete key [] = []
delete key ((k, e) ∷ m) = if text_eq k key then delete key m else (k, e) ∷ delete key m

-- What `take` answers for the entry it found.
unfoldable pub live : ℕ → Option Entry → Option Text
live now none = none
live now (some e) = if ltb e.expires_at now then none else some e.value

unfoldable pub put : ℕ → Text → Text → ℕ → Memory → Memory
put now key value ttl_seconds m =
    set key (record { value = value; expires_at = now + ttl_seconds * 1000 }) m

unfoldable pub take : ℕ → Text → Memory → Option Text × Memory
take now key m = (live now (get key m), delete key m)

-- A store: the key's value at a time, `put` and `take`, and what callers rely on. A key that is in use
-- may or may not be overwritten, and a value may or may not be there at the instant it expires.
pub record OneTimeStore : Type 1 where
  pub State : Type 0
  pub holds : ℕ → Text → State → Option Text
  pub put_value : ℕ → Text → Text → ℕ → State → State
  pub take_value : ℕ → Text → State → Option Text × State
  pub take-answer : (now : ℕ) (key : Text) (s : State) → (take_value now key s).0 ≡ holds now key s
  pub take-gone :
      (now later : ℕ) (key : Text) (s : State) → holds later key (take_value now key s).1 ≡ none
  pub take-other :
      (now later : ℕ) (key other : Text) (s : State)
      → key ≢ other
      → holds later other (take_value now key s).1 ≡ holds later other s
  pub put-live :
      (now later : ℕ) (key value : Text) (ttl : ℕ) (s : State)
      → ((t : ℕ) → holds t key s ≡ none)
      → later < now + ttl * 1000
      → holds later key (put_value now key value ttl s) ≡ some value
  pub put-late :
      (now later : ℕ) (key value : Text) (ttl : ℕ) (s : State)
      → ((t : ℕ) → holds t key s ≡ none)
      → now + ttl * 1000 < later
      → holds later key (put_value now key value ttl s) ≡ none
  pub put-other :
      (now later : ℕ) (key other value : Text) (ttl : ℕ) (s : State)
      → key ≢ other
      → holds later other (put_value now key value ttl s) ≡ holds later other s
