-- ===== src/Base/Lists.antt =====
-- Lists measured by native numbers under the library's names, and tables queried by Boolean tests.
use Prim.Native.Nat.{ℕ, zero, suc, ◌+◌}
use mathlib.Core.Path.{◌≡◌, refl, ap, subst}
use mathlib.Core.Logic.{inl, inr}
use mathlib.Core.Bool.{Bool, true, false, ◌||◌}
use mathlib.Core.List.{List, [], ◌∷◌, ◌++◌}
use mathlib.Core.Option.{Option, none, some, some-injective}
use native.Mathlib.Omega.{arith}
use open_privy.Base.Tests.{if◌then◌else◌, Bool-cases}

module _ {ℓ} {A : Type ℓ} where
  abbrev pub length : List A → ℕ
  length [] = 0
  length (x ∷ xs) = suc (length xs)

  abbrev pub take : ℕ → List A → List A
  take zero xs = []
  take (suc n) [] = []
  take (suc n) (x ∷ xs) = x ∷ take n xs

  abbrev pub drop : ℕ → List A → List A
  drop zero xs = xs
  drop (suc n) [] = []
  drop (suc n) (x ∷ xs) = drop n xs

  abbrev pub replicate : ℕ → A → List A
  replicate zero a = []
  replicate (suc n) a = a ∷ replicate n a

  pub length-append : (xs ys : List A) → length (xs ++ ys) ≡ length xs + length ys
  length-append [] ys = omega arith
  length-append (x ∷ xs) ys = omega (arith, length-append xs ys)

  pub take-append : (xs ys : List A) → take (length xs) (xs ++ ys) ≡ xs
  take-append [] ys = refl
  take-append (x ∷ xs) ys = ap (◌∷◌ x) (take-append xs ys)

  pub drop-append : (xs ys : List A) → drop (length xs) (xs ++ ys) ≡ ys
  drop-append [] ys = refl
  drop-append (x ∷ xs) ys = drop-append xs ys

  abbrev pub All {κ} : (A → Type κ) → List A → Type κ
  All P [] = Unit
  All P (x ∷ xs) = P x × All P xs

  -- The rows that pass, in table order.
  abbrev pub filter_by : (A → Bool) → List A → List A
  filter_by p [] = []
  filter_by p (x ∷ xs) = let rest = filter_by p xs in if p x then x ∷ rest else rest

  -- The first row that passes.
  abbrev pub find_by : (A → Bool) → List A → Option A
  find_by p [] = none
  find_by p (x ∷ xs) = if p x then some x else find_by p xs

  abbrev pub any_by : (A → Bool) → List A → Bool
  any_by p [] = false
  any_by p (x ∷ xs) = p x || any_by p xs

  abbrev pub count_by : (A → Bool) → List A → ℕ
  count_by p [] = 0
  count_by p (x ∷ xs) = let rest = count_by p xs in if p x then suc rest else rest

  -- Every row that passes is replaced.
  abbrev pub update_by : (A → Bool) → (A → A) → List A → List A
  update_by p f [] = []
  update_by p f (x ∷ xs) = (if p x then f x else x) ∷ update_by p f xs

  pub filter_by-pos :
      (p : A → Bool) (x : A) (xs : List A) → p x ≡ true → filter_by p (x ∷ xs) ≡ x ∷ filter_by p xs
  filter_by-pos p x xs e = rw e

  pub filter_by-neg :
      (p : A → Bool) (x : A) (xs : List A) → p x ≡ false → filter_by p (x ∷ xs) ≡ filter_by p xs
  filter_by-neg p x xs e = rw e

module _ {ℓ κ} {A : Type ℓ} (P : A → Type κ) where
  pub All-map {μ} : {Q : A → Type μ} → ((x : A) → P x → Q x) → (xs : List A) → All P xs → All Q xs
  All-map f [] h = tt
  All-map f (x ∷ xs) (p, h) = (f x p, All-map f xs h)

  pub All-append : (xs ys : List A) → All P xs → All P ys → All P (xs ++ ys)
  All-append [] ys h k = k
  All-append (x ∷ xs) ys (p, h) k = (p, All-append xs ys h k)

  pub All-filter_by : (t : A → Bool) (xs : List A) → All P xs → All P (filter_by t xs)
  All-filter_by t [] h = tt
  All-filter_by t (x ∷ xs) h = ground (arith, All-filter_by t xs h.1)

  pub All-take : (n : ℕ) (xs : List A) → All P xs → All P (take n xs)
  All-take zero xs h = tt
  All-take (suc n) [] h = tt
  All-take (suc n) (x ∷ xs) (p, h) = (p, All-take n xs h)

  pub All-update_by :
      (t : A → Bool) (f : A → A) (xs : List A)
      → ((x : A) → P x → t x ≡ true → P (f x))
      → All P xs
      → All P (update_by t f xs)
  All-update_by t f [] keep h = tt
  All-update_by t f (x ∷ xs) keep h = (
    elim (Bool-cases (t x)) [ inl e ↦ rw e (keep x h.0 e) | inr e ↦ rw e h.0 ],
    All-update_by t f xs keep h.1,
  )

  pub find_by-All : (t : A → Bool) (xs : List A) (x : A) → find_by t xs ≡ some x → All P xs → P x
  find_by-All t [] x e h = cc
  find_by-All t (y ∷ xs) x e h = elim (Bool-cases (t y)) [
    | inl p ↦ subst P (some-injective _ _ (rw p at e)) h.0
    | inr p ↦ find_by-All t xs x (rw p at e) h.1
  ]

pub find_by_test {ℓ} :
    {A : Type ℓ} (t : A → Bool) (xs : List A) (x : A) → find_by t xs ≡ some x → t x ≡ true
find_by_test t [] x e = cc
find_by_test t (y ∷ xs) x e = ground (arith, find_by_test t xs x)
