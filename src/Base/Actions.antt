-- ===== src/Base/Actions.antt =====
-- Actions on a state: the state after the call, and a result or the exception that it threw.
use mathlib.Core.Bool.{Bool, true, false}
use mathlib.Core.Path.{◌≡◌, refl}
use open_privy.Base.Errors.{Error, Result, ok, err}

abbrev pub Exec : Type 0 → Type 0 → Type 0
Exec S A = S → Result A × S

abbrev pub next : {S A B : Type 0} → Result A × S → (A → Exec S B) → Result B × S
next (ok a, s) f = f a s
next (err e, s) f = (err e, s)

-- What a chain that threw nothing went through.
pub next-eq-ok :
    {S A B : Type 0} (r : Result A × S) (f : A → Exec S B) {b : B} {s' : S}
    → next r f ≡ (ok b, s')
    → (a : A) × (s : S) × (r ≡ (ok a, s)) × (f a s ≡ (ok b, s'))
next-eq-ok (ok a, s) f h = (a, s, refl, h)
next-eq-ok (err e, s) f h = cc

infixl 5 ◌>>=◌ ◌>>◌
abbrev pub ◌>>=◌ : {S A B : Type 0} → Exec S A → (A → Exec S B) → Exec S B
◌>>=◌ m f s = next (m s) f

abbrev pub ◌>>◌ : {S B : Type 0} → Exec S (Unit {0}) → Exec S B → Exec S B
m >> k = m >>= λ _. k

abbrev pub pure : {S A : Type 0} → A → Exec S A
pure a s = (ok a, s)

abbrev pub raise : {S A : Type 0} → Error → Exec S A
raise e s = (err e, s)

abbrev pub lift : {S A : Type 0} → Result A → Exec S A
lift r s = (r, s)

abbrev pub gets : {S A : Type 0} → (S → A) → Exec S A
gets f s = (ok (f s), s)

abbrev pub modify : {S : Type 0} → (S → S) → Exec S (Unit {0})
modify f s = (ok tt, f s)

-- `if (b) throw e;`
abbrev pub refuse : {S : Type 0} → Bool → Error → Exec S (Unit {0})
refuse true e s = (err e, s)
refuse false e s = (ok tt, s)
