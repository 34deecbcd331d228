-- ===== src/Apps/Pkce.antt =====
-- The verifiers that pkce.ts of the mobile app draws, against what auth.controller.ts takes.
use open_privy.Base.{
  ℕ, zero, suc, ◌+◌, ◌%◌, ◌≤◌, Text, length, length-append, take, drop, Bool, true, ◌&&◌, ◌||◌,
  List, [], ◌∷◌, ◌++◌, ok, err, ltb, leb, ◌==◌, if◌then◌else◌, ◌≡◌, refl, arith, Bool-cases, inl,
  inr, failure, subst,
}
use open_privy.Base.Strings.{is_base64url}
use open_privy.Auth.Mobile.{all_units, is_code_verifier}
use open_privy.Apps.{verifier_chars, collect, verifier_from_random_bytes}

-- The characters that the backend takes.
abbrev is_unreserved : ℕ → Bool
is_unreserved c = is_base64url c || c == b'.' || c == b'~'

all_units-append :
    (p : ℕ → Bool) (s t : Text)
    → all_units p s ≡ true
    → all_units p t ≡ true
    → all_units p (s ++ t) ≡ true
unfolding all_units
all_units-append p [] t h k = k
all_units-append p (c ∷ s) t h k = ground (arith, all_units-append p s t)

all_units-take :
    (p : ℕ → Bool) (n : ℕ) (s : Text) → all_units p s ≡ true → all_units p (take n s) ≡ true
unfolding all_units
all_units-take p zero s h = refl
all_units-take p (suc n) [] h = refl
all_units-take p (suc n) (c ∷ s) h = ground (arith, all_units-take p n s)

all_units-drop :
    (p : ℕ → Bool) (n : ℕ) (s : Text) → all_units p s ≡ true → all_units p (drop n s) ≡ true
unfolding all_units
all_units-drop p zero s h = h
all_units-drop p (suc n) [] h = refl
all_units-drop p (suc n) (c ∷ s) h = ground (arith, all_units-drop p n s)

length-take-one : (s : Text) → length (take 1 s) ≤ 1
length-take-one [] = omega arith
length-take-one (c ∷ s) = omega arith

chars-unreserved : all_units is_unreserved verifier_chars ≡ true
unfolding all_units is_base64url
chars-unreserved = refl

-- A text of the right characters that is not too long.
IsPart : ℕ → Text → Type 0
IsPart n s = (length s ≤ n) × (all_units is_unreserved s ≡ true)

collect-IsPart :
    (bytes : List ℕ) (n : ℕ) (out : Text) → IsPart n out → IsPart n (collect bytes n out)
unfolding collect IsPart
collect-IsPart [] n out h = h
collect-IsPart (b ∷ bytes) n out h = elim (Bool-cases (ltb (length out) n)) [
  | inr full ↦ rw full h
  | inl room ↦ rw room (elim (Bool-cases (ltb b 198)) [
    | inr rejected ↦ rw rejected (collect-IsPart bytes n out h)
    | inl taken ↦
        let char = take 1 (drop (b % 66) verifier_chars) in
        rw taken (
          collect-IsPart bytes n (out ++ char) (
            shorter (length out) (length char) room (length-take-one (drop (b % 66) verifier_chars))
                (length-append out char),
            all_units-append is_unreserved out char h.1 (
                all_units-take is_unreserved 1 (drop (b % 66) verifier_chars)
                  (all_units-drop is_unreserved (b % 66) verifier_chars chars-unreserved)),
          ))
  ])
]
  where
    shorter : (m k : ℕ) {l : ℕ} → ltb m n ≡ true → k ≤ 1 → l ≡ m + k → l ≤ n
    shorter m k room one e = ground arith

-- A verifier of 64 characters, which the mobile app draws from random bytes, is one that the backend takes at the
-- exchange: of 43 to 128 unreserved characters.
pub verifier_from_random_bytes-is_code_verifier :
    (bytes : List ℕ) (verifier : Text)
    → verifier_from_random_bytes bytes 64 ≡ ok verifier
    → is_code_verifier verifier ≡ true
unfolding verifier_from_random_bytes is_code_verifier IsPart all_units
verifier_from_random_bytes-is_code_verifier bytes verifier h =
    let (low, whole) = drawn (length (collect bytes 64 [])) (collect bytes 64 []) h in
    let part = collect-IsPart bytes 64 [] (omega arith, refl) in
    subst (λ v. (leb 43 (length v) && leb (length v) 128 && all_units is_unreserved v) ≡ true) whole
      (rw part.1 (sized (length (collect bytes 64 [])) low part.0))
  where
    drawn :
        (n : ℕ) (s : Text)
        → (if ltb n 64 then err (failure "not enough random bytes for a PKCE verifier") else ok s)
          ≡ ok verifier
        → (64 ≤ n) × (s ≡ verifier)
    drawn n s h = ground arith

    sized : (n : ℕ) → 64 ≤ n → n ≤ 64 → (leb 43 n && leb n 128 && true) ≡ true
    sized n low high = ground arith
