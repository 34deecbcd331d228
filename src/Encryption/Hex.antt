-- ===== src/Encryption/Hex.antt =====
-- The hex coding of `Buffer`, and `split` at one character.
use open_privy.Base.{
  Bool, true, false, ℕ, ◌+◌, ◌-◌, ◌*◌, ◌/◌, ◌%◌, ◌<◌, Text, All, ◌&&◌, List, [], ◌∷◌, ◌++◌, Option,
  none, some, ◌≡◌, ◌≢◌, refl, ap, arith, ltb, leb, ◌==◌, if◌then◌else◌,
}

unfoldable pub hex_digit : ℕ → ℕ
hex_digit n = if ltb n 10 then n + 48 else n + 87

-- Both cases are read.
unfoldable pub hex_value : ℕ → Option ℕ
hex_value d =
    if leb b'0' d && leb d b'9'
    then some (d - 48)
    else if leb b'a' d && leb d b'f'
    then some (d - 87)
    else if leb b'A' d && leb d b'F'
    then some (d - 55)
    else none

unfoldable pub to_hex : Text → Text
unfolding hex_digit
to_hex [] = []
to_hex (b ∷ bs) = hex_digit (b / 16) ∷ hex_digit (b % 16) ∷ to_hex bs

push_byte : Option ℕ → Option ℕ → Text → Text
push_byte (some hi) (some lo) rest = (hi * 16 + lo) ∷ rest
push_byte _ _ rest = []

-- `Buffer.from(_, 'hex')` stops at the first pair that is no byte.
unfoldable pub from_hex : Text → Text
unfolding hex_value push_byte
from_hex [] = []
from_hex (h ∷ []) = []
from_hex (h ∷ l ∷ s) = push_byte (hex_value h) (hex_value l) (from_hex s)

-- Whether the digits are in pairs, as `decipher.update` demands.
unfoldable pub is_paired : Text → Bool
is_paired [] = true
is_paired (h ∷ []) = false
is_paired (h ∷ l ∷ s) = is_paired s

push_first : ℕ → List Text → List Text
push_first c [] = (c ∷ []) ∷ []
push_first c (p ∷ ps) = (c ∷ p) ∷ ps

unfoldable pub split_on : ℕ → Text → List Text
unfolding push_first
split_on sep [] = [] ∷ []
split_on sep (c ∷ s) = if c == sep then [] ∷ split_on sep s else push_first c (split_on sep s)

abbrev pub IsByte : ℕ → Type 0
IsByte b = b < 256

hex_value-hex_digit : (n : ℕ) → n < 16 → hex_value (hex_digit n) ≡ some n
unfolding hex_value hex_digit
hex_value-hex_digit n h = ground arith

pub from_hex-to_hex : (bs : Text) → All IsByte bs → from_hex (to_hex bs) ≡ bs
unfolding from_hex to_hex push_byte
from_hex-to_hex [] h = refl
from_hex-to_hex (b ∷ bs) (p, h) =
    let hi : b / 16 < 16 = omega arith in
    let lo : b % 16 < 16 = omega arith in
    rw
      (
        hex_value-hex_digit (b / 16) hi,
        hex_value-hex_digit (b % 16) lo,
        from_hex-to_hex bs h,
        push_byte,
      )
      (ap (λ x. x ∷ bs) (omega arith))

pub is_paired-to_hex : (bs : Text) → is_paired (to_hex bs) ≡ true
unfolding is_paired to_hex
is_paired-to_hex [] = refl
is_paired-to_hex (b ∷ bs) = is_paired-to_hex bs

split_on-step :
    (sep c : ℕ) (s : Text) → c ≢ sep → split_on sep (c ∷ s) ≡ push_first c (split_on sep s)
unfolding split_on
split_on-step sep c s h = ground arith

pub hex_digit-ne-colon : (n : ℕ) → hex_digit n ≢ b':'
unfolding hex_digit
hex_digit-ne-colon n = ground arith

-- No digit is a colon, so a coded text is one part.
pub split_on-to_hex_append :
    (bs s : Text) → split_on b':' (to_hex bs ++ (b':' ∷ s)) ≡ to_hex bs ∷ split_on b':' s
unfolding to_hex
split_on-to_hex_append [] s = unfold split_on in refl
split_on-to_hex_append (b ∷ bs) s =
    rw (split_on-step b':' (hex_digit (b / 16)) _ (hex_digit-ne-colon (b / 16))) (
      rw (split_on-step b':' (hex_digit (b % 16)) _ (hex_digit-ne-colon (b % 16)))
        (rw (split_on-to_hex_append bs s) (unfold push_first in refl)))

pub split_on-to_hex : (bs : Text) → split_on b':' (to_hex bs) ≡ to_hex bs ∷ []
unfolding to_hex
split_on-to_hex [] = unfold split_on in refl
split_on-to_hex (b ∷ bs) =
    rw (split_on-step b':' (hex_digit (b / 16)) _ (hex_digit-ne-colon (b / 16))) (
      rw (split_on-step b':' (hex_digit (b % 16)) _ (hex_digit-ne-colon (b % 16)))
        (rw (split_on-to_hex bs) (unfold push_first in refl)))
