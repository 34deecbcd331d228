-- ===== src/Apps.antt =====
-- apps/mobile/src/lib: what the mobile app checks before it signs in and before it signs (pkce.ts, token.ts,
-- validation.ts), over ASCII texts. Ethers and the decoding of tokens are parameters.
pub mod Pkce
mod Tests
use open_privy.Base.{
  ℕ, zero, suc, ◌+◌, ◌*◌, ◌-◌, ◌%◌, Text, text_eq, to_lower, trim, length, take, drop, Bool, true,
  false, not, ◌&&◌, ◌||◌, List, [], ◌∷◌, ◌++◌, Option, none, some, failure, Result, ok, err, ltb,
  leb, ◌==◌, if◌then◌else◌, codes, or_err, String,
}
use open_privy.Base.Errors.{◌>>=◌, ◌>>◌}
use open_privy.Encryption.Hex.{split_on}
use open_privy.Transactions.{Wei, wei, minus}
use open_privy.Auth.Mobile.{all_units}
use open_privy.Middleware.{starts_with, includes}

-- `VERIFIER_CHARS`.
abbrev pub verifier_chars : Text
verifier_chars = codes "ABCDEFGHIJKLMNOPQRSTUVWXYZabcdefghijklmnopqrstuvwxyz0123456789-._~"

-- The loop over the random bytes: those below 198 give a character each.
unfoldable pub collect : List ℕ → ℕ → Text → Text
collect [] n out = out
collect (b ∷ bytes) n out =
    let more =
      collect bytes n (if ltb b 198 then out ++ take 1 (drop (b % 66) verifier_chars) else out) in
    if ltb (length out) n then more else out

unfoldable pub verifier_from_random_bytes : List ℕ → ℕ → Result Text
verifier_from_random_bytes bytes n =
    if ltb (length (collect bytes n [])) n
    then err (failure "not enough random bytes for a PKCE verifier")
    else ok (collect bytes n [])

-- The part of a list at a position, none past its end.
abbrev pub part_at : ℕ → List Text → Option Text
part_at n [] = none
part_at zero (p ∷ ps) = some p
part_at (suc n) (p ∷ ps) = part_at n ps

-- What a pair gives, or the other pairs.
unfoldable pub code_of :
    (Text → Result Text) → Option Text → Option Text → Result (Option Text) → Result (Option Text)
code_of decode (some k) (some (c ∷ v)) others =
    if text_eq k (codes "code") then (decode (c ∷ v) >>= λ code. ok (some code)) else others
code_of decode _ _ others = others

-- The first pair with the key `code` and a value. `decodeURIComponent` is an argument.
unfoldable pub find_code : (Text → Result Text) → List Text → Result (Option Text)
find_code decode [] = ok none
find_code decode (pair ∷ pairs) =
    code_of decode (part_at 0 (split_on b'=' pair)) (part_at 1 (split_on b'=' pair))
      (find_code decode pairs)

unfoldable pub code_from_redirect :
    (Text → Result Text) → (url expected_prefix : Text) → Result (Option Text)
code_from_redirect decode url expected_prefix =
    if not (starts_with expected_prefix url)
    then ok none
    else elim (part_at 1 (split_on b'?' url)) [
      | none ↦ ok none
      | some query ↦ find_code decode (split_on b'&' query)
    ]

-- `isTokenUsable`, for the time at which the token expires, none where it cannot be read.
unfoldable pub is_token_usable :
    (jwt_expires_at : Text → Option ℕ) → Option Text → (now skew_ms : ℕ) → Bool
is_token_usable jwt_expires_at none now skew_ms = false
is_token_usable jwt_expires_at (some []) now skew_ms = false
is_token_usable jwt_expires_at (some (c ∷ token)) now skew_ms = elim (jwt_expires_at (c ∷ token)) [
  | none ↦ false
  | some exp ↦ ltb (now + skew_ms) exp
]

-- `Result` of validation.ts.
pub data Checked {ℓ} (A : Type ℓ) : Type ℓ where
  good : (value : A) → Checked A
  bad : (error : String) → Checked A

abbrev is_hex : ℕ → Bool
is_hex c = (leb b'0' c && leb c b'9') || (leb b'a' c && leb c b'f') || (leb b'A' c && leb c b'F')

abbrev is_digit : ℕ → Bool
is_digit c = leb b'0' c && leb c b'9'

-- `/^0x[0-9a-fA-F]{40}$/`.
unfoldable pub looks_like_address : Text → Bool
looks_like_address raw =
    starts_with (codes "0x") raw && length raw == 42 && all_units is_hex (drop 2 raw)

abbrev same_address : Option Text → Text → Bool
same_address none address = false
same_address (some []) address = false
same_address (some (c ∷ own)) address = text_eq (to_lower address) (to_lower (c ∷ own))

abbrev zero_address : Text
zero_address = codes "0x0000000000000000000000000000000000000000"

-- With `getAddress` of ethers.
unfoldable pub validate_recipient : (Text → Result Text) → Text → Option Text → Checked Text
validate_recipient get_address input own_address =
    if text_eq (trim input) []
    then bad "Enter the recipient address."
    else if not (looks_like_address (trim input))
    then bad "That is not an Ethereum address. It should start with 0x followed by 40 characters."
    else elim (get_address (trim input)) [
      | err e ↦
          bad
            "This address has a typo (its checksum does not match). Copy it again from the recipient."
      | ok address ↦
          if text_eq address zero_address
          then bad "Sending to the zero address would destroy the funds."
          else if same_address own_address address
          then bad "That is your own wallet address."
          else good address
    ]

abbrev is_digits : Text → Bool
is_digits [] = false
is_digits (c ∷ s) = all_units is_digit (c ∷ s)

-- `/^\d+(\.\d+)?$/`.
unfoldable pub looks_like_amount : List Text → Bool
looks_like_amount (whole ∷ []) = is_digits whole
looks_like_amount (whole ∷ fraction ∷ []) = is_digits whole && is_digits fraction
looks_like_amount _ = false

abbrev fraction_length : List Text → ℕ
fraction_length (whole ∷ fraction ∷ _) = length fraction
fraction_length _ = 0

-- The balance bounds the amount where it can be read and is not negative.
unfoldable pub exceeds : ℕ → Option (Option Wei) → Bool
exceeds amount (some (some (wei balance))) = ltb balance amount
exceeds amount _ = false

unfoldable pub check_wei : ℕ → Option (Option Wei) → Checked ℕ
check_wei amount balance =
    if leb amount 0
    then bad "The amount must be more than zero."
    else if exceeds amount balance
    then bad "That is more than your balance."
    else good amount

-- With `parseEther` of ethers, none where it throws; a text of digits is not negative.
unfoldable pub validate_amount : (Text → Option Wei) → Text → Option Text → Result (Checked ℕ)
validate_amount parse_ether input balance_eth =
    if text_eq (trim input) []
    then ok (bad "Enter an amount.")
    else if not (looks_like_amount (split_on b'.' (trim input)))
    then ok (bad "Use digits and an optional decimal point, like 0.05.")
    else if ltb 18 (fraction_length (split_on b'.' (trim input)))
    then ok (bad "ETH supports at most 18 decimal places.")
    else elim (parse_ether (trim input)) [
      | none ↦ err (failure "parseEther")
      | some (minus amount) ↦ ok (bad "The amount must be more than zero.")
      | some (wei amount) ↦
          ok (check_wei amount (elim balance_eth [ none ↦ none | some b ↦ some (parse_ether b) ]))
    ]

-- The host: what follows up to `/`, `?` or `#`.
unfoldable pub host_of : Text → Text
host_of [] = []
host_of (c ∷ s) = if c == b'/' || c == b'?' || c == b'#' then [] else c ∷ host_of s

unfoldable pub ends_with : (suffix s : Text) → Bool
ends_with suffix s = text_eq (drop (length s - length suffix) s) suffix

unfoldable pub is_trusted_auth_url : Text → Bool
is_trusted_auth_url url =
    starts_with (codes "https://") url
    && (text_eq (to_lower (host_of (drop 8 url))) (codes "api.workos.com")
        || ends_with (codes ".authkit.app") (to_lower (host_of (drop 8 url))))
