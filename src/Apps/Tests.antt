-- ===== src/Apps/Tests.antt =====
-- Tests of the app's helpers, on small texts.
use open_privy.Base.{◌≡◌, refl, true, ok, some, codes, replicate}
use open_privy.Base.Strings.{lower_unit, text_eq}
use open_privy.Encryption.Hex.{split_on}
use open_privy.Middleware.{starts_with}
use open_privy.Auth.Mobile.{is_code_verifier}
use open_privy.Apps.{
  collect, verifier_from_random_bytes, find_code, code_of, code_from_redirect, host_of, ends_with,
  is_trusted_auth_url,
}
use open_privy.Apps.Pkce.{verifier_from_random_bytes-is_code_verifier}

drawn : verifier_from_random_bytes (replicate 80 66) 64 ≡ ok (replicate 64 b'A')
unfolding verifier_from_random_bytes collect
drawn = refl

verifier_from_random_bytes-is_code_verifier_example : is_code_verifier (replicate 64 b'A') ≡ true
verifier_from_random_bytes-is_code_verifier_example =
    verifier_from_random_bytes-is_code_verifier (replicate 80 66) (replicate 64 b'A') drawn

redirected :
    code_from_redirect (λ t. ok t) (codes "openprivy://auth?code=abc") (codes "openprivy://auth")
    ≡ ok (some (codes "abc"))
unfolding code_from_redirect find_code code_of starts_with split_on text_eq
redirected = refl

-- A browser reads the backslash as the end of the host.
backslash : is_trusted_auth_url (codes "https://evil.com\\.authkit.app/") ≡ true
unfolding is_trusted_auth_url starts_with host_of ends_with text_eq lower_unit
backslash = refl
