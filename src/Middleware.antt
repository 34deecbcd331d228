-- ===== src/Middleware.antt =====
-- services/backend/src/common/middleware: the check against forged requests (csrf.middleware.ts) and the rate
-- limits (rate-limit.middleware.ts), over ASCII paths. The limiters of rate-limiter-flexible are a
-- parameter.
pub mod Budget
mod Tests
use open_privy.Base.{
  ℕ, ◌+◌, ◌*◌, ◌/◌, Text, text_eq, to_lower, Bool, true, false, not, ◌&&◌, ◌||◌, List, [], ◌∷◌,
  Option, none, some, Error, forbidden, Result, ok, err, ◌==◌, if◌then◌else◌, codes, any_by,
  is_space, trim_start,
}

-- What the middleware reads of a request. A header that is absent is none.
pub record Request : Type 0 where
  pub method : Text
  pub path : Text
  pub ip : Option Text
  pub session_cookie : Option Text
  pub authorization : Option Text
  pub csrf_header : Option Text

unfoldable pub starts_with : (prefix s : Text) → Bool
starts_with [] s = true
starts_with (a ∷ prefix) [] = false
starts_with (a ∷ prefix) (b ∷ s) = a == b && starts_with prefix s

-- `s.includes(part)`.
unfoldable pub includes : (part s : Text) → Bool
includes part [] = starts_with part []
includes part (c ∷ s) = starts_with part (c ∷ s) || includes part s

abbrev pub is_present : Option Text → Bool
is_present none = false
is_present (some []) = false
is_present (some (c ∷ s)) = true

-- `SAFE_METHODS`.
abbrev pub is_safe : Text → Bool
is_safe method = any_by (text_eq method) (codes "GET" ∷ codes "HEAD" ∷ codes "OPTIONS" ∷ [])

-- White space, and then a character.
unfoldable pub spaced_value : Text → Bool
spaced_value [] = false
spaced_value (c ∷ s) = is_space c && not (text_eq (trim_start s) [])

unfoldable pub after : (prefix s : Text) → Option Text
after [] s = some s
after (a ∷ prefix) [] = none
after (a ∷ prefix) (b ∷ s) = let rest = after prefix s in if a == b then rest else none

-- `/^Bearer\s+\S+/i`.
unfoldable pub uses_bearer : Option Text → Bool
uses_bearer none = false
uses_bearer (some s) = elim (after (codes "bearer") (to_lower s)) [
  | none ↦ false
  | some rest ↦ spaced_value rest
]

-- `use` of the CSRF middleware: an exception, or the next handler.
unfoldable pub check_csrf : Request → Result (Unit {0})
check_csrf req =
    if is_safe req.method
    then ok tt
    else if is_present req.session_cookie
        && not (uses_bearer req.authorization)
        && not (is_present req.csrf_header)
    then err (forbidden "Missing X-CSRF-Token header")
    else ok tt

-- `RateLimiterRes`: of a request that is granted, or of one that is rejected.
pub record Grant : Type 0 where
  pub remaining_points : ℕ
  pub ms_before_next : ℕ

-- A rejection, whose time is absent where it is another error.
pub record Rejection : Type 0 where
  pub ms_before_next : Option ℕ

pub data Consumed : Type 0 where
  granted : Grant → Consumed
  rejected : Rejection → Consumed

-- `RateLimiterAbstract`.
pub record Limiter : Type 1 where
  pub State : Type 0
  pub consume : (now : ℕ) (key : Text) → State → Consumed × State

pub record Limiters (l : Limiter) : Type 0 where
  pub by_ip : l.State
  pub login : l.State
  pub signup : l.State

-- The headers of a response.
pub record Headers : Type 0 where
  pub limit : ℕ
  pub remaining : ℕ
  pub reset : ℕ

-- The next handler with these headers, or 429 with a time to wait.
pub data Response : Type 0 where
  next_handler : Headers → Response
  too_many_requests : (retry_after : ℕ) → Response

unfoldable pub is_sensitive_endpoint : Text → Bool
is_sensitive_endpoint path =
    any_by (λ part. includes part (to_lower path))
      (codes "/auth/login"
        ∷ codes "/auth/signup"
        ∷ codes "/auth/password"
        ∷ codes "/wallet/create"
        ∷ codes "/recovery/initiate"
        ∷ codes "/recovery/approve"
        ∷ codes "/account-abstraction/send"
        ∷ codes "/account-abstraction/execute"
        ∷ [])

-- `Math.ceil(ms / 1000)`.
abbrev pub ceil_seconds : ℕ → ℕ
ceil_seconds ms = (ms + 999) / 1000

abbrev pub ip_key : Request → Text
ip_key req = elim req.ip [
  | none ↦ codes "unknown"
  | some s ↦ if text_eq s [] then codes "unknown" else s
]

unfoldable pub retry_after : Rejection → ℕ
retry_after r = elim r.ms_before_next [ none ↦ 60 | some ms ↦ ceil_seconds ms ]

module _ (l : Limiter) (ip_points now : ℕ) where
  -- The stricter limit of an endpoint.
  unfoldable pub consume_sensitive : Text → Text → Limiters l → Consumed × Limiters l
  consume_sensitive path key s =
      if includes (codes "login") path
      then (let r = l.consume now key s.login in (r.0, record s { login = r.1 }))
      else if includes (codes "signup") path
      then (let r = l.consume now key s.signup in (r.0, record s { signup = r.1 }))
      else (granted (record { remaining_points = 0; ms_before_next = 0 }), s)

  -- The limit of all requests of an address.
  unfoldable pub consume_ip : Text → Limiters l → Response × Limiters l
  consume_ip key s =
      let r = l.consume now key s.by_ip in
      (
        elim r.0 [
          | granted g ↦ next_handler (record {
            limit = ip_points;
            remaining = g.remaining_points;
            reset = ceil_seconds (now + g.ms_before_next);
          })
          | rejected e ↦ too_many_requests (retry_after e)
        ],
        record s { by_ip = r.1 },
      )

  unfoldable pub after_sensitive : Text → Consumed × Limiters l → Response × Limiters l
  after_sensitive key (granted g, s) = consume_ip key s
  after_sensitive key (rejected e, s) = (too_many_requests (retry_after e), s)

  -- `use` of the rate limit middleware, with `applyRateLimit`.
  unfoldable pub apply_rate_limit : Request → Limiters l → Response × Limiters l
  apply_rate_limit req s =
      if is_sensitive_endpoint req.path
      then after_sensitive (ip_key req) (consume_sensitive req.path (ip_key req) s)
      else consume_ip (ip_key req) s
