-- ===== src/Middleware/Tests.antt =====
-- Tests of the middleware, with limiters that count to five.
use open_privy.Base.{
  ℕ, ◌+◌, ◌-◌, ◌≤◌, Text, text_eq, List, [], ◌∷◌, Bool-cases, inl, inr, arith, true, false, none,
  some, ◌≡◌, refl, codes, if◌then◌else◌, ltb,
}
use open_privy.Base.Strings.{lower_unit}
use open_privy.Middleware.{
  Request, starts_with, includes, Limiter, Limiters, granted, rejected, is_sensitive_endpoint,
  ip_key,
}
use open_privy.Middleware.Budget.{Budget, cost, count_served, is_login_of, count_served-budget}

abbrev counter : Limiter
counter = record {
  State = ℕ;
  consume = λ now key n.
      if ltb n 5
      then (granted (record { remaining_points = 5; ms_before_next = 1000 }), n + 1)
      else (rejected (record { ms_before_next = some 1500 }), n);
}

abbrev counters : Limiters counter
counters = record { by_ip = 0; login = 5; signup = 0 }

abbrev post : Text → Request
post path = record {
  method = codes "POST";
  path = path;
  ip = some (codes "::1");
  session_cookie = none;
  authorization = none;
  csrf_header = none;
}

shouted : is_sensitive_endpoint (codes "/auth/LOGIN") ≡ true
unfolding is_sensitive_endpoint includes starts_with lower_unit
shouted = refl

no_login : includes (codes "login") (codes "/auth/LOGIN") ≡ false
unfolding includes starts_with
no_login = refl

no_signup : includes (codes "signup") (codes "/auth/LOGIN") ≡ false
unfolding includes starts_with
no_signup = refl

spent :
    (now : ℕ) (k : Text) (n : ℕ)
    → (if text_eq k (codes "::1") then cost (counter.consume now k n).0 else 0)
        + (5 - (counter.consume now k n).1)
      ≤ 5 - n
spent now k n = elim (Bool-cases (ltb n 5)) [
  | inl more ↦ rw more (ground arith)
  | inr full ↦ rw full (ground arith)
]

-- The points that the counter has left.
abbrev five_less : Budget counter (codes "::1")
five_less = record {
  IsIn = λ now. Unit {0};
  left = λ n. 5 - n;
  spends = λ now k n within. spent now k n;
}

abbrev sign_ins : List (ℕ × Request)
sign_ins =
    (0, post (codes "/auth/login"))
    ∷ (1, post (codes "/auth/login"))
    ∷ (2, post (codes "/auth/me"))
    ∷ (3, post (codes "/auth/login"))
    ∷ []

-- Two sign-ins are left.
count_served-budget_example :
    (count_served counter 100
        (is_login_of (codes "::1"))
        sign_ins
        (record { by_ip = 0; login = 3; signup = 0 })
      ≤ 2)
    × (count_served counter 100
          (λ req. text_eq (ip_key req) (codes "::1"))
          sign_ins
          (record { by_ip = 0; login = 3; signup = 0 })
        ≤ 5)
count_served-budget_example =
    count_served-budget counter 100 (codes "::1") five_less sign_ins
      (record { by_ip = 0; login = 3; signup = 0 }) (tt, (tt, (tt, (tt, tt))))
