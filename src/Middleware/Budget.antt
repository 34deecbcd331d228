-- ===== src/Middleware/Budget.antt =====
-- How many requests rate-limit.middleware.ts lets through while the limiters give no points back.
use open_privy.Base.{
  ℕ, ◌+◌, ◌≤◌, Text, text_eq, true, false, Bool, ◌&&◌, List, [], ◌∷◌, All, ◌≡◌, refl, Bool-cases,
  inl, inr, codes, if◌then◌else◌, arith,
}
use open_privy.Middleware.{
  Request, includes, Limiter, Limiters, Consumed, granted, rejected, Response, next_handler,
  too_many_requests, is_sensitive_endpoint, ip_key, consume_sensitive, consume_ip, after_sensitive,
  apply_rate_limit, ceil_seconds, retry_after,
}

≤-trans : {m n k : ℕ} → m ≤ n → n ≤ k → m ≤ k
≤-trans p q = omega arith

abbrev pub cost : Consumed → ℕ
cost (granted g) = 1
cost (rejected e) = 0

-- A budget of a key: while the time is in the window, a grant to the key spends one of the points that are left, and
-- nothing gives points back.
pub record Budget (l : Limiter) (key : Text) : Type 1 where
  pub IsIn : ℕ → Type 0
  pub left : l.State → ℕ
  pub spends :
      (now : ℕ) (k : Text) (s : l.State)
      → IsIn now
      → (if text_eq k key then cost (l.consume now k s).0 else 0) + left (l.consume now k s).1
        ≤ left s

abbrev pub served : Response → ℕ
served (next_handler headers) = 1
served (too_many_requests seconds) = 0

abbrev pub is_login_of : Text → Request → Bool
is_login_of key req =
    is_sensitive_endpoint req.path && includes (codes "login") req.path && text_eq (ip_key req) key

module _ (l : Limiter) (ip_points : ℕ) where
  -- How many of the requests that pass the test reach the next handler. They come in this order, each with its time.
  unfoldable pub count_served : (Request → Bool) → List (ℕ × Request) → Limiters l → ℕ
  count_served test [] s = 0
  count_served test ((now, req) ∷ reqs) s =
      let r = apply_rate_limit l ip_points now req s in
      (if test req then served r.0 else 0) + count_served test reqs r.1

  respond-served :
      (c : Consumed) (now : ℕ)
      → served (elim c [
        | granted g ↦ next_handler (record {
          limit = ip_points;
          remaining = g.remaining_points;
          reset = ceil_seconds (now + g.ms_before_next);
        })
        | rejected e ↦ too_many_requests (retry_after e)
      ])
        ≡ cost c
  respond-served (granted g) now = refl
  respond-served (rejected e) now = refl

  served-bound :
      (r : Response) (own : Bool) → (if own then served r else 0) ≤ (if own then 1 else 0)
  served-bound (next_handler headers) true = omega arith
  served-bound (too_many_requests seconds) true = omega arith
  served-bound r false = omega arith

  module _ (key : Text) (b : Budget l key) (now : ℕ) (within : b.IsIn now) where
    consume_ip-left :
        (k : Text) (s : Limiters l)
        → (if text_eq k key then served (consume_ip l ip_points now k s).0 else 0)
            + b.left (consume_ip l ip_points now k s).1.by_ip
          ≤ b.left s.by_ip
    unfolding consume_ip
    consume_ip-left k s =
        rw (respond-served (l.consume now k s.by_ip).0 now) (b.spends now k s.by_ip within)

    after_sensitive-left_ip :
        (k : Text) (c : Consumed) (s : Limiters l)
        → (if text_eq k key then served (after_sensitive l ip_points now k (c, s)).0 else 0)
            + b.left (after_sensitive l ip_points now k (c, s)).1.by_ip
          ≤ b.left s.by_ip
    unfolding after_sensitive
    after_sensitive-left_ip k (granted g) s = consume_ip-left k s
    after_sensitive-left_ip k (rejected e) s = elim (Bool-cases (text_eq k key)) [
      | inl own ↦ rw own (omega arith)
      | inr other ↦ rw other (omega arith)
    ]

    after_sensitive-left_login :
        (k : Text) (c : Consumed) (s : Limiters l)
        → (if text_eq k key then served (after_sensitive l ip_points now k (c, s)).0 else 0)
            + b.left (after_sensitive l ip_points now k (c, s)).1.login
          ≤ (if text_eq k key then cost c else 0) + b.left s.login
    unfolding after_sensitive consume_ip
    after_sensitive-left_login k (granted g) s =
        let bound = served-bound (consume_ip l ip_points now k s).0 (text_eq k key) in omega arith
    after_sensitive-left_login k (rejected e) s = omega arith

    apply_rate_limit-left_ip :
        (req : Request) (s : Limiters l)
        → (if text_eq (ip_key req) key
              then served (apply_rate_limit l ip_points now req s).0
              else 0)
            + b.left (apply_rate_limit l ip_points now req s).1.by_ip
          ≤ b.left s.by_ip
    unfolding apply_rate_limit consume_sensitive
    apply_rate_limit-left_ip req s = elim (Bool-cases (is_sensitive_endpoint req.path)) [
      | inr other ↦ rw other (consume_ip-left (ip_key req) s)
      | inl sensitive ↦ rw sensitive (elim (Bool-cases (includes (codes "login") req.path)) [
        | inl login ↦ rw login (after_sensitive-left_ip (ip_key req) _ _)
        | inr no_login ↦ rw no_login (elim (Bool-cases (includes (codes "signup") req.path)) [
          | inl signup ↦ rw signup (after_sensitive-left_ip (ip_key req) _ _)
          | inr no_signup ↦ rw no_signup (after_sensitive-left_ip (ip_key req) _ _)
        ])
      ])
    ]

    consume_ip-keeps_login :
        (k : Text) (s : Limiters l)
        → 0 + b.left (consume_ip l ip_points now k s).1.login ≤ b.left s.login
    unfolding consume_ip
    consume_ip-keeps_login k s = omega arith

    signup-keeps_login :
        (k : Text) (c : Consumed) (s : Limiters l)
        → 0 + b.left (after_sensitive l ip_points now k (c, s)).1.login ≤ b.left s.login
    unfolding after_sensitive
    signup-keeps_login k (granted g) s = consume_ip-keeps_login k s
    signup-keeps_login k (rejected e) s = omega arith

    apply_rate_limit-left_login :
        (req : Request) (s : Limiters l)
        → (if is_login_of key req then served (apply_rate_limit l ip_points now req s).0 else 0)
            + b.left (apply_rate_limit l ip_points now req s).1.login
          ≤ b.left s.login
    unfolding apply_rate_limit consume_sensitive
    apply_rate_limit-left_login req s = elim (Bool-cases (is_sensitive_endpoint req.path)) [
      | inr other ↦ rw other (consume_ip-keeps_login (ip_key req) s)
      | inl sensitive ↦ rw sensitive (elim (Bool-cases (includes (codes "login") req.path)) [
        | inl login ↦ rw login (
            let r = l.consume now (ip_key req) s.login in
            ≤-trans (after_sensitive-left_login (ip_key req) r.0 (record s { login = r.1 }))
              (b.spends now (ip_key req) s.login within))
        | inr no_login ↦ rw no_login (elim (Bool-cases (includes (codes "signup") req.path)) [
          | inl signup ↦ rw signup (signup-keeps_login (ip_key req) _ _)
          | inr no_signup ↦ rw no_signup (signup-keeps_login (ip_key req) _ _)
        ])
      ])
    ]

  -- Over requests in any order whose times are in the window of a budget of an address: of the requests for the
  -- sign-in (a sensitive endpoint whose path contains `login` in lower case) from this address, at most as many
  -- reach the handler as the limit of sign-ins had points left for it, and of all its requests at most as many
  -- as the limit of all requests had.
  pub count_served-budget :
      (key : Text) (b : Budget l key) (reqs : List (ℕ × Request)) (s : Limiters l)
      → All (λ r. b.IsIn r.0) reqs
      → (count_served (is_login_of key) reqs s ≤ b.left s.login)
        × (count_served (λ req. text_eq (ip_key req) key) reqs s ≤ b.left s.by_ip)
  unfolding count_served
  count_served-budget key b [] s h = (omega arith, omega arith)
  count_served-budget key b ((now, req) ∷ reqs) s (within, h) =
      let s' = (apply_rate_limit l ip_points now req s).1 in
      let (logins, all) = count_served-budget key b reqs s' h in
      (
        ≤-trans (+-mono _ logins) (apply_rate_limit-left_login key b now within req s),
        ≤-trans (+-mono _ all) (apply_rate_limit-left_ip key b now within req s),
      )
    where
      +-mono : {m n : ℕ} (k : ℕ) → m ≤ n → k + m ≤ k + n
      +-mono k le = omega arith
