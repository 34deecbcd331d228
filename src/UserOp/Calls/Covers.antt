-- ===== src/UserOp/Calls/Covers.antt =====
-- What `extractDestinations` of userop-format.ts finds of an operation's calls.
use open_privy.Base.{
  ◌≤◌, Text, text_eq, text_eq_refl, length, Bool, true, List, [], ◌∷◌, ◌++◌, Option, none, some,
  Result, ok, ltb, ◌≡◌, refl, subst, arith, All, any_by, Bool-cases, inl, inr,
}
use open_privy.Base.Errors.{>>=-eq-ok}
use open_privy.UserOp.{Ethers}
use open_privy.UserOp.Calls.{
  Interfaces, Erc20Call, Call, add, recipients, calls_of, add_all, add_recipients, add_calls,
  extract_destinations,
}

-- The address is in the list.
abbrev pub Has : List Text → Text → Type 0
Has out a = any_by (text_eq a) out ≡ true

-- Every address of the first list is in the second.
abbrev Within : List Text → List Text → Type 0
Within xs ys = (a : Text) → Has xs a → Has ys a

any_by-append-left :
    (p : Text → Bool) (xs ys : List Text) → any_by p xs ≡ true → any_by p (xs ++ ys) ≡ true
any_by-append-left p [] ys h = absurd (cc)
any_by-append-left p (x ∷ xs) ys h = ground (arith, any_by-append-left p xs ys)

any_by-append-last :
    (p : Text → Bool) (xs : List Text) (y : Text) → p y ≡ true → any_by p (xs ++ y ∷ []) ≡ true
any_by-append-last p [] y h = ground arith
any_by-append-last p (x ∷ xs) y h = ground (arith, any_by-append-last p xs y h)

add-Has : (a : Text) (out : List Text) → Has (add a out) a
unfolding add
add-Has a out = elim (Bool-cases (any_by (text_eq a) out)) [
  | inl there ↦ rw there there
  | inr new ↦ rw new (any_by-append-last (text_eq a) out a (text_eq_refl a))
]

add-Within : (a : Text) (out : List Text) → Within out (add a out)
unfolding add
add-Within a out b h = elim (Bool-cases (any_by (text_eq a) out)) [
  | inl there ↦ rw there h
  | inr new ↦ rw new (any_by-append-left (text_eq b) out (a ∷ []) h)
]

ok-injective : {xs ys : List Text} → (let r : Result (List Text) = ok xs in r) ≡ ok ys → xs ≡ ys
ok-injective h = cc

module _ (e : Ethers) (i : Interfaces) where
  -- The address, with its checksum, is in the list.
  abbrev pub Listed : List Text → Text → Type 0
  Listed out a = (b : Text) × (e.get_address a ≡ ok b) × Has out b

  -- The call's target, and whom an ERC-20 call in its payload sends to or authorizes. A payload of less than four
  -- bytes is no call.
  abbrev pub Covers : List Text → Call → Type 0
  Covers out c =
      Listed out c.to
      × (payload : Text) × (c.payload ≡ some payload)
      × (4 ≤ length payload
          → (parsed : Option Erc20Call) × (i.parse_transaction payload ≡ ok parsed)
            × All (Listed out) (recipients parsed))

  Listed-Within : (xs ys : List Text) (a : Text) → Within xs ys → Listed xs a → Listed ys a
  Listed-Within xs ys a w (b, known, there) = (b, known, w b there)

  All-Listed-Within :
      (xs ys : List Text) (bs : List Text) → Within xs ys → All (Listed xs) bs → All (Listed ys) bs
  All-Listed-Within xs ys [] w h = tt
  All-Listed-Within xs ys (a ∷ bs) w (h, hs) =
      (Listed-Within xs ys a w h, All-Listed-Within xs ys bs w hs)

  add_all-Listed :
      (rest out more : List Text)
      → add_all e i rest out ≡ ok more
      → Within out more × All (Listed more) rest
  unfolding add_all
  add_all-Listed [] out more h = (λ a there. subst (λ o. Has o a) (ok-injective h) there, tt)
  add_all-Listed (a ∷ rest) out more h =
      let (b, known, h1) = >>=-eq-ok (e.get_address a) _ h in
      let (w, listed) = add_all-Listed rest (add b out) more h1 in
      (λ x there. w x (add-Within b out x there), ((b, known, w b (add-Has b out)), listed))

  -- What the payload of a call adds.
  Paid : List Text → Option Text → Type 0
  Paid out o =
      (payload : Text) × (o ≡ some payload)
      × (4 ≤ length payload
          → (parsed : Option Erc20Call) × (i.parse_transaction payload ≡ ok parsed)
            × All (Listed out) (recipients parsed))

  add_recipients-Paid :
      (o : Option Text) (out more : List Text)
      → add_recipients e i o out ≡ ok more
      → Within out more × Paid more o
  unfolding add_recipients Paid
  add_recipients-Paid none out more h = absurd (cc)
  add_recipients-Paid (some payload) out more h = elim (Bool-cases (ltb (length payload) 4)) [
    | inl short ↦
        let same : out ≡ more = ok-injective (rw short at h) in
        (λ a there. subst (λ o. Has o a) same there, (payload, refl, λ long. absurd (ground arith)))
    | inr long ↦
        let (parsed, known, h1) = >>=-eq-ok (i.parse_transaction payload) _ (rw long at h) in
        let (w, listed) = add_all-Listed (recipients parsed) out more h1 in
        (w, (payload, refl, λ _. (parsed, known, listed)))
  ]

  Covers-Within : (xs ys : List Text) (c : Call) → Within xs ys → Covers xs c → Covers ys c
  Covers-Within xs ys c w (target, payload, held, found) = (
    Listed-Within xs ys c.to w target,
    payload,
    held,
    λ long.
        let (parsed, known, listed) = found long in
        (parsed, known, All-Listed-Within xs ys (recipients parsed) w listed),
  )

  add_calls-Covers :
      (calls : List Call) (out more : List Text)
      → add_calls e i calls out ≡ ok more
      → Within out more × All (Covers more) calls
  unfolding add_calls Paid
  add_calls-Covers [] out more h = (λ a there. subst (λ o. Has o a) (ok-injective h) there, tt)
  add_calls-Covers (c ∷ calls) out more h =
      let (b, known, h1) = >>=-eq-ok (e.get_address c.to) _ h in
      let (next, added, h2) = >>=-eq-ok (add_recipients e i c.payload (add b out)) _ h1 in
      let (w1, paid) = add_recipients-Paid c.payload (add b out) next added in
      let (w2, rest) = add_calls-Covers calls next more h2 in
      (
        λ a there. w2 a (w1 a (add-Within b out a there)),
        (
          Covers-Within next more c w2 ((b, known, w1 b (add-Has b out)), paid.0, paid.1, paid.2),
          rest,
        ),
      )

  -- Where the destinations of an operation are found, its calls can be read, and every call is covered:
  -- its target is listed, and so is whom a payload of at least four bytes sends tokens to or
  -- authorizes, where it is an ERC-20 call.
  pub extract_destinations-Covers :
      (account_call_data : Text) (out : List Text)
      → extract_destinations e i account_call_data ≡ ok out
      → (calls : List Call) × (calls_of e i account_call_data ≡ ok calls) × All (Covers out) calls
  unfolding extract_destinations
  extract_destinations-Covers account_call_data out h =
      let (calls, known, h1) = >>=-eq-ok (calls_of e i account_call_data) _ h in
      (calls, known, (add_calls-Covers calls [] out h1).1)
