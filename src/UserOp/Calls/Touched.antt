-- ===== src/UserOp/Calls/Touched.antt =====
-- The addresses that an operation's call data reaches, told by the interfaces alone, against `extractDestinations` of
-- userop-format.ts.
use open_privy.Base.{
  ℕ, zero, suc, ◌≤◌, Text, text_eq, text_eq_refl, length, false, List, [], ◌∷◌, Option, none, some,
  Result, ok, ◌≡◌, sym, subst, ap, ◌∙◌, All,
}
use open_privy.UserOp.{Ethers}
use open_privy.UserOp.Calls.{
  Interfaces, Erc20Call, transfer, approve, transfer_from, Call, pair_calls, recipients, calls_of,
  extract_destinations,
}
use open_privy.UserOp.Calls.Covers.{Listed, Covers, extract_destinations-Covers}

-- The element at a position.
abbrev pub get_elem? : {A : Type 0} → List A → ℕ → Option A
get_elem? [] n = none
get_elem? (x ∷ xs) zero = some x
get_elem? (x ∷ xs) (suc n) = get_elem? xs n

-- A payload that is an ERC-20 call sends tokens to the address, takes them from it, or authorizes it.
pub data Pays (i : Interfaces) (payload a : Text) : Type 0 where
  by_transfer :
      (amount : ℕ)
      → 4 ≤ length payload
      → i.parse_transaction payload ≡ ok (some (transfer a amount))
      → Pays i payload a
  by_approve :
      (amount : ℕ)
      → 4 ≤ length payload
      → i.parse_transaction payload ≡ ok (some (approve a amount))
      → Pays i payload a
  from_source :
      (to : Text) (amount : ℕ)
      → 4 ≤ length payload
      → i.parse_transaction payload ≡ ok (some (transfer_from a to amount))
      → Pays i payload a
  by_transfer_from :
      (source : Text) (amount : ℕ)
      → 4 ≤ length payload
      → i.parse_transaction payload ≡ ok (some (transfer_from source a amount))
      → Pays i payload a

-- What the account runs for the call data: an `execute`, or any call of an `executeBatch`.
pub data Runs (i : Interfaces) (data_ to payload : Text) : Type 0 where
  execute :
      (value : ℕ)
      → i.selector data_ ≡ ok i.execute_selector
      → i.decode_execute data_ ≡ ok (to, value, payload)
      → Runs i data_ to payload
  execute_batch :
      (dests funcs : List Text) (values : List ℕ) (n : ℕ)
      → i.selector data_ ≡ ok i.execute_batch_selector
      → text_eq i.execute_batch_selector i.execute_selector ≡ false
      → i.decode_execute_batch data_ ≡ ok (dests, values, funcs)
      → get_elem? dests n ≡ some to
      → get_elem? funcs n ≡ some payload
      → Runs i data_ to payload

-- The target of a call that is run, or whom its payload pays or authorizes.
pub data Touches (i : Interfaces) (data_ a : Text) : Type 0 where
  target : (payload : Text) → Runs i data_ a payload → Touches i data_ a
  paid : (to payload : Text) → Runs i data_ to payload → Pays i payload a → Touches i data_ a

module _ (e : Ethers) (i : Interfaces) where
  -- The call with this target and payload is covered.
  CoversCall : List Text → Text → Text → Type 0
  CoversCall out to payload =
      (let c : Call = record { to = to; payload = some payload } in Covers e i out c)

  pair_calls-Covers :
      (out dests funcs : List Text) (n : ℕ) (to payload : Text)
      → All (Covers e i out) (pair_calls dests funcs)
      → get_elem? dests n ≡ some to
      → get_elem? funcs n ≡ some payload
      → CoversCall out to payload
  unfolding pair_calls CoversCall
  pair_calls-Covers out [] funcs n to payload h d f = absurd (cc)
  pair_calls-Covers out (x ∷ dests) [] n to payload h d f = absurd (cc)
  pair_calls-Covers out (x ∷ dests) (y ∷ funcs) zero to payload h d f =
      subst (λ t. CoversCall out t payload) (some-injective d)
        (subst (λ p. CoversCall out x p) (some-injective f) h.0)
    where
      some-injective : {a b : Text} → (let o : Option Text = some a in o) ≡ some b → a ≡ b
      some-injective q = cc
  pair_calls-Covers out (x ∷ dests) (y ∷ funcs) (suc n) to payload h d f =
      pair_calls-Covers out dests funcs n to payload h.1 d f

  ok-injective : {xs ys : List Call} → (let r : Result (List Call) = ok xs in r) ≡ ok ys → xs ≡ ys
  ok-injective h = cc

  Runs-Covers :
      (account_call_data to payload : Text) (out : List Text)
      → extract_destinations e i account_call_data ≡ ok out
      → Runs i account_call_data to payload
      → CoversCall out to payload
  unfolding CoversCall calls_of
  Runs-Covers account_call_data to payload out h (execute value selected decoded) =
      let (calls, known, covered) = extract_destinations-Covers e i account_call_data out h in
      (subst (All (Covers e i out))
        (sym (ok-injective (rw (selected, text_eq_refl i.execute_selector, decoded) at known)))
        covered).0
  Runs-Covers account_call_data to payload out h
        (execute_batch dests funcs values n selected differs decoded d f) =
      let (calls, known, covered) = extract_destinations-Covers e i account_call_data out h in
      pair_calls-Covers out dests funcs n to payload
        (subst (All (Covers e i out))
          (sym (
            ok-injective
              (rw (selected, differs, text_eq_refl i.execute_batch_selector, decoded) at known)))
          covered)
        d f

  parsed-Listed :
      (out : List Text) (to payload : Text) (call : Erc20Call)
      → CoversCall out to payload
      → 4 ≤ length payload
      → i.parse_transaction payload ≡ ok (some call)
      → All (Listed e i out) (recipients (some call))
  unfolding CoversCall
  parsed-Listed out to payload call (target_, p, held, found) long parsed =
      let same : payload ≡ p = text-injective held in
      let (o, known, listed) = found (subst (λ q. 4 ≤ length q) same long) in
      subst (λ x. All (Listed e i out) (recipients x))
        (result-injective (sym known ∙ ap i.parse_transaction (sym same) ∙ parsed)) listed
    where
      text-injective : {a b : Text} → (let o : Option Text = some a in o) ≡ some b → a ≡ b
      text-injective q = cc

      result-injective :
          {a b : Option Erc20Call} → (let r : Result (Option Erc20Call) = ok a in r) ≡ ok b → a ≡ b
      result-injective q = cc

  Pays-Listed :
      (out : List Text) (to payload a : Text)
      → CoversCall out to payload
      → Pays i payload a
      → Listed e i out a
  Pays-Listed out to payload a c (by_transfer n long parsed) =
      (parsed-Listed out to payload (transfer a n) c long parsed).0
  Pays-Listed out to payload a c (by_approve n long parsed) =
      (parsed-Listed out to payload (approve a n) c long parsed).0
  Pays-Listed out to payload a c (from_source to' n long parsed) =
      (parsed-Listed out to payload (transfer_from a to' n) c long parsed).0
  Pays-Listed out to payload a c (by_transfer_from source n long parsed) =
      (parsed-Listed out to payload (transfer_from source a n) c long parsed).1.0

  -- Where the destinations of an operation are found, every address that its call data touches is among them, with
  -- its checksum: the target of an `execute` or of any call of an `executeBatch`, and, where such a call's
  -- payload has at least four bytes and is an ERC-20 call, the receiver of a `transfer`, the spender of
  -- an `approve`, and both sides of a `transferFrom`.
  pub extract_destinations-Touches :
      (account_call_data a : Text) (out : List Text)
      → extract_destinations e i account_call_data ≡ ok out
      → Touches i account_call_data a
      → Listed e i out a
  unfolding CoversCall
  extract_destinations-Touches account_call_data a out h (target payload runs) =
      (Runs-Covers account_call_data a payload out h runs).0
  extract_destinations-Touches account_call_data a out h (paid to payload runs pays) =
      Pays-Listed out to payload a (Runs-Covers account_call_data to payload out h runs) pays
