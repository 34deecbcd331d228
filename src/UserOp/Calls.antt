-- ===== src/UserOp/Calls.antt =====
-- `extractDestinations` and `encodeExecute` of userop-format.ts: the addresses that the calls of an operation
-- send value to or authorize. The coding of calls by ethers is a parameter.
pub mod Covers
pub mod Touched
use open_privy.Base.{
  ℕ, Text, text_eq, length, Bool, true, false, List, [], ◌∷◌, ◌++◌, Option, none, some, failure,
  Error, Result, ok, err, ltb, if◌then◌else◌, any_by,
}
use open_privy.Base.Errors.{◌>>=◌, ◌>>◌}
use open_privy.UserOp.{Ethers}

-- The calls of the ERC-20 interface.
pub data Erc20Call : Type 0 where
  transfer : (to : Text) (amount : ℕ) → Erc20Call
  approve : (spender : Text) (amount : ℕ) → Erc20Call
  transfer_from : (source to : Text) (amount : ℕ) → Erc20Call

-- `accountIface` and `erc20Iface`.
pub record Interfaces : Type 0 where
  -- `dataSlice(_, 0, 4)`, which throws on less than four bytes.
  pub selector : Text → Result Text
  pub execute_selector : Text
  pub execute_batch_selector : Text
  pub decode_execute : Text → Result (Text × ℕ × Text)
  pub decode_execute_batch : Text → Result (List Text × List ℕ × List Text)
  pub encode_execute : (dest : Text) (value : ℕ) (func : Text) → Result Text
  -- None for a selector that is not of the interface.
  pub parse_transaction : Text → Result (Option Erc20Call)

-- The payload of a call is absent where the batch has fewer payloads than targets.
pub record Call : Type 0 where
  pub to : Text
  pub payload : Option Text

unfoldable pub pair_calls : List Text → List Text → List Call
pair_calls [] funcs = []
pair_calls (to ∷ dests) [] = record { to = to; payload = none } ∷ pair_calls dests []
pair_calls (to ∷ dests) (func ∷ funcs) =
    record { to = to; payload = some func } ∷ pair_calls dests funcs

-- `Set.add`, in order of insertion.
unfoldable pub add : Text → List Text → List Text
add a out = if any_by (text_eq a) out then out else out ++ a ∷ []

-- Whom an ERC-20 call sends to or authorizes.
abbrev pub recipients : Option Erc20Call → List Text
recipients none = []
recipients (some (transfer to amount)) = to ∷ []
recipients (some (approve spender amount)) = spender ∷ []
recipients (some (transfer_from source to amount)) = source ∷ to ∷ []

module _ (e : Ethers) (i : Interfaces) where
  unfoldable pub calls_of : Text → Result (List Call)
  calls_of account_call_data = do
    selector ← i.selector account_call_data
    if text_eq selector i.execute_selector
        then (do
          decoded ← i.decode_execute account_call_data
          ok (record { to = decoded.0; payload = some decoded.2 } ∷ []))
        else if text_eq selector i.execute_batch_selector
        then (do
          decoded ← i.decode_execute_batch account_call_data
          ok (pair_calls decoded.0 decoded.2))
        else err (failure "Unsupported account callData: only execute/executeBatch can be screened")

  unfoldable pub add_all : List Text → List Text → Result (List Text)
  add_all [] out = ok out
  add_all (a ∷ rest) out = do address ← e.get_address a; add_all rest (add address out)

  -- What the payload of a call adds.
  unfoldable pub add_recipients : Option Text → List Text → Result (List Text)
  add_recipients none out = err (failure "invalid BytesLike value")
  add_recipients (some payload) out =
      if ltb (length payload) 4
      then ok out
      else (i.parse_transaction payload >>= λ parsed. add_all (recipients parsed) out)

  -- The loop over the calls.
  unfoldable pub add_calls : List Call → List Text → Result (List Text)
  add_calls [] out = ok out
  add_calls (c ∷ calls) out = do
    address ← e.get_address c.to
    more ← add_recipients c.payload (add address out)
    add_calls calls more

  unfoldable pub extract_destinations : Text → Result (List Text)
  extract_destinations account_call_data = do calls ← calls_of account_call_data; add_calls calls []
