-- ===== src/Defi/Tests.antt =====
-- Tests of the staking: a balance whose text is its number of wei.
use open_privy.Base.{ℕ, ◌*◌, ◌/◌, ◌^◌, Text, [], ◌∷◌, none, ok, ◌≡◌, refl, codes, Result}
use open_privy.Base.Strings.{text_eq, lower_unit}
use open_privy.Defi.{Lido, calculate_rewards, get_chain_id}

abbrev first_unit : Text → Result ℕ
first_unit [] = ok 0
first_unit (n ∷ s) = ok (n * 10 ^ 18)

abbrev lido : Lido
lido = record {
  balance_of = λ a. ok 7;
  gas_price = ok none;
  estimate_submit = λ n. ok 1;
  estimate_withdrawal = λ n o. ok 1;
  encode_submit = [];
  encode_withdrawal = λ n o. [];
  parse_ether = first_unit;
  format_ether = λ n. n ∷ [];
  to_decimal = λ n. n ∷ [];
  basis_points = λ apy. 384;
}

-- One ether, staked for a day at 3.84 percent.
rewarded :
    calculate_rewards lido (10 ^ 18 ∷ []) (codes "3.84")
    ≡ ok (10 ^ 18 * 10 ^ 18 * 384 / 1000000 / 365)
unfolding calculate_rewards
rewarded = refl

unknown_chain : get_chain_id (codes "solana") ≡ 1
unfolding get_chain_id text_eq lower_unit
unknown_chain = refl
