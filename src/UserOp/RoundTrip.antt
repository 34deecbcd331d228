-- ===== src/UserOp/RoundTrip.antt =====
-- The two conversions of userop-format.ts, one after the other.
use open_privy.Base.{
  ℕ, ◌-◌, ◌≤◌, Text, length, take, drop, All, false, [], ◌∷◌, ◌++◌, Option, none, some, ok, ◌≡◌,
  refl, ◌∙◌, ap, arith, ltb, inl, inr, ◌⊎◌, zero, suc,
}
use open_privy.Encryption.Hex.{IsByte}
use open_privy.UserOp.{
  Ethers, PackedUserOp, RpcUserOp, max_uint128, Paymaster, pack128, unpack128,
  pack_paymaster_and_data, factory_of, paymaster_of, to_rpc_user_op, init_code_of,
  paymaster_and_data_of, from_rpc_user_op,
}

-- What the format relies on of ethers, on bytes: an address is twenty bytes, whose spelling with a
-- checksum stands for the same bytes, and sixteen bytes are a number of 128 bits and back.
pub record EthersLaws (e : Ethers) : Type 0 where
  pub get_address : (b : Text) → length b ≡ 20 → e.get_address b ≡ ok b
  pub to_number_le : (b : Text) → length b ≡ 16 → All IsByte b → e.to_number b ≤ max_uint128
  pub to_be_hex : (b : Text) → length b ≡ 16 → All IsByte b → e.to_be_hex (e.to_number b) ≡ ok b
  pub solidity_packed :
      (hi lo : ℕ) (a b : Text)
      → e.to_be_hex hi ≡ ok a
      → e.to_be_hex lo ≡ ok b
      → e.solidity_packed hi lo ≡ a ++ b

take-drop : (n : ℕ) (b : Text) → take n b ++ drop n b ≡ b
take-drop zero b = ground arith
take-drop (suc n) [] = refl
take-drop (suc n) (x ∷ b) = ap (◌∷◌ x) (take-drop n b)

length-take : (n : ℕ) (b : Text) → n ≤ length b → length (take n b) ≡ n
length-take zero b h = ground arith
length-take (suc n) [] h = absurd (omega arith)
length-take (suc n) (x ∷ b) h = ap suc (length-take n b (omega arith))

pub take-all : (n : ℕ) (b : Text) → length b ≡ n → take n b ≡ b
take-all zero [] h = ground arith
take-all zero (x ∷ b) h = absurd (omega arith)
take-all (suc n) [] h = refl
take-all (suc n) (x ∷ b) h = ap (◌∷◌ x) (take-all n b (omega arith))

length-drop : (n : ℕ) (b : Text) → length (drop n b) ≡ length b - n
length-drop zero b = ground arith
length-drop (suc n) [] = omega arith
length-drop (suc n) (x ∷ b) = omega (arith, length-drop n b)

All-take : (n : ℕ) (b : Text) → All IsByte b → All IsByte (take n b)
All-take zero b h = ground arith
All-take (suc n) [] h = tt
All-take (suc n) (x ∷ b) (h, hs) = (h, All-take n b hs)

All-drop : (n : ℕ) (b : Text) → All IsByte b → All IsByte (drop n b)
All-drop zero b h = h
All-drop (suc n) [] h = tt
All-drop (suc n) (x ∷ b) (h, hs) = All-drop n b hs

-- Lengths that the chain accepts: two packed words, and no init code or paymaster part shorter
-- than its header.
pub record IsPacked (op : PackedUserOp) : Type 0 where
  pub sender : length op.sender ≡ 20
  pub account_gas_limits : (length op.account_gas_limits ≡ 32) × All IsByte op.account_gas_limits
  pub gas_fees : (length op.gas_fees ≡ 32) × All IsByte op.gas_fees
  pub init_code : (op.init_code ≡ []) ⊎ (20 ≤ length op.init_code)
  pub paymaster_and_data : (op.paymaster_and_data ≡ []) ⊎ (52 ≤ length op.paymaster_and_data)
  pub paymaster_bytes : All IsByte op.paymaster_and_data

module _ (e : Ethers) (laws : EthersLaws e) where
  pack128-unpack128 :
      (b : Text)
      → length b ≡ 32
      → All IsByte b
      → (hi : ℕ) × (lo : ℕ) × (unpack128 e b ≡ ok (hi, lo)) × (pack128 e hi lo ≡ ok b)
  unfolding pack128 unpack128
  pack128-unpack128 b h bytes =
      let hi = take 16 b in
      let lo = take 16 (drop 16 b) in
      let hi_length : length hi ≡ 16 = length-take 16 b (omega arith) in
      let lo_length : length lo ≡ 16 =
        length-take 16 (drop 16 b) (omega (arith, length-drop 16 b)) in
      let hi_bytes = All-take 16 b bytes in
      let lo_bytes = All-take 16 (drop 16 b) (All-drop 16 b bytes) in
      (
        e.to_number hi,
        e.to_number lo,
        ground arith,
        fits (e.to_number hi) (e.to_number lo) (laws.to_number_le hi hi_length hi_bytes)
            (laws.to_number_le lo lo_length lo_bytes)
            (laws.solidity_packed (e.to_number hi) (e.to_number lo) hi lo
                (laws.to_be_hex hi hi_length hi_bytes) (laws.to_be_hex lo lo_length lo_bytes)
              ∙ halves),
      )
    where
      halves : take 16 b ++ take 16 (drop 16 b) ≡ b
      halves =
          ap (λ t. take 16 b ++ t) (take-all 16 (drop 16 b) (omega (arith, length-drop 16 b)))
          ∙ take-drop 16 b

      fits :
          (hi lo : ℕ)
          → hi ≤ max_uint128
          → lo ≤ max_uint128
          → e.solidity_packed hi lo ≡ b
          → pack128 e hi lo ≡ ok b
      fits hi lo h l p = ground arith

  pub init_code_of-factory_of :
      (code : Text)
      → (code ≡ []) ⊎ (20 ≤ length code)
      → (f : Option Text) × (d : Option Text) × (factory_of e code ≡ ok (f, d))
        × (init_code_of e f d ≡ code)
  unfolding factory_of init_code_of
  init_code_of-factory_of [] h = (none, none, refl, refl)
  init_code_of-factory_of (b ∷ bs) (inl h) = absurd (cc)
  init_code_of-factory_of (b ∷ bs) (inr h) = (
    some (take 20 (b ∷ bs)),
    some (drop 20 (b ∷ bs)),
    rw (short (length bs) (omega arith))
        (rw (laws.get_address (take 20 (b ∷ bs)) (length-take 20 (b ∷ bs) (omega arith)))),
    take-drop 20 (b ∷ bs),
  )
    where
      short : (n : ℕ) → 20 ≤ suc n → ltb (suc n) 20 ≡ false
      short n h = ground arith

  paymaster_and_data_of-paymaster_of :
      (code : Text)
      → (code ≡ []) ⊎ (52 ≤ length code)
      → All IsByte code
      → (p : Paymaster) × (paymaster_of e code ≡ ok p)
        × (paymaster_and_data_of e p.address p.verification p.post_op p.payload ≡ ok code)
  unfolding paymaster_of paymaster_and_data_of pack_paymaster_and_data
  paymaster_and_data_of-paymaster_of [] h bytes = (_, refl, refl)
  paymaster_and_data_of-paymaster_of (b ∷ bs) (inl h) bytes = absurd (cc)
  paymaster_and_data_of-paymaster_of (b ∷ bs) (inr h) bytes =
      let code = b ∷ bs in
      let t = drop 20 code in
      let u = drop 16 t in
      let t_length : 32 ≤ length t = omega (arith, length-drop 20 code) in
      let u_length : 16 ≤ length u = omega (arith, length-drop 16 t) in
      let t_bytes = All-drop 20 code bytes in
      let address = laws.get_address (take 20 code) (length-take 20 code (omega arith)) in
      let verification =
        laws.to_be_hex (take 16 t) (length-take 16 t (omega arith)) (All-take 16 t t_bytes) in
      let post_op =
        laws.to_be_hex (take 16 u) (length-take 16 u u_length)
          (All-take 16 u (All-drop 16 t t_bytes)) in
      (
        record {
          address = some (take 20 code);
          verification = some (e.to_number (take 16 t));
          post_op = some (e.to_number (take 16 u));
          payload = some (drop 16 u);
        },
        rw (long (length bs) (omega arith)) (rw address),
        rw address (
            rw verification (
              rw post_op (
                ap ok (
                  ap (λ x. take 20 code ++ (take 16 t ++ x)) (take-drop 16 u)
                  ∙ ap (λ x. take 20 code ++ x) (take-drop 16 t)
                  ∙ take-drop 20 code)))),
      )
    where
      long : (n : ℕ) → 52 ≤ suc n → ltb (suc n) 52 ≡ false
      long n h = ground arith

  -- Under the laws of ethers: a packed user operation of bytes whose fields have the lengths of the
  -- format has an RPC form, and that form is packed to the same operation again.
  pub from_rpc_user_op-to_rpc_user_op :
      (op : PackedUserOp)
      → IsPacked op
      → (rpc : RpcUserOp) × (to_rpc_user_op e op ≡ ok rpc) × (from_rpc_user_op e rpc ≡ ok op)
  unfolding to_rpc_user_op from_rpc_user_op
  from_rpc_user_op-to_rpc_user_op op h =
      let (v, c, limits, limits') =
        pack128-unpack128 op.account_gas_limits h.account_gas_limits.0 h.account_gas_limits.1 in
      let (m, f, fees, fees') = pack128-unpack128 op.gas_fees h.gas_fees.0 h.gas_fees.1 in
      let sender = laws.get_address op.sender h.sender in
      let (g, d, factory, factory') = init_code_of-factory_of op.init_code h.init_code in
      let (p, paymaster, paymaster') =
        paymaster_and_data_of-paymaster_of op.paymaster_and_data h.paymaster_and_data
          h.paymaster_bytes in
      (
        record {
          sender = op.sender;
          nonce = op.nonce;
          factory = g;
          factory_data = d;
          call_data = op.call_data;
          call_gas_limit = c;
          verification_gas_limit = v;
          pre_verification_gas = op.pre_verification_gas;
          max_fee_per_gas = f;
          max_priority_fee_per_gas = m;
          paymaster = p.address;
          paymaster_verification_gas_limit = p.verification;
          paymaster_post_op_gas_limit = p.post_op;
          paymaster_data = p.payload;
          signature = op.signature;
        },
        rw limits (rw fees (rw sender (rw factory (rw paymaster refl)))),
        rw sender (
            rw limits'
              (rw fees' (rw paymaster' (ap (λ x. ok (record op { init_code = x })) factory')))),
      )
