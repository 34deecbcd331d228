-- ===== src/UserOp/Sponsoring/Costs.antt =====
-- `maxGasCost` of paymaster.service.ts for an operation with a sponsorship of `mergeSponsorship`.
use open_privy.Base.{
  ℕ, ◌+◌, ◌*◌, ◌≤◌, Text, length, length-append, take, drop, take-append, drop-append, true, false,
  [], ◌∷◌, ◌++◌, some, Result, ok, ltb, ◌≡◌, refl, sym, ◌∙◌, ap, subst, arith, ◌⊎◌, ◌==◌,
}
use open_privy.Base.Errors.{>>=-eq-ok}
use open_privy.UserOp.{
  Ethers, PackedUserOp, max_uint128, or_empty, or_zero, pack128, unpack128, pack_paymaster_and_data,
  paymaster_of, to_rpc_user_op,
}
use open_privy.UserOp.RoundTrip.{EthersLaws, take-all, init_code_of-factory_of}
use open_privy.UserOp.Sponsoring.{
  Sponsorship, Merged, or_else, with_merged, merge_for, merge_paymaster, merge_sponsorship,
  paymaster_gas, max_gas_cost,
}

-- What the cost relies on of ethers: a number of 128 bits is written as sixteen bytes that stand for it.
pub record WordLaws (e : Ethers) : Type 0 where
  pub written : (n : ℕ) → n ≤ max_uint128 → (b : Text) × (e.to_be_hex n ≡ ok b)
  pub word : (n : ℕ) (b : Text) → e.to_be_hex n ≡ ok b → (length b ≡ 16) × (e.to_number b ≡ n)

take-of : (n : ℕ) (a b : Text) → length a ≡ n → take n (a ++ b) ≡ a
take-of n a b h = subst (λ k. take k (a ++ b) ≡ a) h (take-append a b)

drop-of : (n : ℕ) (a b : Text) → length a ≡ n → drop n (a ++ b) ≡ b
drop-of n a b h = subst (λ k. drop k (a ++ b) ≡ b) h (drop-append a b)

ok-injective : {x y : Text} → (let r : Result Text = ok x in r) ≡ ok y → x ≡ y
ok-injective h = cc

enough : (n : ℕ) → 52 ≤ n → ltb n 52 ≡ false
enough n h = ground arith

module _ (e : Ethers) (laws : EthersLaws e) (words : WordLaws e) where
  pack128-fits :
      (hi lo : ℕ) (p : Text)
      → pack128 e hi lo ≡ ok p
      → (hi ≤ max_uint128) × (lo ≤ max_uint128) × (e.solidity_packed hi lo ≡ p)
  unfolding pack128
  pack128-fits hi lo p h = ground arith

  unpack128-pack128 : (hi lo : ℕ) (p : Text) → pack128 e hi lo ≡ ok p → unpack128 e p ≡ ok (hi, lo)
  unfolding unpack128
  unpack128-pack128 hi lo p h =
      let (high, low, packed) = pack128-fits hi lo p h in
      let (a, wa) = words.written hi high in
      let (b, wb) = words.written lo low in
      let (la, na) = words.word hi a wa in
      let (lb, nb) = words.word lo b wb in
      let whole : p ≡ a ++ b = sym packed ∙ laws.solidity_packed hi lo a b wa wb in
      let size : length (a ++ b) ≡ 32 = omega (arith, length-append a b) in
      subst (λ q. unpack128 e q ≡ ok (hi, lo)) (sym whole)
        (rw (is-32 (length (a ++ b)) size) (
          rw (take-of 16 a b la)
            (rw (drop-of 16 a b la) (rw (take-all 16 b lb) (rw na (rw nb refl))))))
    where
      is-32 : (n : ℕ) → n ≡ 32 → (n == 32) ≡ true
      is-32 n h = ground arith

  paymaster_of-parts :
      (paymaster v p payload : Text)
      → length paymaster ≡ 20
      → length v ≡ 16
      → length p ≡ 16
      → paymaster_of e (paymaster ++ (v ++ (p ++ payload)))
        ≡ ok (record {
          address = some paymaster;
          verification = some (e.to_number v);
          post_op = some (e.to_number p);
          payload = some payload;
        })
  unfolding paymaster_of
  paymaster_of-parts [] v p payload size lv lp = absurd (omega arith)
  paymaster_of-parts (b ∷ bs) v p payload size lv lp =
      let code = (b ∷ bs) ++ (v ++ (p ++ payload)) in
      let long : 52 ≤ length code = omega (
        arith,
        length-append (b ∷ bs) (v ++ (p ++ payload)),
        length-append v (p ++ payload),
        length-append p payload,
      ) in
      rw (enough (length code) long) (
        rw (take-of 20 (b ∷ bs) (v ++ (p ++ payload)) size) (
          rw (laws.get_address (b ∷ bs) size) (
            rw (drop-of 20 (b ∷ bs) (v ++ (p ++ payload)) size) (
              rw (take-of 16 v (p ++ payload) lv) (
                rw (drop-of 16 v (p ++ payload) lv)
                  (rw (take-of 16 p payload lp) (rw (drop-of 16 p payload lp) refl)))))))

  -- The paymaster's part of an operation is read as it was packed.
  paymaster_of-pack :
      (paymaster : Text) (verification post_op : ℕ) (payload code : Text)
      → length paymaster ≡ 20
      → pack_paymaster_and_data e paymaster verification post_op payload ≡ ok code
      → (52 ≤ length code)
        × (paymaster_of e code
            ≡ ok (record {
              address = some paymaster;
              verification = some verification;
              post_op = some post_op;
              payload = some payload;
            }))
  unfolding pack_paymaster_and_data paymaster_of
  paymaster_of-pack paymaster verification post_op payload code size h =
      let (address, known, h1) = >>=-eq-ok (e.get_address paymaster) _ h in
      let (v, wv, h2) = >>=-eq-ok (e.to_be_hex verification) _ h1 in
      let (p, wp, h3) = >>=-eq-ok (e.to_be_hex post_op) _ h2 in
      let (lv, nv) = words.word verification v wv in
      let (lp, np) = words.word post_op p wp in
      let same : paymaster ≡ address =
        ok-injective (sym (laws.get_address paymaster size) ∙ known) in
      let whole : paymaster ++ (v ++ (p ++ payload)) ≡ code =
        ap (λ a. a ++ (v ++ (p ++ payload))) same ∙ ok-injective h3 in
      (
        omega (
          arith,
          ap length whole,
          length-append paymaster (v ++ (p ++ payload)),
          length-append v (p ++ payload),
          length-append p payload,
          size,
          lv,
          lp,
        ),
        sym (ap (paymaster_of e) whole)
            ∙ rw (paymaster_of-parts paymaster v p payload size lv lp) (rw nv (rw np refl)),
      )

  -- What a merge packed.
  record Packed (op : PackedUserOp) (r : Sponsorship) (m : Merged) (paymaster : Text)
      (verification call : ℕ) : Type 0 where
    part :
        pack_paymaster_and_data e paymaster
          (or_zero r.paymaster_verification_gas_limit)
          (or_zero r.paymaster_post_op_gas_limit)
          (or_empty r.paymaster_data)
        ≡ ok m.paymaster_and_data
    limits :
        pack128 e (or_else r.verification_gas_limit verification) (or_else r.call_gas_limit call)
        ≡ ok m.account_gas_limits
    pre : or_else r.pre_verification_gas op.pre_verification_gas ≡ m.pre_verification_gas

  merge_for-Packed :
      (op : PackedUserOp) (r : Sponsorship) (m : Merged) (paymaster : Text) (verification call : ℕ)
      → unpack128 e op.account_gas_limits ≡ ok (verification, call)
      → merge_for e op r paymaster ≡ ok m
      → Packed op r m paymaster verification call
  unfolding merge_for
  merge_for-Packed op r m paymaster verification call limits h =
      let (part, packed, h1) =
        >>=-eq-ok
          (pack_paymaster_and_data e paymaster (or_zero r.paymaster_verification_gas_limit)
            (or_zero r.paymaster_post_op_gas_limit) (or_empty r.paymaster_data))
          _ (rw limits at h) in
      let (gas, packed', h2) =
        >>=-eq-ok
          (pack128 e (or_else r.verification_gas_limit verification)
            (or_else r.call_gas_limit call))
          _ h1 in
      let same = merged-injective h2 in
      record {
        part = packed ∙ ap (λ (x : Merged). ok x.paymaster_and_data) same;
        limits = packed' ∙ ap (λ (x : Merged). ok x.account_gas_limits) same;
        pre = ap (λ (x : Merged). x.pre_verification_gas) same;
      }
    where
      merged-injective : {x y : Merged} → (let r : Result Merged = ok x in r) ≡ ok y → x ≡ y
      merged-injective h = cc

  merge_paymaster-Packed :
      (op : PackedUserOp) (r : Sponsorship) (m : Merged) (paymaster : Text) (verification call : ℕ)
      → length paymaster ≡ 20
      → unpack128 e op.account_gas_limits ≡ ok (verification, call)
      → merge_paymaster e op r (some paymaster) ≡ ok m
      → Packed op r m paymaster verification call
  unfolding merge_paymaster
  merge_paymaster-Packed op r m [] verification call size limits h = absurd (omega arith)
  merge_paymaster-Packed op r m (b ∷ bs) verification call size limits h =
      merge_for-Packed op r m (b ∷ bs) verification call limits h

  paymaster_gas-packed :
      (op : PackedUserOp) (gas fees : ℕ × ℕ) (paymaster payload : Text) (verification post_op : ℕ)
      → unpack128 e op.account_gas_limits ≡ ok gas
      → unpack128 e op.gas_fees ≡ ok fees
      → length op.sender ≡ 20
      → (op.init_code ≡ []) ⊎ (20 ≤ length op.init_code)
      → length paymaster ≡ 20
      → pack_paymaster_and_data e paymaster verification post_op payload ≡ ok op.paymaster_and_data
      → paymaster_gas e op ≡ ok (verification + post_op)
  unfolding paymaster_gas to_rpc_user_op
  paymaster_gas-packed op gas fees paymaster payload verification post_op g f sender init size
        packed =
      let (long, parts) =
        paymaster_of-pack paymaster verification post_op payload op.paymaster_and_data size
          packed in
      let (x, d, factory, _) = init_code_of-factory_of e laws op.init_code init in
      rw (enough (length op.paymaster_and_data) long)
        (rw g (rw f (rw (laws.get_address op.sender sender) (rw factory (rw parts refl)))))

  -- The bound of a sponsored operation is the sum of its gas limits, the paymaster's two included, times its
  -- maximal fee: each limit is the one that the paymaster gave, or else the operation's own, and the
  -- paymaster's are zero where it gave none.
  pub max_gas_cost-merge_sponsorship :
      (op : PackedUserOp) (r : Sponsorship) (m : Merged) (paymaster : Text)
      (verification call priority fee : ℕ)
      → r.paymaster ≡ some paymaster
      → length paymaster ≡ 20
      → merge_sponsorship e op (some r) ≡ ok m
      → length op.sender ≡ 20
      → (op.init_code ≡ []) ⊎ (20 ≤ length op.init_code)
      → unpack128 e op.account_gas_limits ≡ ok (verification, call)
      → unpack128 e op.gas_fees ≡ ok (priority, fee)
      → max_gas_cost e (with_merged m op)
        ≡ ok (
            (or_else r.verification_gas_limit verification
              + or_else r.call_gas_limit call
              + or_else r.pre_verification_gas op.pre_verification_gas
              + (or_zero r.paymaster_verification_gas_limit
                  + or_zero r.paymaster_post_op_gas_limit))
            * fee)
  unfolding max_gas_cost merge_sponsorship
  max_gas_cost-merge_sponsorship op r m paymaster verification call priority fee given size merged
        sender init limits fees =
      let packed =
        merge_paymaster-Packed op r m paymaster verification call size limits
          (subst (λ o. merge_paymaster e op r o ≡ ok m) given merged) in
      let gas = unpack128-pack128 _ _ m.account_gas_limits packed.limits in
      let pm =
        paymaster_gas-packed (with_merged m op) _ _ paymaster (or_empty r.paymaster_data)
          (or_zero r.paymaster_verification_gas_limit) (or_zero r.paymaster_post_op_gas_limit) gas
          fees sender init size packed.part in
      rw gas (rw fees (rw pm (rw packed.pre refl)))
