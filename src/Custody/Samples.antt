-- ===== src/Custody/Samples.antt =====
-- The data of the tests: a custodian without a hardware module.
use open_privy.Base.{[], take, codes, false, failure, ok, err}
use open_privy.Encryption.Samples.{toy, first, zero_iv}
use open_privy.Custody.{Custodian, Keys}

abbrev keys : Keys
keys = record { address = codes "n"; public_key = []; private_key = codes "new" }

abbrev pub custodian : Custodian
custodian = record {
  crypto = toy;
  encryption = first;
  random_evm = λ n. keys;
  random_solana = λ n. keys;
  random_iv = λ n. zero_iv;
  evm_wallet = λ key. ok (take 1 key);
  hsm_configured = false;
  hsm_label = λ user n. [];
  hsm_generate = λ label. err (failure "no token");
  hsm_load = λ label. err (failure "no token");
  balance_of = λ chain address. ok [];
}
