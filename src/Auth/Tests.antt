-- ===== src/Auth/Tests.antt =====
-- Tests of the sign-in, on the sample accounts of the recovery.
use open_privy.Base.{
  ℕ, Text, All, some, none, true, false, ◌≡◌, ◌≢◌, refl, codes, ok, err, unauthorized, find_by, [],
  ◌∷◌, List, Result, suc, take, drop, length, ◌++◌, failure, replicate, ap, arith, ◌≤◌, take-append,
  drop-append,
}
use open_privy.Base.Strings.{text_eq, lower_unit, is_base64url}
use open_privy.Store.{World, User}
use open_privy.Recovery.Requests.{cancel_for_sign_in, cancel_all}
use open_privy.Recovery.Requests.SignIn.{threatens}
use open_privy.Recovery.Samples.{
  env, world, locked, awaiting, claimed, after_completion, completed_run, claimed_row,
}
use open_privy.Encryption.{
  parse_ciphertext, format_ciphertext, derive_user_key, current_key_id, key_id_of, encrypt, decrypt,
  decrypt_with, decrypt_with_key_id, try_keys, decrypt_with_current_key_only,
}
use open_privy.Encryption.Hex.{to_hex, hex_digit, from_hex, is_paired, hex_value, split_on}
use open_privy.Recovery.Keys.{carried_key, carry_key, moved_wallet}
use open_privy.Recovery.Completion.{
  is_claimable, claim, move_wallets, settle, carry_out, recover, complete,
}
use open_privy.Wallet.{assert_key_matches_address, is_evm_chain}
use open_privy.Auth.{
  AuthEnv, Profile, Session, Payload, is_workos, has_email, linked_elsewhere, link, account_of,
  upsert_user, end_recoveries, open_session, login_with_work_os, validate,
}
use open_privy.Auth.OneTime.{get, live}
use open_privy.Auth.OneTime.Refinement.{
  put_call, take_call, run, run_spec, view, run-run_spec, memory_store,
}
use open_privy.Auth.OneTime.Refinement.{Call as StoreCall}
use open_privy.Auth.Mobile.{
  ControllerEnv, Site, Redirect, to_app, base64url_43, all_units, workos_mobile_start,
  workos_callback, workos_mobile_exchange,
}
use open_privy.Auth.Mobile.Changes.{mobile_start, callback, exchange, redemptions}
use open_privy.Auth.Mobile.Changes.{Call as SiteCall}
use open_privy.Auth.Mobile.Once.{redemptions-once}
use open_privy.Auth.Mobile.Flow.{JsonLaws, answer, mobile_sign_in-answer}
use open_privy.Auth.Linking.{Entered, login_with_work_os-Entered}
use open_privy.Auth.Revocation.{complete-validate, complete-login_with_work_os}

-- A token is the id of its subject.
abbrev auth : AuthEnv
auth = record { sign = λ now sub email. sub ∷ []; supabase = none; has_recovery = true }

abbrev profile : Text → Profile
profile email = record {
  workos_user_id = codes "identity";
  email = email;
  first_name = none;
  email_verified = true;
}

-- The owner of the new account signs in.
abbrev entered : World → World
entered s = (login_with_work_os auth 2000 (profile (codes "new@example.com")) s).1

abbrev new_session : Session
new_session = record { access_token = 2 ∷ []; id = 2; email = codes "new@example.com" }

login_run :
    login_with_work_os auth 2000 (profile (codes "new@example.com")) (world awaiting)
    ≡ (ok new_session, entered (world awaiting))
unfolding login_with_work_os account_of link linked_elsewhere upsert_user open_session
    end_recoveries cancel_for_sign_in cancel_all text_eq
login_run = refl

late_run :
    login_with_work_os auth 2000 (profile (codes "new@example.com")) after_completion
    ≡ (ok new_session, entered after_completion)
unfolding login_with_work_os account_of link linked_elsewhere upsert_user open_session
    end_recoveries cancel_for_sign_in cancel_all text_eq complete recover carry_out settle
    move_wallets claim is_claimable moved_wallet carry_key carried_key to_hex hex_digit from_hex
    is_paired hex_value split_on lower_unit encrypt decrypt decrypt_with decrypt_with_key_id
    try_keys decrypt_with_current_key_only parse_ciphertext format_ciphertext derive_user_key
    current_key_id key_id_of assert_key_matches_address is_evm_chain
late_run = refl

login_with_work_os-Entered_example :
    (u : User) × Entered (profile (codes "new@example.com")) (world awaiting) u
    × (new_session
        ≡ record { access_token = auth.sign 2000 u.id u.email; id = u.id; email = u.email })
    × All (λ r. threatens u.id r ≡ false) (entered (world awaiting)).requests
login_with_work_os-Entered_example =
    login_with_work_os-Entered auth refl 2000 (profile (codes "new@example.com")) (world awaiting)
      new_session (entered (world awaiting)) login_run

no_identity : find_by (is_workos (codes "identity")) (world awaiting).users ≡ none
no_identity = refl

no_email : find_by (has_email (codes "third@example.com")) (world awaiting).users ≡ none
unfolding text_eq
no_email = refl

abbrev old_token : Payload
old_token = record { sub = 1; email = codes "old@example.com"; iat = some 999999 }

complete-validate_example : validate old_token after_completion ≡ err (unauthorized "Unauthorized")
complete-validate_example =
    complete-validate env 1000 21 claimed (world locked) after_completion old_token claimed_row
      completed_run refl

complete-login_with_work_os_example : new_session.id ≢ claimed.old_user_id
complete-login_with_work_os_example =
    complete-login_with_work_os env 1000 21 claimed (world locked) after_completion
      (entered after_completion) auth 2000 (profile (codes "new@example.com")) new_session refl
      claimed_row completed_run late_run

abbrev calls : List StoreCall
calls =
    put_call 0 (codes "k") (codes "v") 60
    ∷ take_call 60000 (codes "k")
    ∷ take_call 60000 (codes "k")
    ∷ []

run-run_spec_example : run calls [] ≡ run_spec calls (view [])
run-run_spec_example = run-run_spec calls []

-- A verifier's hash is its first 43 characters, and JSON is the token's length, the token and the challenge.
abbrev parse : Text → Result (Text × Text)
parse [] = err (failure "JSON")
parse (n ∷ s) = ok (take n s, drop n s)

abbrev controller : ControllerEnv
controller = record {
  auth = auth;
  authorization_url = λ state organization. ok state;
  authenticate_with_code = λ now code. ok (profile (codes "new@example.com"));
  random_hex = λ n. suc n ∷ [];
  random_base64url = λ n. suc n ∷ [];
  sha256_base64url = take 43;
  stringify = λ token challenge. length token ∷ (token ++ challenge);
  parse = parse;
}

controller_laws : JsonLaws controller
controller_laws = record {
  parse_stringify =
      λ token challenge. rw (take-append token challenge) (rw (drop-append token challenge) refl);
  stringify_full = λ token challenge e. absurd (cc);
}

abbrev site : Site memory_store
site = record { world = world awaiting; values = []; drawn = 0 }

abbrev verifier : Text
verifier = replicate 43 b'a'

shaped : base64url_43 verifier ≡ true
unfolding base64url_43 all_units is_base64url
shaped = refl

nothing_held : (key : Text) (t : ℕ) → memory_store.holds t key [] ≡ none
unfolding get live
nothing_held key t = refl

mobile_sign_in-answer_example :
    (let start : Result Text × Site memory_store =
        workos_mobile_start controller memory_store 1000 verifier none site in
      let back : Result Redirect × Site memory_store =
        workos_callback controller memory_store 2000 none (codes "c") (1 ∷ []) start.1 in
      let end_ : Result Text × Site memory_store =
        workos_mobile_exchange controller memory_store 3000 (2 ∷ []) verifier back.1 in
      (start.0 ≡ ok (1 ∷ []))
      × (back.0 ≡ ok (to_app (2 ∷ [])))
      × (end_.0 ≡ answer controller memory_store (2 ∷ []) verifier verifier))
mobile_sign_in-answer_example =
    mobile_sign_in-answer controller memory_store controller_laws 1000 2000 3000 verifier (1 ∷ [])
      (codes "c") verifier none none (profile (codes "new@example.com")) new_session
      (entered (world awaiting)) site shaped refl refl refl (nothing_held _) (nothing_held _) refl
      (omega arith) refl login_run (omega arith)

head_or_zero : Text → ℕ
head_or_zero [] = 0
head_or_zero (c ∷ s) = c

one_code : (i j : ℕ) → controller.random_base64url i ≡ controller.random_base64url j → i ≡ j
unfolding head_or_zero
one_code i j e = omega (arith, ap head_or_zero e)

-- The code is tried twice.
abbrev requests : List SiteCall
requests =
    mobile_start 1000 verifier none
    ∷ callback 2000 none (codes "c") (1 ∷ [])
    ∷ exchange 3000 (2 ∷ []) verifier
    ∷ exchange 3001 (2 ∷ []) verifier
    ∷ []

redemptions-once_example : redemptions controller memory_store (2 ∷ []) requests site ≤ 1
redemptions-once_example =
    redemptions-once controller memory_store one_code (2 ∷ []) requests site
      (λ i later t. nothing_held _ t)
