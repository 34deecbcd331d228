-- ===== src/Recovery/Tests.antt =====
-- Tests of the recovery: a vote, a late vote, a sign-in and a completion on the sample account.
use open_privy.Base.{
  text_eq, is_base64url, All, some, true, false, ok, err, ◌≡◌, refl, sym, ap, subst, arith, codes,
}
use open_privy.Base.Strings.{is_base64url}
use mathlib.Core.Option.{some-injective}
use open_privy.Encryption.Hex.{to_hex, hex_digit}
use open_privy.Base.Strings.{text_eq}
use open_privy.Store.{World, RecoveryApproval}
use open_privy.Rotation.Keeps.{Rows}
use open_privy.Recovery.{hash_token, valid_token_shape, hash_is, notify}
use open_privy.Recovery.Guardians.{add_guardian}
use open_privy.Recovery.Guardians.Limit.{guardians_of, add_guardian-limit}
use open_privy.Base.{◌≤◌}
use open_privy.Recovery.Requests.{start_request, cancel_for_sign_in}
use open_privy.Recovery.Requests.Answer.{answer, start_request-answer}
use open_privy.Recovery.Requests.SignIn.{threatens, cancel_for_sign_in-safe}
use open_privy.Recovery.Votes.{
  approve, now_time_locked, invalid_link, approvals_of, in_window, find_open_approval,
  record_approval, vote, cast, decide,
}
use open_privy.Recovery.Votes.Inversion.{Names, ballot}
use open_privy.Recovery.Votes.Tally.{Locked, OneHolder, decide-Locked}
use open_privy.Recovery.Votes.Once.{decide_once}
use open_privy.Recovery.Votes.Window.{decide_late}
use open_privy.Recovery.Completion.{complete}
use open_privy.Recovery.Completion.Atomic.{Ends, complete-Ends}
use open_privy.Recovery.Completion.Loop.{Moved, complete-Moved}
use open_privy.Base.{List, [], ◌∷◌}
use open_privy.Store.{awaiting_approvals, completed}
use open_privy.Recovery.Lifecycle.{life}
use open_privy.Recovery.Lifecycle.Waits.{is_final, waited}
use open_privy.Recovery.Lifecycle.Run.{
  Call, deciding, completion, sign_in, sweeping, perform_all, perform_all-waited, events,
}
use open_privy.Recovery.Samples.{
  claimed, after_completion, completed_run, claimed_row, env, token_a, awaiting, locked, open_vote,
  wallet, world,
}

abbrev after_vote : World
after_vote = (decide env 500 (some token_a) approve (world awaiting)).1

voted :
    decide env 500 (some token_a) approve (world awaiting)
    ≡ (ok (now_time_locked 3600500), after_vote)
unfolding decide cast vote record_approval find_open_approval in_window approvals_of
    valid_token_shape notify is_base64url text_eq hash_token to_hex hex_digit
voted = refl

decide-Locked_example : Locked env 500 (some token_a) approve (world awaiting) after_vote 3600500
decide-Locked_example =
    decide-Locked env 500 (some token_a) approve (world awaiting) after_vote 3600500 voted

Names-open_vote : Names env (some token_a) (world awaiting) open_vote awaiting
unfolding valid_token_shape is_base64url text_eq hash_token to_hex hex_digit
Names-open_vote = record {
  text = token_a;
  shaped = refl;
  voted = refl;
  about = refl;
  awaiting = refl;
}

one_holder : OneHolder env 500 (some token_a) (world awaiting)
unfolding valid_token_shape is_base64url text_eq hash_token to_hex hex_digit
one_holder text a shaped held =
    subst
      (λ t.
        All (λ b. hash_is (hash_token env t) b.token_hash ≡ true → b.id ≡ a.id)
          (world awaiting).approvals)
      (some-injective token_a text shaped)
      ((λ h. absurd (cc)), ((λ h. same), ((λ h. absurd (cc)), tt)))
  where
    same : 12 ≡ a.id
    same =
        ap (λ (b : RecoveryApproval). b.id)
          (some-injective open_vote a (
            subst (λ t. ballot env t (world awaiting) ≡ some a)
              (sym (some-injective token_a text shaped)) held))

decide_once_example :
    decide env 600 (some token_a) approve after_vote ≡ (err invalid_link, after_vote)
decide_once_example =
    decide_once env 500 600 (some token_a) approve approve (world awaiting) after_vote
      (now_time_locked 3600500) one_holder voted (λ e. absurd (cc))

decide_late_example :
    decide env 1001 (some token_a) approve (world awaiting) ≡ (err invalid_link, world awaiting)
decide_late_example =
    decide_late env 1001 (some token_a) (world awaiting) open_vote awaiting Names-open_vote
      (omega arith) approve (λ e. absurd (cc))

start_request-answer_example :
    (start_request env 500 2 (codes "old@example.com") (world awaiting)).0
    ≡ answer env (λ m. refl) 500 2 (world awaiting)
start_request-answer_example =
    start_request-answer env (λ m. refl) 500 2 (codes "old@example.com") (world awaiting)

cancel_for_sign_in-safe_example :
    All (λ r. threatens 1 r ≡ false) (cancel_for_sign_in 500 1 (world locked)).1.requests
cancel_for_sign_in-safe_example = cancel_for_sign_in-safe 500 1 (world locked)

complete-Ends_example : Ends env 1000 21 (world locked) (complete env 1000 21 (world locked))
complete-Ends_example = complete-Ends env 1000 21 (world locked) (omega arith) (refl, tt)

complete-Moved_example :
    Rows (Moved env claimed (λ id. wallet)) (world locked).wallets after_completion.wallets
complete-Moved_example =
    complete-Moved env claimed (λ id. wallet) (omega arith) 1000 21 (world locked) after_completion
      claimed_row (refl, tt) completed_run

add_guardian-limit_example :
    guardians_of 1
      (add_guardian env 500 1 (codes "Dan") (codes "dan@example.com") (world awaiting)).1
    ≤ 5
add_guardian-limit_example =
    add_guardian-limit env 500 1 (codes "Dan") (codes "dan@example.com") (world awaiting) 1
      (omega arith)

-- An approval, a second one by the same token, a completion, a late sign-in and a sweep.
abbrev calls : List (Call env)
calls =
    deciding 500 (some token_a) approve
    ∷ deciding 501 (some token_a) approve
    ∷ completion 3600500 21
    ∷ sign_in 3600600 1
    ∷ sweeping 3600700
    ∷ []

perform_all-waited_example :
    All
      (λ r.
        (is_final awaiting.status ≡ true → life r ≡ life awaiting)
        × (awaiting.status ≡ awaiting_approvals
            → r.status ≡ completed
            → waited (events env calls) ≡ true))
      (perform_all env calls (world awaiting)).requests
perform_all-waited_example =
    perform_all-waited env calls (λ id. awaiting) (world awaiting) (refl, tt)
