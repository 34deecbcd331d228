-- ===== src/Recovery/Votes/Once.antt =====
-- `decide` of recovery.service.ts, called again with the same link.
use open_privy.Base.{
  ℕ, Text, true, false, ◌&&◌, List, [], ◌∷◌, Option, none, some, ok, err, ◌==◌, All, find_by,
  update_by, ◌≡◌, ◌≢◌, refl, sym, subst, arith, Bool-cases, inl, inr,
}
use open_privy.Base.Actions.{◌>>=◌}
use open_privy.Store.{World, RecoveryApproval}
use open_privy.Recovery.{hash_token, Env, valid_token_shape, hash_is}
use open_privy.Recovery.Votes.{
  Decision, approve, decline, other, Outcome, is_undecided, invalid_link, find_open_approval, cast,
  decide,
}
use open_privy.Recovery.Votes.Inversion.{ballot}
use open_privy.Recovery.Votes.Tally.{OneHolder, decide-Cast, voted_as, vote-approvals}

abbrev Gone : Text → RecoveryApproval → Type 0
Gone h b = hash_is h b.token_hash ≡ false

find_by-Gone :
    (h : Text) (rows : List RecoveryApproval)
    → All (Gone h) rows
    → find_by (λ b. hash_is h b.token_hash && is_undecided b.decision) rows ≡ none
find_by-Gone h [] g = refl
find_by-Gone h (a ∷ rows) (g, gs) = rw g (find_by-Gone h rows gs)

clear-Gone :
    (h : Text) (id : ℕ) (rows : List RecoveryApproval)
    → All (Gone h) rows
    → All (Gone h) (update_by (λ b. b.request_id == id) (λ b. record b { token_hash = none }) rows)
clear-Gone h id [] g = tt
clear-Gone h id (a ∷ rows) (g, gs) = (
  elim (Bool-cases (a.request_id == id)) [ inl e ↦ rw e refl | inr e ↦ rw e g ],
  clear-Gone h id rows gs,
)

with_vote-Gone :
    (env : Env) (now : ℕ) (d : Decision) (h : Text) (a : RecoveryApproval)
    (rows : List RecoveryApproval)
    → All (λ b. hash_is h b.token_hash ≡ true → b.id ≡ a.id) rows
    → All (Gone h) (update_by (λ r. r.id == a.id) (λ _. voted_as env now d a) rows)
with_vote-Gone env now d h a [] u = tt
with_vote-Gone env now d h a (b ∷ rows) (u, us) = (
  elim (Bool-cases (b.id == a.id)) [
    | inl e ↦ rw e refl
    | inr e ↦ rw e (elim (Bool-cases (hash_is h b.token_hash)) [
      | inl held ↦ absurd (differ b.id a.id (u held) e)
      | inr gone ↦ gone
    ])
  ],
  with_vote-Gone env now d h a rows us,
)
  where
    differ : (m n : ℕ) → m ≡ n → (m == n) ≡ false → ⊥
    differ m n p e = ground arith

refused :
    (env : Env) (later : ℕ) (token : Option Text) (text : Text) (e : Decision) (s : World)
    → valid_token_shape token ≡ some text
    → ballot env text s ≡ none
    → e ≢ other
    → decide env later token e s ≡ (err invalid_link, s)
unfolding decide cast find_open_approval
refused env later token text approve s shaped spent h = rw (shaped, ◌>>=◌) (rw spent)
refused env later token text decline s shaped spent h = rw (shaped, ◌>>=◌) (rw spent)
refused env later token text other s shaped spent h = absurd (h refl)

-- If the column of the token hashes is unique, then after a vote through a link is taken, a vote of
-- either kind through the same link is refused at any time, and changes nothing.
pub decide_once :
    (env : Env) (now later : ℕ) (token : Option Text) (d e : Decision) (s s' : World) (o : Outcome)
    → OneHolder env now token s
    → decide env now token d s ≡ (ok o, s')
    → e ≢ other
    → decide env later token e s' ≡ (err invalid_link, s')
decide_once env now later token d e s s' o unique taken h =
    let (a, q, n, timely, v) = decide-Cast env now token d s s' o taken in
    let text = n.text in
    let gone =
      with_vote-Gone env now d (hash_token env text) a s.approvals
        (unique text a n.shaped n.voted) in
    let rows : All (Gone (hash_token env text)) s'.approvals =
      elim (vote-approvals env now d _ q _ s' o v) [
        | inl same ↦ subst (All (Gone (hash_token env text))) (sym same) gone
        | inr cleared ↦
            subst (All (Gone (hash_token env text))) (sym cleared)
              (clear-Gone (hash_token env text) q.id _ gone)
      ] in
    refused env later token text e s' n.shaped
      (find_by-Gone (hash_token env text) s'.approvals rows) h
