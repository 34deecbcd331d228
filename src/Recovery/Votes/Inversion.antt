-- ===== src/Recovery/Votes/Inversion.antt =====
-- What `findOpenApproval` has established when it finds an approval, and what it leaves when the
-- window has passed.
use open_privy.Base.{
  ℕ, Text, true, ◌&&◌, Option, some, err, ◌==◌, find_by, ◌⊎◌, ◌≡◌, Option-cases, Bool-cases, inl,
  inr,
}
use open_privy.Base.Actions.{◌>>=◌}
use open_privy.Store.{World, RecoveryRequest, RecoveryApproval}
use open_privy.Recovery.{hash_token, Env, valid_token_shape, hash_is, is_awaiting}
use open_privy.Recovery.Votes.{is_undecided, invalid_link, in_window, find_open_approval}

-- The approval that a token names, undecided.
abbrev pub ballot : Env → Text → World → Option RecoveryApproval
ballot env text s =
    find_by (λ a. hash_is (hash_token env text) a.token_hash && is_undecided a.decision) s.approvals

-- A token names an undecided approval of a request that is awaiting approvals.
pub record Names (env : Env) (token : Option Text) (s : World) (a : RecoveryApproval)
    (q : RecoveryRequest) : Type 0 where
  pub text : Text
  pub shaped : valid_token_shape token ≡ some text
  pub voted : ballot env text s ≡ some a
  pub about : find_by (λ r. r.id == a.request_id) s.requests ≡ some q
  pub awaiting : is_awaiting q.status ≡ true

module _ (env : Env) (now : ℕ) (token : Option Text) (s : World) where
  pub find_open_approval-Names :
      (a : RecoveryApproval) (q : RecoveryRequest)
      → Names env token s a q
      → find_open_approval env now token s ≡ in_window env now a q s
  unfolding find_open_approval
  find_open_approval-Names a q n =
      rw (n.shaped, ◌>>=◌) (rw (n.voted, ◌>>=◌) (rw (n.about, ◌>>=◌) (rw n.awaiting)))

  -- Either the token names such an approval, or the call fails and changes nothing.
  pub find_open_approval-cases :
      ((a : RecoveryApproval) × (q : RecoveryRequest) × Names env token s a q)
      ⊎ (find_open_approval env now token s ≡ (err invalid_link, s))
  unfolding find_open_approval
  find_open_approval-cases = elim (Option-cases (valid_token_shape token)) [
    | inl e ↦ inr (rw (e, ◌>>=◌))
    | inr (text, e) ↦ elim (Option-cases (ballot env text s)) [
      | inl v ↦ inr (rw (e, ◌>>=◌) (rw (v, ◌>>=◌)))
      | inr (a, v) ↦ elim (Option-cases (find_by (λ r. r.id == a.request_id) s.requests)) [
        | inl b ↦ inr (rw (e, ◌>>=◌) (rw (v, ◌>>=◌) (rw (b, ◌>>=◌))))
        | inr (q, b) ↦ elim (Bool-cases (is_awaiting q.status)) [
          | inl w ↦
              inl (a, q, record { text = text; shaped = e; voted = v; about = b; awaiting = w })
          | inr w ↦ inr (rw (e, ◌>>=◌) (rw (v, ◌>>=◌) (rw (b, ◌>>=◌) (rw w))))
        ]
      ]
    ]
  ]
