-- ===== src/Recovery/Guardians.antt =====
-- The setup of recovery.service.ts: listing, inviting, removing and confirming guardians.
pub mod Limit
use open_privy.Base.{
  ℕ, ◌+◌, Text, text_eq, to_lower, trim, length, Bool, true, false, ◌&&◌, List, [], ◌∷◌, ◌++◌,
  Option, none, some, bad_request, not_found, Error, ok, or_err, ltb, leb, ◌==◌, if◌then◌else◌,
  Exec, pure, lift, gets, modify, refuse, filter_by, find_by, any_by, count_by,
}
use open_privy.Base.Actions.{◌>>=◌, ◌>>◌}
use open_privy.Store.{
  World, Guardian, GuardianStatus, pending, active, removed, guardian_invite, save_guardian, audit,
  find_user,
}
use open_privy.Recovery.{
  hash_token, Env, min_guardians, max_guardians, invite_ttl_ms, threshold_for, valid_token_shape,
  or_null, hash_is, is_active, new_token, notify,
}

abbrev pub is_current : GuardianStatus → Bool
is_current removed = false
is_current _ = true

abbrev pub is_invited : GuardianStatus → Bool
is_invited pending = true
is_invited _ = false

-- `status: In(['pending', 'active'])` of one owner.
abbrev pub is_current_of : ℕ → Guardian → Bool
is_current_of owner g = g.owner_user_id == owner && is_current g.status

abbrev pub is_active_of : ℕ → Guardian → Bool
is_active_of owner g = g.owner_user_id == owner && is_active g.status

pub record GuardianList : Type 0 where
  pub guardians : List Guardian
  pub active_guardians : ℕ
  pub threshold : Option ℕ
  pub recovery_ready : Bool
  pub minimum_guardians : ℕ

pub list_guardians : ℕ → World → GuardianList
unfolding threshold_for
list_guardians owner s =
    let rows = filter_by (is_current_of owner) s.guardians in
    let n = count_by (λ g. is_active g.status) rows in
    record {
      guardians = rows;
      active_guardians = n;
      threshold = if leb min_guardians n then some (threshold_for n) else none;
      recovery_ready = leb min_guardians n;
      minimum_guardians = min_guardians;
    }

-- Whether an optional time is absent or before `now`.
abbrev pub is_past : ℕ → Option ℕ → Bool
is_past now none = true
is_past now (some t) = ltb t now

abbrev pub invalid_invite : Error
invalid_invite = not_found "This invitation link is invalid or has expired."

insert_guardian : Guardian → Exec World Guardian
insert_guardian g s = (
  ok g,
  record s { db = record s.db { guardians = s.guardians ++ g ∷ [] }; next_id = s.next_id + 1 },
)

module _ (env : Env) (now : ℕ) where
  unfoldable pub add_guardian : ℕ → Text → Text → Exec World Guardian
  unfolding insert_guardian new_token notify
  add_guardian owner_user_id name raw_email = do
    let email = to_lower (trim raw_email)
    owner ← find_user owner_user_id
    refuse (text_eq email (to_lower owner.email)) (bad_request "You cannot be your own guardian.")
    current ← gets (λ s. filter_by (is_current_of owner_user_id) s.guardians)
    refuse (any_by (λ g. text_eq g.email email) current)
        (bad_request "That person is already a guardian.")
    refuse (leb max_guardians (length current)) (bad_request "You can have at most 5 guardians.")
    token ← new_token env
    id ← gets (λ s. s.next_id)
    guardian ← insert_guardian (record {
      id = id;
      owner_user_id = owner_user_id;
      name = trim name;
      email = email;
      status = pending;
      invite_token_hash = some (hash_token env token);
      invite_expires_at = some (now + invite_ttl_ms);
      confirmed_at = none;
    })
    notify env (guardian_invite email token)
    audit owner_user_id "RECOVERY_GUARDIAN_INVITED" (id ∷ [])
    pure guardian

  unfoldable pub remove_guardian : ℕ → ℕ → Exec World (Unit {0})
  remove_guardian owner_user_id guardian_id = do
    found ←
        gets (λ s. find_by (λ g. g.id == guardian_id && is_current_of owner_user_id g) s.guardians)
    guardian ← lift (or_err found (not_found "Guardian not found."))
    modify (save_guardian (record guardian { status = removed; invite_token_hash = none }))
    audit owner_user_id "RECOVERY_GUARDIAN_REMOVED" (guardian_id ∷ [])

  unfoldable pub find_invite : Option Text → Exec World Guardian
  unfolding valid_token_shape
  find_invite token = do
    text ← lift (or_err (valid_token_shape token) invalid_invite)
    found ← gets (λ s.
        find_by (λ g. hash_is (hash_token env text) g.invite_token_hash && is_invited g.status)
          s.guardians)
    guardian ← lift (or_err found invalid_invite)
    refuse (is_past now guardian.invite_expires_at) invalid_invite
    pure guardian

  pub describe_invite : Option Text → Exec World (Option Text × Text × Text)
  unfolding find_invite
  describe_invite token = do
    guardian ← find_invite token
    owner ← find_user guardian.owner_user_id
    pure (or_null owner.username, owner.email, guardian.name)

  unfoldable pub confirm_invite : Option Text → Exec World Bool
  unfolding find_invite
  confirm_invite token = do
    guardian ← find_invite token
    modify (
        save_guardian
          (record guardian { status = active; confirmed_at = some now; invite_token_hash = none }))
    audit guardian.owner_user_id "RECOVERY_GUARDIAN_CONFIRMED" (guardian.id ∷ [])
    pure true
