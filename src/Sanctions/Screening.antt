-- ===== src/Sanctions/Screening.antt =====
-- `screenAddress` and `getStatus` of sanctions.service.ts.
use open_privy.Base.{
  ℕ, ◌-◌, ◌≤◌, Text, text_eq, to_lower, Bool, true, false, not, ◌||◌, List, Option, none, some, ◌≡◌,
  refl, ◌∙◌, sym, arith, ltb, find_by, any_by, Option-cases, Bool-cases, inl, inr, [], ◌∷◌,
}
use open_privy.Sanctions.{
  Lists, SanctionedAddress, SyncStatus, synced, is_synced, ComplianceSyncState, is_ofac, is_old,
  look_up, screen_at, screen_with, screen_address, status_of, get_status,
}

abbrev pub is_listed : Text → SanctionedAddress → Bool
is_listed address r = text_eq r.address (to_lower address)

find_by-any :
    {A : Type 0} (p : A → Bool) (xs : List A)
    → any_by p xs ≡ elim (find_by p xs) [ some _ ↦ true | none ↦ false ]
find_by-any p [] = refl
find_by-any p (x ∷ xs) = elim (Bool-cases (p x)) [
  | inl e ↦ rw e refl
  | inr e ↦ rw e (find_by-any p xs)
]

pub look_up-blocked :
    (address : Text) (rows : List SanctionedAddress)
    → (look_up address rows).blocked ≡ any_by (is_listed address) rows
unfolding look_up
look_up-blocked address rows = elim (Option-cases (find_by (is_listed address) rows)) [
  | inl e ↦ rw (e, look_up) (sym (rw e at (find_by-any (is_listed address) rows)))
  | inr (r, e) ↦ rw (e, look_up) (sym (rw e at (find_by-any (is_listed address) rows)))
]

module _ (max_staleness now : ℕ) (address : Text) (s : Lists) where
  with_state :
      (t : Option ComplianceSyncState)
      → (screen_with max_staleness now address s.addresses t).blocked
        ≡ ((status_of max_staleness now t).is_stale || any_by (is_listed address) s.addresses)
  unfolding screen_with status_of screen_at
  with_state none = refl
  with_state (some t) = go t.last_sync_status t.last_synced_at
    where
      go :
          (status : SyncStatus) (at : Option ℕ)
          → (screen_at max_staleness now address s.addresses status at).blocked ≡ (
              (is_old max_staleness now at || not (is_synced status))
              || any_by (is_listed address) s.addresses)
      go status none = refl
      go status (some t) = ground (arith, look_up-blocked address s.addresses)

  -- An address is blocked exactly if the reported status is stale or a row of the list has the
  -- address in lower case, whatever the row's chain and source.
  pub screen_address-get_status :
      (screen_address max_staleness now address s).blocked
      ≡ ((get_status max_staleness now s).is_stale || any_by (is_listed address) s.addresses)
  unfolding screen_address get_status
  screen_address-get_status = with_state (find_by is_ofac s.states)

  -- What a "clear" has established.
  pub record IsClear : Type 0 where
    pub state : ComplianceSyncState
    pub found : find_by is_ofac s.states ≡ some state
    pub status : state.last_sync_status ≡ synced
    pub at : ℕ
    pub last : state.last_synced_at ≡ some at
    pub fresh : now - at ≤ max_staleness
    pub unlisted : any_by (is_listed address) s.addresses ≡ false

  -- The screening fails closed: it lets an address through only if the last sync succeeded, not
  -- longer ago than allowed, and no row has the address.
  pub screen_address-IsClear :
      (screen_address max_staleness now address s).blocked ≡ false → IsClear
  unfolding screen_address screen_with
  screen_address-IsClear e = from_state (find_by is_ofac s.states) refl e
    where
      at_time :
          (t : ComplianceSyncState)
          → find_by is_ofac s.states ≡ some t
          → (u : Option ℕ) → t.last_synced_at ≡ u
          → (screen_at max_staleness now address s.addresses t.last_sync_status u).blocked ≡ false
          → IsClear
      at_time t f none h e = absurd (unfold screen_at in cc)
      at_time t f (some at) h e =
          let facts : (is_synced t.last_sync_status ≡ true)
              × (ltb max_staleness (now - at) ≡ false)
              × ((look_up address s.addresses).blocked ≡ false) =
            unfold screen_at in ground arith in
          record {
            state = t;
            found = f;
            status = status_synced t.last_sync_status facts.0;
            at = at;
            last = h;
            fresh = ground arith;
            unlisted = sym (look_up-blocked address s.addresses) ∙ facts.2;
          }
        where
          status_synced : (u : SyncStatus) → is_synced u ≡ true → u ≡ synced
          status_synced u e = ground arith

      from_state :
          (t : Option ComplianceSyncState)
          → find_by is_ofac s.states ≡ t
          → (screen_with max_staleness now address s.addresses t).blocked ≡ false
          → IsClear
      from_state none f e = cc
      from_state (some t) f e = at_time t f t.last_synced_at refl e
