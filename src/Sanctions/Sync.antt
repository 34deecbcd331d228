-- ===== src/Sanctions/Sync.antt =====
-- A sync of sanctions.service.ts and the screening after it.
use open_privy.Base.{
  ℕ, Option, Option-cases, none, ◌-◌, ◌≤◌, Text, text_eq, text_eq_refl, to_lower, Bool, true, false,
  not, ◌||◌, ◌&&◌, List, [], ◌∷◌, ◌++◌, some, Error, Result, ok, err, ◌≡◌, refl, ap, ◌∙◌, sym,
  subst, arith, find_by, any_by, filter_by, update_by, Bool-cases, inl, inr, length,
}
use open_privy.Sanctions.{
  Lists, ListDatabase, write, undone, listed_rows, failed, Row, Response, ParsedEntry,
  SanctionedAddress, ComplianceSyncState, ofac_sdn, is_ofac, from_ofac, never_ran, mark_synced,
  mark_failed, upsert, add_rows, replace_list, parse_csv, sync_from_csv, attempt, record_failure,
  fetch_and_sync, screen_address, status_of, get_status,
}
use open_privy.Base.Actions.{Exec, next, refuse, pure, next-eq-ok}
use open_privy.Sanctions.Screening.{is_listed, screen_address-get_status}

-- The upsert sets the columns of the row that is then read.
module _ (f : ComplianceSyncState → ComplianceSyncState)
    (keeps : (t : ComplianceSyncState) → (f t).source ≡ t.source) where
  is_ofac-upserted : (t : ComplianceSyncState) → is_ofac t ≡ true → is_ofac (f t) ≡ true
  is_ofac-upserted t e = ap (λ x. text_eq x ofac_sdn) (keeps t) ∙ e

  find_by-update_by :
      (ts : List ComplianceSyncState)
      → any_by is_ofac ts ≡ true
      → (t : ComplianceSyncState) × (find_by is_ofac (update_by is_ofac f ts) ≡ some (f t))
  find_by-update_by [] e = absurd (cc)
  find_by-update_by (t ∷ ts) e = elim (Bool-cases (is_ofac t)) [
    | inl hit ↦ (t, rw hit (rw (is_ofac-upserted t hit)))
    | inr miss ↦
        let (u, found) = find_by-update_by ts (rw miss at e) in (u, rw miss (rw miss found))
  ]

  find_by-append :
      (ts : List ComplianceSyncState)
      → any_by is_ofac ts ≡ false
      → find_by is_ofac (ts ++ f never_ran ∷ []) ≡ some (f never_ran)
  find_by-append [] e = rw (is_ofac-upserted never_ran (text_eq_refl ofac_sdn))
  find_by-append (t ∷ ts) e = elim (Bool-cases (is_ofac t)) [
    | inl hit ↦ absurd (cc)
    | inr miss ↦ rw miss (find_by-append ts (rw miss at e))
  ]

  find_by-upsert :
      (ts : List ComplianceSyncState)
      → (t : ComplianceSyncState) × (find_by is_ofac (upsert f ts) ≡ some (f t))
  unfolding upsert
  find_by-upsert ts = elim (Bool-cases (any_by is_ofac ts)) [
    | inl e ↦ let (t, found) = find_by-update_by ts e in (t, rw e found)
    | inr e ↦ (never_ran, rw e (find_by-append ts e))
  ]

-- The rows of other sources that have the address.
abbrev pub elsewhere : Text → List SanctionedAddress → Bool
elsewhere address = any_by (λ r. not (from_ofac r) && is_listed address r)

abbrev pub in_file : Text → List ParsedEntry → Bool
in_file address = any_by (λ e. text_eq e.address (to_lower address))

any_by-listed_rows :
    (address : Text) (entries : List ParsedEntry)
    → any_by (is_listed address) (listed_rows entries) ≡ in_file address entries
any_by-listed_rows address [] = refl
any_by-listed_rows address (e ∷ es) =
    ap (λ b. text_eq e.address (to_lower address) || b) (any_by-listed_rows address es)

any_by-append :
    (address : Text) (rows added : List SanctionedAddress)
    → any_by (is_listed address) (rows ++ added)
      ≡ (any_by (is_listed address) rows || any_by (is_listed address) added)
any_by-append address [] added = refl
any_by-append address (r ∷ rows) added = ground (arith, any_by-append address rows added)

any_by-others :
    (address : Text) (rows : List SanctionedAddress)
    → any_by (is_listed address) (filter_by (λ r. not (from_ofac r)) rows) ≡ elsewhere address rows
any_by-others address [] = refl
any_by-others address (r ∷ rows) = ground (arith, any_by-others address rows)

write-ok :
    (answer : Lists → Option Error) (change : Lists → Lists) (s t : Lists)
    → write answer change s ≡ (ok tt, t)
    → t ≡ change s
unfolding write
write-ok answer change s t h = elim (Option-cases (answer s)) [
  | inl taken ↦ sym (ap (λ (p : Result (Unit {0}) × Lists). p.1) (rw (taken, write) at h))
  | inr (e, refused) ↦ absurd (err-no-ok e (rw (refused, write) at h))
]
  where
    err-no-ok : (e : Error) → ¬ (Path (Result (Unit {0}) × Lists) (err e, s) (ok tt, t))
    err-no-ok e h = absurd (cc)

module _ (db : ListDatabase) (now : ℕ) where
  add_rows-ok :
      (entries : List ParsedEntry) (s t : Lists)
      → add_rows db entries s ≡ (ok tt, t)
      → (t.states ≡ s.states)
        × ((address : Text)
            → any_by (is_listed address) t.addresses
              ≡ (any_by (is_listed address) s.addresses || in_file address entries))
  unfolding add_rows
  add_rows-ok [] s t h =
      let e : t ≡ s = sym (ap (λ (p : Result (Unit {0}) × Lists). p.1) h) in
      (ap (λ (x : Lists). x.states) e, λ address. rw e (ground arith))
  add_rows-ok (x ∷ xs) s t h =
      let e = write-ok _ _ s t h in
      (
        ap (λ (y : Lists). y.states) e,
        λ address.
            ap (λ (y : Lists). any_by (is_listed address) y.addresses) e
            ∙ any_by-append address s.addresses (listed_rows (x ∷ xs))
            ∙ ap (λ b. any_by (is_listed address) s.addresses || b)
                (any_by-listed_rows address (x ∷ xs)),
      )

  -- What the transaction wrote: the state, and the rows that each address has.
  replace_list-ok :
      (entries : List ParsedEntry) (s t : Lists)
      → replace_list db now entries s ≡ (ok tt, t)
      → (t.states ≡ upsert (mark_synced now (length entries)) s.states)
        × ((address : Text)
            → any_by (is_listed address) t.addresses
              ≡ (elsewhere address s.addresses || in_file address entries))
  unfolding replace_list
  replace_list-ok entries s t h =
      let (u, s1, deleted, h1) = next-eq-ok (write db.deletes _ s) _ h in
      let (v, s2, added, h2) = next-eq-ok (add_rows db entries s1) _ h1 in
      let e1 = write-ok _ _ s s1 deleted in
      let (states, rows) = add_rows-ok entries s1 s2 added in
      let e3 = write-ok _ _ s2 t h2 in
      (
        ap (λ (x : Lists). x.states) e3
            ∙ ap (upsert (mark_synced now (length entries)))
                (states ∙ ap (λ (x : Lists). x.states) e1),
        λ address.
            ap (λ (x : Lists). any_by (is_listed address) x.addresses) e3
            ∙ rows address
            ∙ ap (λ (x : Lists). any_by (is_listed address) x.addresses || in_file address entries)
                e1
            ∙ ap (λ b. b || in_file address entries) (any_by-others address s.addresses),
      )

module _ (csv : (Text → Text) → Text → Result (List Row)) (db : ListDatabase) (now : ℕ) where
  undone-ok :
      (s t : Lists) (r : Result (Unit {0}) × Lists) → undone s r ≡ (ok tt, t) → r ≡ (ok tt, t)
  unfolding undone
  undone-ok s t (ok tt, u) h = h
  undone-ok s t (err e, u) h = absurd (cc)

  undone-err :
      (s t : Lists) (r : Result (Unit {0}) × Lists) (e : Error) → undone s r ≡ (err e, t) → t ≡ s
  unfolding undone
  undone-err s t (ok tt, u) e h = absurd (cc)
  undone-err s t (err x, u) e h = sym (ap (λ (p : Result (Unit {0}) × Lists). p.1) h)

  -- After a sync that succeeds, and for as long as the list may age, an address is blocked exactly if
  -- it is in the file or a row of another source has it: the rows of the earlier sync are gone.
  pub sync_from_csv-screen_address :
      (max_staleness later n : ℕ) (address text : Text) (entries : List ParsedEntry) (s s' : Lists)
      → parse_csv csv db now text ≡ ok entries
      → sync_from_csv csv db now text s ≡ (ok n, s')
      → later - now ≤ max_staleness
      → (screen_address max_staleness later address s').blocked
        ≡ (elsewhere address s.addresses || in_file address entries)
  unfolding sync_from_csv get_status status_of
  sync_from_csv-screen_address max_staleness later n address text entries s s' parsed synced_
        recent =
      let (u, t, replaced, same) =
        next-eq-ok (undone s (replace_list db now entries s)) _ (rw parsed at synced_) in
      let (states, rows) = replace_list-ok db now entries s t (undone-ok s t _ replaced) in
      let (row, found) = find_by-upsert (mark_synced now (length entries)) (λ t. refl) s.states in
      let e : t ≡ s' = ap (λ (p : Result ℕ × Lists). p.1) same in
      subst
        (λ (x : Lists).
          (screen_address max_staleness later address x).blocked
          ≡ (elsewhere address s.addresses || in_file address entries))
        e
        (screen_address-get_status max_staleness later address t
          ∙ rw states (rw found (ground (arith, rows address, recent))))

  failed-blocks :
      (max_staleness later : ℕ) (address : Text) (e : Error) (s : Lists)
      → (screen_address max_staleness later address
          (record s { states = upsert (mark_failed e) s.states })).blocked
        ≡ true
  unfolding get_status status_of
  failed-blocks max_staleness later address e s =
      let (t, found) = find_by-upsert (mark_failed e) (λ t. refl) s.states in
      screen_address-get_status max_staleness later address
        (record s { states = upsert (mark_failed e) s.states })
      ∙ rw found (ground arith)

  -- A sync that throws has changed nothing: the transaction is undone.
  attempt-err :
      (fetched : Result Response) (e : Error) (s t : Lists)
      → attempt csv db now fetched s ≡ (err e, t)
      → t ≡ s
  unfolding attempt sync_from_csv
  attempt-err fetched e s t h = lift-next-err fetched _ s t h (λ response h1.
      refuse-next-err (not response.succeeded) _ _ s t h1 (λ h2.
        lift-next-err response.body _ s t h2 (λ text h3.
          lift-next-err (parse_csv csv db now text) _ s t h3 (λ entries h4.
            transaction-err (undone s (replace_list db now entries s)) _ s t h4
              (λ u x h5. undone-err s x _ u h5)))))
    where
      lift-next-err :
          {A : Type 0} (r : Result A) (f : A → Exec Lists ℕ) (s t : Lists)
          → next (r, s) f ≡ (err e, t)
          → ((a : A) → f a s ≡ (err e, t) → t ≡ s)
          → t ≡ s
      lift-next-err (ok a) f s t h k = k a h
      lift-next-err (err x) f s t h k = sym (ap (λ (p : Result ℕ × Lists). p.1) h)

      refuse-next-err :
          (b : Bool) (x : Error) (f : Unit {0} → Exec Lists ℕ) (s t : Lists)
          → next (refuse b x s) f ≡ (err e, t)
          → (f tt s ≡ (err e, t) → t ≡ s)
          → t ≡ s
      refuse-next-err false x f s t h k = k h
      refuse-next-err true x f s t h k = sym (ap (λ (p : Result ℕ × Lists). p.1) h)

      transaction-err :
          (r : Result (Unit {0}) × Lists) (n : ℕ) (s t : Lists)
          → next r (λ _. pure n) ≡ (err e, t)
          → ((u : Error) (x : Lists) → r ≡ (err u, x) → x ≡ s)
          → t ≡ s
      transaction-err (ok u, x) n s t h k = absurd (cc)
      transaction-err (err u, x) n s t h k = sym (ap (λ (p : Result ℕ × Lists). p.1) h) ∙ k u x refl

  -- If `fetchAndSync` throws, whether in the fetch, the parsing or a write of the transaction, and the database takes
  -- the record of the failure, then the rows of the addresses are as they were before, also where the
  -- transaction had deleted them, and on the state that it leaves every address is blocked, whatever
  -- the time and the allowed age.
  pub fetch_and_sync-blocks :
      (fetched : Result Response) (e : Error) (s s' : Lists)
      → fetch_and_sync csv db now fetched s ≡ (err e, s')
      → db.upserts failed s ≡ none
      → (s'.addresses ≡ s.addresses)
        × ((max_staleness later : ℕ) (address : Text)
            → (screen_address max_staleness later address s').blocked ≡ true)
  unfolding fetch_and_sync record_failure write
  fetch_and_sync-blocks fetched e s s' h recorded = go (attempt csv db now fetched s) refl h
    where
      go :
          (r : Result ℕ × Lists)
          → attempt csv db now fetched s ≡ r
          → record_failure csv db now r ≡ (err e, s')
          → (s'.addresses ≡ s.addresses)
            × ((max_staleness later : ℕ) (address : Text)
                → (screen_address max_staleness later address s').blocked ≡ true)
      go (ok n, t) m h = absurd (cc)
      go (err x, t) m h =
          let same : t ≡ s = attempt-err fetched x s t m in
          let taken : db.upserts failed t ≡ none =
            subst (λ (u : Lists). db.upserts failed u ≡ none) (sym same) recorded in
          let left : record t { states = upsert (mark_failed x) t.states } ≡ s' =
            ap (λ (p : Result ℕ × Lists). p.1) (rw (taken, write) at h) in
          subst
            (λ (u : Lists).
              (u.addresses ≡ s.addresses)
              × ((max_staleness later : ℕ) (address : Text)
                  → (screen_address max_staleness later address u).blocked ≡ true))
            left (ap (λ (u : Lists). u.addresses) same, λ m l a. failed-blocks m l a x t)
