-- ===== src/Sanctions.antt =====
-- services/backend/src/modules/compliance/sanctions.service.ts: the screening of addresses and the
-- sync of the list, on the two tables that it keeps. The parsing of CSV text into records and the
-- fetching are parameters. Times are in milliseconds.
pub mod Screening
pub mod Sync
mod Tests
use open_privy.Base.{
  ℕ, ◌+◌, ◌-◌, ◌*◌, String, Text, codes, text_eq, to_lower, trim, length, Bool, true, false, not,
  ◌&&◌, ◌||◌, List, [], ◌∷◌, ◌++◌, map, Option, none, some, Error, bad_request, unauthorized,
  forbidden, not_found, unavailable, failure, Result, ok, err, ltb, ◌==◌, if◌then◌else◌, filter_by,
  find_by, any_by, update_by, Exec, pure, lift, modify, refuse,
}
use open_privy.Base.Actions.{◌>>=◌, ◌>>◌}

-- `'ok'`, `'failed'` and `'never_run'`.
pub data SyncStatus : Type 0 where
  synced failed never_run : SyncStatus

abbrev pub is_synced : SyncStatus → Bool
is_synced synced = true
is_synced _ = false

pub record ComplianceSyncState : Type 0 where
  pub source : Text
  pub last_synced_at : Option ℕ
  pub last_sync_status : SyncStatus
  pub entry_count : ℕ
  pub last_error : Option String

pub record ParsedEntry : Type 0 where
  pub address : Text
  pub currency : Option Text
  pub program : Option Text
  pub sdn_ent_num : Option Text
  pub listed_name : Option Text

pub record SanctionedAddress : Type 0 where
  pub entry : ParsedEntry
  pub open entry use *
  pub source : Text

pub record Lists : Type 0 where
  pub addresses : List SanctionedAddress
  pub states : List ComplianceSyncState

pub data Reason : Type 0 where
  never_synced : Reason
  stale : (age_ms : ℕ) → Reason
  listed : (name : Option Text) → Reason

pub record ScreeningResult : Type 0 where
  pub blocked : Bool
  pub reason : Option Reason

pub record Status : Type 0 where
  pub last_synced_at : Option ℕ
  pub last_sync_status : SyncStatus
  pub entry_count : ℕ
  pub is_stale : Bool

-- What `fetch` answers.
pub record Response : Type 0 where
  pub succeeded : Bool
  pub body : Result Text

-- `SOURCE`.
abbrev pub ofac_sdn : Text
ofac_sdn = codes "ofac_sdn"

abbrev pub is_ofac : ComplianceSyncState → Bool
is_ofac t = text_eq t.source ofac_sdn

abbrev pub from_ofac : SanctionedAddress → Bool
from_ofac r = text_eq r.source ofac_sdn

abbrev refused : Reason → ScreeningResult
refused reason = record { blocked = true; reason = some reason }

-- The lookup of the normalized address.
unfoldable pub look_up : Text → List SanctionedAddress → ScreeningResult
look_up address rows = elim (find_by (λ r. text_eq r.address (to_lower address)) rows) [
  | some r ↦ refused (listed r.listed_name)
  | none ↦ record { blocked = false; reason = none }
]

-- `maxAgeHours` in milliseconds; 0 and what is no number count as a week.
unfoldable pub max_staleness_ms : Option ℕ → ℕ
max_staleness_ms none = 168 * 60 * 60 * 1000
max_staleness_ms (some hours) = if hours == 0 then 168 * 60 * 60 * 1000 else hours * 60 * 60 * 1000

-- The checks of `screenAddress` once the state is read.
unfoldable pub screen_at :
    ℕ → ℕ → Text → List SanctionedAddress → SyncStatus → Option ℕ → ScreeningResult
screen_at max_staleness now address rows status none = refused never_synced
screen_at max_staleness now address rows status (some t) =
    if not (is_synced status)
    then refused never_synced
    else if ltb max_staleness (now - t)
    then refused (stale (now - t))
    else look_up address rows

unfoldable pub screen_with :
    ℕ → ℕ → Text → List SanctionedAddress → Option ComplianceSyncState → ScreeningResult
screen_with max_staleness now address rows none = refused never_synced
screen_with max_staleness now address rows (some t) =
    screen_at max_staleness now address rows t.last_sync_status t.last_synced_at

unfoldable pub screen_address : ℕ → ℕ → Text → Lists → ScreeningResult
screen_address max_staleness now address s =
    screen_with max_staleness now address s.addresses (find_by is_ofac s.states)

abbrev pub is_old : ℕ → ℕ → Option ℕ → Bool
is_old max_staleness now none = true
is_old max_staleness now (some t) = ltb max_staleness (now - t)

unfoldable pub status_of : ℕ → ℕ → Option ComplianceSyncState → Status
status_of max_staleness now none = record {
  last_synced_at = none;
  last_sync_status = never_run;
  entry_count = 0;
  is_stale = true;
}
status_of max_staleness now (some t) = record {
  last_synced_at = t.last_synced_at;
  last_sync_status = t.last_sync_status;
  entry_count = t.entry_count;
  is_stale = is_old max_staleness now t.last_synced_at || not (is_synced t.last_sync_status);
}

unfoldable pub get_status : ℕ → ℕ → Lists → Status
get_status max_staleness now s = status_of max_staleness now (find_by is_ofac s.states)

-- A record of the CSV: the value of a column, by its name.
abbrev pub Row : Type 0
Row = Text → Option Text

-- The first of the columns with a value.
unfoldable pub pick : Row → List Text → Option Text
pick row [] = none
pick row (k ∷ ks) =
    let rest = pick row ks in
    elim (row k) [
      | none ↦ rest
      | some value ↦ if length (trim value) == 0 then rest else some (trim value)
    ]

unfoldable pub entry_of : Row → Text → ParsedEntry
entry_of row address = record {
  address = to_lower address;
  currency = pick row (codes "currency" ∷ codes "chain" ∷ codes "asset" ∷ []);
  program = pick row (codes "program" ∷ codes "sanctions_program" ∷ []);
  sdn_ent_num = pick row (codes "ent_num" ∷ codes "entity_id" ∷ codes "uid" ∷ []);
  listed_name = pick row (codes "sdn_name" ∷ codes "name" ∷ codes "entity_name" ∷ []);
}

-- The loop over the records.
unfoldable pub entries_of : List Row → List ParsedEntry
entries_of [] = []
entries_of (row ∷ rows) =
    let rest = entries_of rows in
    elim (pick row (
      codes "address"
      ∷ codes "digital currency address"
      ∷ codes "wallet_address"
      ∷ codes "addr"
      ∷ [])) [ none ↦ rest | some address ↦ entry_of row address ∷ rest ]

abbrev never_ran : ComplianceSyncState
never_ran = record {
  source = ofac_sdn;
  last_synced_at = none;
  last_sync_status = never_run;
  entry_count = 0;
  last_error = none;
}

-- An upsert on the source: the columns that `f` sets, over the row or over the defaults.
unfoldable pub upsert :
    (ComplianceSyncState → ComplianceSyncState)
    → List ComplianceSyncState
    → List ComplianceSyncState
upsert f ts = if any_by is_ofac ts then update_by is_ofac f ts else ts ++ f never_ran ∷ []

abbrev pub mark_synced : ℕ → ℕ → ComplianceSyncState → ComplianceSyncState
mark_synced now entries t = record t {
  last_synced_at = some now;
  last_sync_status = synced;
  entry_count = entries;
  last_error = none;
}

abbrev message_of : Error → String
message_of (bad_request m) = m
message_of (unauthorized m) = m
message_of (forbidden m) = m
message_of (not_found m) = m
message_of (unavailable m) = m
message_of (failure m) = m

abbrev pub mark_failed : Error → ComplianceSyncState → ComplianceSyncState
mark_failed e t = record t { last_sync_status = failed; last_error = some (message_of e) }

-- What the database answers to a write: none, or the error with which the write is refused.
pub record ListDatabase : Type 0 where
  pub deletes : Lists → Option Error
  pub saves : List SanctionedAddress → Lists → Option Error
  pub upserts : SyncStatus → Lists → Option Error

unfoldable pub write : (Lists → Option Error) → (Lists → Lists) → Exec Lists (Unit {0})
write answer change s = elim (answer s) [ none ↦ (ok tt, change s) | some e ↦ (err e, s) ]

-- `manager.transaction`: what throws is undone.
unfoldable pub undone : {A : Type 0} → Lists → Result A × Lists → Result A × Lists
undone s (ok a, t) = (ok a, t)
undone s (err e, t) = (err e, s)

abbrev pub listed_rows : List ParsedEntry → List SanctionedAddress
listed_rows = map (λ e. record { entry = e; source = ofac_sdn })

-- The rows are saved if there are any.
unfoldable pub add_rows : ListDatabase → List ParsedEntry → Exec Lists (Unit {0})
add_rows db [] = pure tt
add_rows db (e ∷ es) =
    write (db.saves (listed_rows (e ∷ es)))
      (λ s. record s { addresses = s.addresses ++ listed_rows (e ∷ es) })

-- The body of the transaction of `syncFromCsv`.
unfoldable pub replace_list : ListDatabase → ℕ → List ParsedEntry → Exec Lists (Unit {0})
replace_list db now entries = do
  write db.deletes (λ s. record s { addresses = filter_by (λ r. not (from_ofac r)) s.addresses })
  add_rows db entries
  write (db.upserts synced)
      (λ s. record s { states = upsert (mark_synced now (length entries)) s.states })

-- `csv` parses a text, with the names of the columns passed through a function.
module _ (csv : (Text → Text) → Text → Result (List Row)) (db : ListDatabase) (now : ℕ) where
  unfoldable pub parse_csv : Text → Result (List ParsedEntry)
  parse_csv text = elim (csv (λ h. to_lower (trim h)) text) [
    | ok rows ↦ ok (entries_of rows)
    | err e ↦ err e
  ]

  unfoldable pub sync_from_csv : Text → Exec Lists ℕ
  sync_from_csv text = do
    entries ← lift (parse_csv text)
    (λ s. undone s (replace_list db now entries s))
    pure (length entries)

  -- The `try` of `fetchAndSync`.
  unfoldable pub attempt : Result Response → Exec Lists ℕ
  attempt fetched = do
    response ← lift fetched
    refuse (not response.succeeded) (failure "Fetch failed")
    text ← lift response.body
    sync_from_csv text

  -- The `catch`.
  unfoldable pub record_failure : Result ℕ × Lists → Result ℕ × Lists
  record_failure (ok n, s) = (ok n, s)
  record_failure (err e, s) =
      (write (db.upserts failed) (λ t. record t { states = upsert (mark_failed e) t.states })
          >> lift (err e))
        s

  unfoldable pub fetch_and_sync : Result Response → Exec Lists ℕ
  fetch_and_sync fetched s = record_failure (attempt fetched s)
