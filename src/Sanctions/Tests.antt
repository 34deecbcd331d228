-- ===== src/Sanctions/Tests.antt =====
-- Tests of the screening: a list of one address, synced at time 10.
use open_privy.Base.{
  ℕ, Text, text_eq, codes, failure, true, ◌||◌, List, [], ◌∷◌, none, some, Result, ok, err, ◌≡◌,
  refl, any_by, arith, if◌then◌else◌,
}
use open_privy.Base.Strings.{text_eq, lower_unit, trim}
use open_privy.Sanctions.{
  Lists, Row, ParsedEntry, ComplianceSyncState, synced, ofac_sdn, look_up, screen_at, screen_with,
  screen_address, get_status, pick, entry_of, entries_of, parse_csv, sync_from_csv, attempt,
  record_failure, fetch_and_sync, ListDatabase, Response, write, undone, add_rows, replace_list,
  upsert,
}
use open_privy.Sanctions.Screening.{
  is_listed, IsClear, screen_address-get_status, screen_address-IsClear,
}
use open_privy.Sanctions.Sync.{
  elsewhere, in_file, sync_from_csv-screen_address, fetch_and_sync-blocks,
}

abbrev fresh_state : ComplianceSyncState
fresh_state = record {
  source = ofac_sdn;
  last_synced_at = some 10;
  last_sync_status = synced;
  entry_count = 1;
  last_error = none;
}

abbrev listed_entry : ParsedEntry
listed_entry = record {
  address = codes "0xab";
  currency = none;
  program = none;
  sdn_ent_num = none;
  listed_name = none;
}

abbrev lists : Lists
lists = record {
  addresses = record { entry = listed_entry; source = ofac_sdn } ∷ [];
  states = fresh_state ∷ [];
}

-- One record, with an address column.
abbrev csv : (Text → Text) → Text → Result (List Row)
csv f text = ok ((λ column. if text_eq column (codes "addr") then some text else none) ∷ [])

screen_address-get_status_example :
    (screen_address 100 50 (codes "0xAB") lists).blocked
    ≡ ((get_status 100 50 lists).is_stale || any_by (is_listed (codes "0xAB")) lists.addresses)
screen_address-get_status_example = screen_address-get_status 100 50 (codes "0xAB") lists

screen_address-IsClear_example : IsClear 100 50 (codes "0xcd") lists
unfolding screen_address screen_with screen_at look_up text_eq lower_unit
screen_address-IsClear_example = screen_address-IsClear 100 50 (codes "0xcd") lists refl

-- A database that takes every write.
abbrev takes_all : ListDatabase
takes_all = record { deletes = λ s. none; saves = λ rows s. none; upserts = λ status s. none }

-- A database that takes no new rows.
abbrev takes_no_rows : ListDatabase
takes_no_rows = record takes_all { saves = λ rows s. some (failure "disk full") }

abbrev after_sync : Result ℕ × Lists
after_sync = sync_from_csv csv takes_all 20 (codes "0xCD") lists

synced_one : after_sync ≡ (ok 1, after_sync.1)
unfolding sync_from_csv replace_list add_rows undone write upsert parse_csv entries_of entry_of pick
    text_eq lower_unit trim
synced_one = refl

sync_from_csv-screen_address_example :
    (screen_address 100 50 (codes "0xCD") after_sync.1).blocked ≡ (
      elsewhere (codes "0xCD") lists.addresses
      || in_file (codes "0xCD") (record listed_entry { address = codes "0xcd" } ∷ []))
unfolding parse_csv entries_of entry_of pick text_eq lower_unit trim
sync_from_csv-screen_address_example =
    sync_from_csv-screen_address csv takes_all 20 100 50 1 (codes "0xCD") (codes "0xCD")
      (record listed_entry { address = codes "0xcd" } ∷ []) lists after_sync.1 refl synced_one
      (omega arith)

-- The list is fetched, but its rows are refused after the old ones were deleted.
abbrev fetched : Result Response
fetched = ok (record { succeeded = true; body = ok (codes "0xCD") })

abbrev after_failure : Result ℕ × Lists
after_failure = fetch_and_sync csv takes_no_rows 20 fetched lists

refused_rows : after_failure ≡ (err (failure "disk full"), after_failure.1)
unfolding fetch_and_sync attempt record_failure sync_from_csv replace_list add_rows undone write
    upsert parse_csv entries_of entry_of pick text_eq lower_unit trim
refused_rows = refl

fetch_and_sync-blocks_example :
    (after_failure.1.addresses ≡ lists.addresses)
    × ((max_staleness later : ℕ) (address : Text)
        → (screen_address max_staleness later address after_failure.1).blocked ≡ true)
fetch_and_sync-blocks_example =
    fetch_and_sync-blocks csv takes_no_rows 20 fetched (failure "disk full") lists after_failure.1
      refused_rows refl
