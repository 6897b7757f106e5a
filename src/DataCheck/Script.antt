-- ===== src/DataCheck/Script.antt =====
-- The data check's reads and its report (`main` and the ScanRowsFn of go-indexer/scripts/data-check.go).
use vault_indexer.Prelude.{
  wrap, Text, ℕ, ℤ, Bool, Option, none, some, List, [], ◌∷◌, Result, ok, err, ◌>>=◌, text,
}
use vault_indexer.Database.{
  PublicPositionsSelect, PublicWithdrawRequestsSelect, PublicRateUpdatesSelect,
}
use vault_indexer.Database.Events.{PublicEventsSelect, RawData}
use vault_indexer.DataCheck.{
  Table, events_table, rate_updates_table, withdraw_requests_table, positions_table, Rows, events,
  rate_updates, withdraw_requests, positions, Difference, compare_fn,
}

-- database/sql: what `rows.Next` runs through, with `rows.Err`, and `rows.Scan` of a row into the targets of
-- each table. A sql.NullInt64 or sql.NullString that is not valid is `none`.
pub record Driver : Type 1 where
  pub Raw : Type 0
  pub scan_event : Raw → Result (ℤ × Text × ℤ × Text)
  pub scan_rate_update : Raw → Result (ℤ × Text)
  pub scan_withdraw_request : Raw → Result (Text × ℤ × Text × Text × ℤ)
  pub scan_position : Raw → Result (Text × Bool × Text × Option ℤ × ℤ × ℤ × Option Text)
  pub scan_text : Raw → Result Text

-- The fields that are not scanned keep their zero values.
abbrev scanned_event : ℤ × Text × ℤ × Text → PublicEventsSelect
scanned_event r = record {
  block_hash = [];
  block_number = r.0;
  contract_address = [];
  created_at = none;
  event_name = r.1;
  id = [];
  is_processed = none;
  last_updated_at = none;
  log_index = r.2;
  raw_data = RawData.other (text "<nil>");
  transaction_hash = r.3;
}

abbrev scanned_rate_update : ℤ × Text → PublicRateUpdatesSelect
scanned_rate_update r = record {
  block_number = r.0;
  block_timestamp = [];
  contract_address = [];
  id = [];
  rate = r.1;
}

abbrev scanned_withdraw_request : Text × ℤ × Text × Text × ℤ → PublicWithdrawRequestsSelect
scanned_withdraw_request r = record {
  amount = r.0;
  block_number = r.1;
  contract_address = [];
  created_at = [];
  id = [];
  owner_address = r.2;
  receiver_address = r.3;
  withdraw_id = r.4;
}

abbrev scanned_position :
    Text × Bool × Text × Option ℤ × ℤ × ℤ × Option Text → PublicPositionsSelect
scanned_position r = record {
  amount_shares = r.0;
  contract_address = [];
  created_at = [];
  id = [];
  is_terminated = r.1;
  owner_address = r.2;
  position_end_height = r.3;
  position_index_id = r.4;
  position_start_height = r.5;
  withdraw_receiver_address = r.6;
}

abbrev pub fetch_string : Table → Text
fetch_string events_table =
    text
      "SELECT block_number, event_name, log_index, transaction_hash FROM events WHERE contract_address = $1 AND block_number <= $2 ORDER BY block_number ASC, log_index ASC"
fetch_string rate_updates_table =
    text
      "SELECT block_number, rate FROM rate_updates WHERE contract_address = $1 AND block_number <= $2 ORDER BY block_number ASC"
fetch_string withdraw_requests_table =
    text
      "SELECT amount, block_number, owner_address, receiver_address, withdraw_id FROM withdraw_requests WHERE contract_address = $1 AND block_number <= $2 ORDER BY block_number ASC, withdraw_id ASC"
fetch_string positions_table =
    text
      "SELECT amount_shares, is_terminated, owner_address, position_end_height, position_index_id, position_start_height,withdraw_receiver_address FROM positions WHERE contract_address = $1 AND position_start_height <= $2 ORDER BY position_start_height ASC"

abbrev contracts_string : Text
contracts_string = text "SELECT DISTINCT contract_address from events where block_number <= $1"

-- How the script ends: an error before the report, or the report with what differs.
pub data Exit : Type 0 where
  fatal : Text → Exit
  report : List (Table × Text × Difference) → Exit

abbrev pub exit_code : Exit → ℕ
exit_code (fatal e) = 1
exit_code (report []) = 0
exit_code (report (d ∷ ds)) = 1

module _ (driver : Driver) where
  open driver use {
    Raw, scan_event, scan_rate_update, scan_withdraw_request, scan_position, scan_text,
  }

  -- The rows that `Next` runs through, and `rows.Err()`.
  abbrev Cursor : Type 0
  Cursor = List Raw × Option Text

  abbrev rows_err : {A : Type 0} → Option Text → A → Result A
  rows_err none a = ok a
  rows_err (some e) a = err e

  unfoldable pub scan_loop :
      {A B : Type 0} → (Raw → Result A) → (A → B) → List Raw → Result (List B)
  scan_loop scan row [] = ok []
  scan_loop scan row (raw ∷ raws) = do
    a ← scan raw
    rest ← scan_loop scan row raws
    ok (row a ∷ rest)

  abbrev scan_all : {A B : Type 0} → (Raw → Result A) → (A → B) → Cursor → Result (List B)
  scan_all scan row (raws, e) = scan_loop scan row raws >>= rows_err e

  unfoldable pub scan_rows_fn : Table → Cursor → Result Rows
  scan_rows_fn events_table c = scan_all scan_event scanned_event c >>= λ rs. ok (events rs)
  scan_rows_fn rate_updates_table c =
      scan_all scan_rate_update scanned_rate_update c >>= λ rs. ok (rate_updates rs)
  scan_rows_fn withdraw_requests_table c =
      scan_all scan_withdraw_request scanned_withdraw_request c >>= λ rs. ok (withdraw_requests rs)
  scan_rows_fn positions_table c =
      scan_all scan_position scanned_position c >>= λ rs. ok (positions rs)

  -- A database: a query with a contract, and the one for the contracts.
  pub record Database : Type 0 where
    pub query : Text → Text → ℕ → Result Cursor
    pub query_contracts : Text → ℕ → Result Cursor

  -- `rows.Err()` is not looked at.
  unfoldable pub get_unique_contract_addresses : Database → ℕ → Result (List Text)
  get_unique_contract_addresses db current_block = do
    c ←
        wrap (text "failed to get unique contract addresses: ")
          (db.query_contracts contracts_string current_block)
    wrap (text "failed to scan row: ") (scan_loop scan_text (λ a. a) c.0)

  unfoldable pub fetch : Database → Table → Text → ℕ → Result Rows
  fetch db table contract current_block = do
    c ← db.query (fetch_string table) contract current_block
    scan_rows_fn table c

  module _ (local remote : Database) (current_block : ℕ) where
    abbrev pub add_difference :
        Table
        → Text
        → Option Difference
        → List (Table × Text × Difference)
        → List (Table × Text × Difference)
    add_difference table contract none ds = ds
    add_difference table contract (some d) ds = (table, contract, d) ∷ ds

    -- One table and contract, before the rest.
    unfoldable pub check_pair :
        Table
        → Text
        → Result (List (Table × Text × Difference))
        → Result (List (Table × Text × Difference))
    check_pair table contract rest = do
      remote_rows ← fetch remote table contract current_block
      local_rows ← fetch local table contract current_block
      ds ← rest
      ok (add_difference table contract (compare_fn table local_rows remote_rows) ds)

    unfoldable pub check_contracts :
        Table
        → List Text
        → Result (List (Table × Text × Difference))
        → Result (List (Table × Text × Difference))
    check_contracts table [] rest = rest
    check_contracts table (contract ∷ contracts) rest =
        check_pair table contract (check_contracts table contracts rest)

    -- The comparators in their order.
    unfoldable pub check_tables : List Text → Result (List (Table × Text × Difference))
    check_tables contracts = check_contracts events_table contracts (
        check_contracts rate_updates_table contracts (
          check_contracts withdraw_requests_table contracts
            (check_contracts positions_table contracts (ok []))))

  abbrev pub reported : Result (List (Table × Text × Difference)) → Exit
  reported (ok ds) = report ds
  reported (err e) = fatal e

  -- `main`, with open connections.
  unfoldable pub data_check : Database → Database → Result ℕ → Exit
  data_check local remote current_block = reported (
      current_block >>= λ n. get_unique_contract_addresses remote n >>= check_tables local remote n)
