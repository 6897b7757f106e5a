-- ===== src/Transformer/Tests.antt =====
-- A batch of two events, the second of which cannot be parsed; a cleanup; and a transfer's statements.
use vault_indexer.Prelude.{
  ◌≡◌, refl, ℕ, ◌+◌, ◌<◌, ◌≤◌, pos, true, false, none, some, [], ◌∷◌, ok, err, text, eq_text, arith,
  Text, Contains, ◌<ℤ◌, List,
}
use vault_indexer.Database.{PublicPositionsSelect}
use vault_indexer.Database.Events.{PublicEventsSelect, RawData}
use vault_indexer.SqlBuilder.{
  build_update, fields_of, to_db_value, is_skipped, member, add_where, add_set,
}
use vault_indexer.SqlBuilder.Rows.{events_update_fields}
use vault_indexer.Query.{body}
use vault_indexer.Positions.{compute_transfer}
use vault_indexer.Positions.Tests.{
  forty, forty-Reads, forty-IsTransfer, in_range, alice, bob, vault, alice_row, bob_row,
  alice-HasShares, bob-HasShares,
}
use vault_indexer.Positions.Update.{opened, closed}
use vault_indexer.Handlers.Position.{Headers}
use vault_indexer.Handlers.Controller.{Codec, handle, dispatch, parse_event_data, trim_quotes}
use vault_indexer.Transformer.{
  Store, process_event, process_batch, run_operations, run_inserts, run_updates, update_in_table,
}
use vault_indexer.Transformer.Batch.{Applied, done, step, Ended, process_batch_atomic}
use vault_indexer.Transformer.Loop.{queries, Round, loop}
use vault_indexer.Transformer.Runs.{Runs}
use vault_indexer.Transformer.Refined.{loop-Runs}
use vault_indexer.Transformer.Statements.{rows_of, transfer_writes_receiver_only}
use vault_indexer.Transformer.Retry.{idle, failed, start, new_retries, limit_of, start-limit}
use vault_indexer.Transformer.Cleanup.{Tables, Database, reopen, handle_cleanup_from_block}
use vault_indexer.Transformer.Cleanup.Consistent.{UpTo, PositionUpTo, cleanup-UpTo, cleanup_keeps}
use vault_indexer.Transformer.Cleanup.Reopened.{with_update, cleanup_reopens}

-- Tables that are the count of the statements that were committed.
abbrev store : Store
store = record {
  State = ℕ;
  Tx = ℕ;
  begin = λ s. ok s;
  exec = λ q t. ok (t + 1);
  commit = λ t s. ok t;
  client = λ s. record {
    execute = λ q. body [];
    execute_single = λ q. body alice_row;
    is_hex_address = λ a. true;
  };
}

-- A codec for which the data of every event that is not empty is an empty object.
abbrev codec : Codec
codec = record {
  unquote = λ s. none;
  decode_base64 = λ s. ok s;
  unmarshal = λ s. elim s [ [] ↦ err (text "unexpected end of JSON input") | c ∷ cs ↦ ok [] ];
}

abbrev chain : Headers
chain = record { header_time = λ n. ok 0; format_utc = λ z. [] }

abbrev event : Text → PublicEventsSelect
event data' = record {
  block_hash = text "0xh";
  block_number = pos 20;
  contract_address = vault;
  created_at = none;
  event_name = text "Paused";
  id = text "e1";
  is_processed = none;
  last_updated_at = none;
  log_index = pos 0;
  raw_data = RawData.string data';
  transaction_hash = text "0xt";
}

applied_one : process_event store codec chain (event (text "{}")) 0 ≡ ok 1
unfolding process_event run_operations run_inserts run_updates update_in_table handle dispatch
    parse_event_data trim_quotes eq_text text build_update events_update_fields fields_of
    to_db_value is_skipped member add_where add_set
applied_one = refl

applied : Applied store codec chain 0 (event (text "{}") ∷ []) 1
applied = step applied_one done

process_batch_atomic_example :
    Ended store codec chain 0
      (event (text "{}") ∷ event [] ∷ [])
      (process_batch store codec chain (event (text "{}") ∷ event [] ∷ []) 0)
process_batch_atomic_example =
    process_batch_atomic store codec chain (event (text "{}") ∷ event [] ∷ []) 0

-- A row that does not scan between two that do, and a batch after an error.
abbrev rounds : List Round
rounds =
    queries (ok (ok (event (text "{}")) ∷ err (text "scan") ∷ ok (event (text "{}")) ∷ [])) 1 1
    ∷ queries (err (text "timeout")) 1 1
    ∷ queries (ok (ok (event (text "{}")) ∷ [])) 1 1
    ∷ []

loop-Runs_example :
    (let r = loop store codec chain rounds 0 (new_retries 5) in
      Runs store codec chain (limit_of 5) 0 0 rounds r.0 r.1.stopped)
loop-Runs_example = loop-Runs store codec chain 5 rounds 0

transfer_writes_receiver_only_example :
    let computed = compute_transfer forty (some alice_row) (some bob_row) (pos 7) in
    let received = opened bob vault 8 90 20 in
    let left = opened alice vault 9 60 20 in
    (computed.inserts ≡ received ∷ left ∷ [])
    × (computed.updates ≡ closed (text "p2") false 20 none ∷ closed (text "p1") false 20 none ∷ [])
    × (run_operations store (event []) (rows_of computed.inserts computed.updates) 0
        ≡ run_operations store
            (event [])
            (rows_of (received ∷ []) (closed (text "p2") false 20 none ∷ []))
            0)
transfer_writes_receiver_only_example =
    transfer_writes_receiver_only store (event []) forty 40 7 alice_row bob_row 100 50 0 forty-Reads
      in_range forty-IsTransfer alice-HasShares bob-HasShares (omega arith) (omega arith)

start-limit_example :
    (start
      (failed (text "timeout") 5 ∷ idle ∷ failed (text "syntax") 7 ∷ [])
      (new_retries 0)).stopped
    ≡ true
start-limit_example =
    start-limit 0 (failed (text "timeout") 5 ∷ idle ∷ failed (text "syntax") 7 ∷ [])

abbrev answering : Database
answering = record { begin = none; exec = λ s. none; commit = none }

abbrev tables : Tables
tables = record {
  withdraw_requests = [];
  rate_updates = [];
  positions = alice_row ∷ [];
  events = event [] ∷ [];
}

abbrev tables_left : Tables
tables_left = record {
  withdraw_requests = [];
  rate_updates = [];
  positions = alice_row ∷ [];
  events = [];
}

cleaned_up : handle_cleanup_from_block answering true (pos 20) tables ≡ ok tables_left
unfolding handle_cleanup_from_block
cleaned_up = refl

cleanup-UpTo_example : (true ≡ true) × UpTo (pos 20) tables_left
cleanup-UpTo_example = cleanup-UpTo answering true (pos 20) tables tables_left cleaned_up

cleanup_keeps_example :
    ((p : PublicPositionsSelect)
      → Contains tables.positions p
      → PositionUpTo (pos 20) p
      → Contains tables_left.positions p)
    × ((e : PublicEventsSelect)
        → Contains tables.events e
        → e.block_number <ℤ pos 20
        → Contains tables_left.events e)
cleanup_keeps_example = cleanup_keeps answering true (pos 20) tables tables_left cleaned_up

cleanup_reopens_example :
    let ended = with_update (closed (text "p1") false 22 none) alice_row in
    (21 < 22 → reopen (pos 20) ended ≡ alice_row) × (22 ≤ 21 → reopen (pos 20) ended ≡ ended)
cleanup_reopens_example =
    cleanup_reopens 20 22 alice_row false none
      (record { live = refl; endless = refl; unsent = refl })
