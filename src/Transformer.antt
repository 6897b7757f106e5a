-- ===== src/Transformer.antt =====
-- The Transformer (go-indexer/indexer/transformer.go): a batch of events, each in a transaction of its
-- own; the retries; and one turn of the loop.
pub mod Batch
pub mod Statements
pub mod Retry
pub mod Loop
pub mod Runs
pub mod Refined
pub mod Cleanup
mod Tests
use vault_indexer.Prelude.{
  Text, ℕ, ◌+◌, Bool, true, false, Option, none, some, List, [], ◌∷◌, ◌++◌, Result, ok, err, ◌>>=◌,
  text,
}
use vault_indexer.Database.Events.{PublicEventsSelect, PublicEventsUpdate}
use vault_indexer.Database.Operations.{DbOperation, DatabaseOperations}
use vault_indexer.SqlBuilder.{Statement, build_insert, build_update, Any}
use vault_indexer.SqlBuilder.Rows.{any_of, events_update_fields}
use vault_indexer.Positions.Fetch.{Client}
use vault_indexer.Handlers.Position.{Headers}
use vault_indexer.Handlers.Controller.{Codec, handle}

-- Postgres through database/sql: `begin` opens a transaction on the committed tables, `exec` runs a
-- statement in it, and `commit` gives the tables that are committed then. A transaction that is rolled
-- back, or whose commit fails, leaves the committed tables. `client` reads the committed tables.
pub record Store : Type 1 where
  pub State : Type 0
  pub Tx : Type 0
  pub begin : State → Result Tx
  pub exec : Statement → Tx → Result Tx
  pub commit : Tx → State → Result State
  pub client : State → Client

-- `PublicEventsUpdate{Id: &event.Id, IsProcessed: ptr(true)}`
abbrev event_update : PublicEventsSelect → PublicEventsUpdate
event_update event = record {
  block_hash = none;
  block_number = none;
  contract_address = none;
  created_at = none;
  event_name = none;
  id = some event.id;
  is_processed = some true;
  last_updated_at = none;
  log_index = none;
  raw_data = none;
  transaction_hash = none;
}

abbrev pub id_key : List Text
id_key = text "id" ∷ []

module _ (store : Store) where
  open store use {State, Tx, begin, exec, commit, client}

  unfoldable insert_to_table : Text → Any → Tx → Result Tx
  insert_to_table table row tx = build_insert table row >>= λ statement. exec statement tx

  unfoldable pub update_in_table : Text → Any → Tx → Result Tx
  update_in_table table row tx = build_update table row id_key >>= λ statement. exec statement tx

  unfoldable pub run_inserts : List DbOperation → Tx → Result Tx
  unfolding insert_to_table
  run_inserts [] tx = ok tx
  run_inserts (op ∷ ops) tx = insert_to_table op.table (any_of op.payload) tx >>= run_inserts ops

  unfoldable pub run_updates : List DbOperation → Tx → Result Tx
  unfolding update_in_table
  run_updates [] tx = ok tx
  run_updates (op ∷ ops) tx = update_in_table op.table (any_of op.payload) tx >>= run_updates ops

  -- The inserts, the updates, and the event's own row.
  unfoldable pub run_operations : PublicEventsSelect → DatabaseOperations → Tx → Result Tx
  run_operations event ops tx = do
    inserted ← run_inserts ops.inserts tx
    updated ← run_updates ops.updates inserted
    update_in_table (text "events") (Any.struct (events_update_fields (event_update event))) updated

  module _ (codec : Codec) (chain : Headers) where
    -- One event, from BeginTx to Commit. An error rolls the transaction back.
    unfoldable pub process_event : PublicEventsSelect → State → Result State
    process_event event state = do
      tx ← begin state
      ops ← handle codec (client state) chain event
      done ← run_operations event ops tx
      commit done state

    -- The rest of the batch, unless the event failed.
    abbrev pub continue_batch :
        Result State → State → (State → State × Option Text) → State × Option Text
    continue_batch (ok next) state rest = rest next
    continue_batch (err e) state rest = (state, some e)

    -- processBatch: the tables as they are left, and the error that ended the batch.
    unfoldable pub process_batch : List PublicEventsSelect → State → State × Option Text
    process_batch [] state = (state, none)
    process_batch (event ∷ events) state =
        continue_batch (process_event event state) state (process_batch events)
