-- ===== src/Extractor/Stored.antt =====
-- What writeIdempotentEvent leaves in the table: the rows that were there, and the key of the log.
use vault_indexer.Prelude.{
  Text, ℤ, to_int64, ◌≡◌, sym, ◌∙◌, ap, none, List, [], ◌∷◌, Any, Any-map, Result, bind-ok,
  ok-injective, ok, err, inr,
}
use vault_indexer.Query.{Reply, body, failed, malformed}
use vault_indexer.Extractor.{
  EventsTable, EventIngestionInsert, Encoding, Log, AbiEvent, key_query, ingested, parse_event,
  insert_unless_found, inserted, write_parsed, write_idempotent_event, to_event_ingestion_insert,
  to_int32, indexed_parameters,
}
use vault_indexer.Extractor.Write.{HasKey, IsTable, IsInserted, write_idempotent_event_again}

-- The table has a row of the block and the index of the log, in the columns' types.
abbrev pub Stored : Log → List EventIngestionInsert → Type 0
Stored log rows = Any (HasKey (to_int64 log.block_number) (to_int32 log.index)) rows

-- The row of a log has its block and index.
parsed-key :
    (encoding : Encoding) (log : Log) (event : AbiEvent) (row : EventIngestionInsert)
    → parse_event encoding log event ≡ ok row
    → (row.block_number ≡ to_int64 log.block_number) × (row.log_index ≡ to_int32 log.index)
unfolding parse_event to_event_ingestion_insert
parsed-key encoding log event row h =
    let (indexed, i, h1) = bind-ok (indexed_parameters log.topics event.inputs 0 []) _ row h in
    let (all, u, h2) =
      bind-ok (encoding.unpack_into_map event.inputs log.data_bytes indexed) _ row h1 in
    let (json, j, h3) = bind-ok (encoding.marshal all) _ row h2 in
    let same = ok-injective _ row h3 in
    (
      sym (ap (λ (r : EventIngestionInsert). r.block_number) same),
      sym (ap (λ (r : EventIngestionInsert). r.log_index) same),
    )

module _ (table : EventsTable) (rows : table.State → List EventIngestionInsert)
    (is_table : IsTable table rows) where
  open table use {State, select, insert}

  inserted-HasKey :
      (b l : ℤ) (s : State) (row : EventIngestionInsert) (q : State × Reply (List Text))
      → IsInserted (rows s) row (rows q.0) q.1
      → Any (HasKey b l) (rows s)
      → Any (HasKey b l) (rows (inserted table q).0)
  inserted-HasKey b l s row (s', failed e) i a = rw i a
  inserted-HasKey b l s row (s', malformed e) i a = rw i (inr a)
  inserted-HasKey b l s row (s', body ids) i a = rw i (inr a)

  unless_found-HasKey :
      (b l : ℤ) (s : State) (row : EventIngestionInsert) (reply : Reply (List Text))
      → Any (HasKey b l) (rows s)
      → Any (HasKey b l) (rows (insert_unless_found table reply row s).0)
  unless_found-HasKey b l s row (failed e) a = a
  unless_found-HasKey b l s row (malformed e) a = a
  unless_found-HasKey b l s row (body (id ∷ ids)) a = a
  unless_found-HasKey b l s row (body []) a =
      inserted-HasKey b l s (ingested row) (insert (ingested row) s)
        (is_table.inserts s (ingested row)) a

  -- A write, whether it succeeds or fails, removes no row.
  pub write_idempotent_event-HasKey :
      (encoding : Encoding) (log : Log) (event : AbiEvent) (b l : ℤ) (s : State)
      → Any (HasKey b l) (rows s)
      → Any (HasKey b l) (rows (write_idempotent_event table encoding log event s).0)
  unfolding write_idempotent_event
  write_idempotent_event-HasKey encoding log event b l s a = go (parse_event encoding log event)
    where
      go : (r : Result EventIngestionInsert) → Any (HasKey b l) (rows (write_parsed table r s).0)
      go (err e) = a
      go (ok row) =
          unless_found-HasKey b l s row (select (key_query row.block_number row.log_index) s) a

  -- A write without an error leaves a row of the log's block and index.
  pub write_idempotent_event-Stored :
      (encoding : Encoding) (log : Log) (event : AbiEvent) (s : State)
      → (write_idempotent_event table encoding log event s).1 ≡ none
      → Stored log (rows (write_idempotent_event table encoding log event s).0)
  write_idempotent_event-Stored encoding log event s h =
      let ((row, p, a), again) =
        write_idempotent_event_again table rows is_table encoding log event s h in
      let (b, l) = parsed-key encoding log event row p in
      Any-map (λ r k. (k.0 ∙ b, k.1 ∙ l))
        (rows (write_idempotent_event table encoding log event s).0) a
