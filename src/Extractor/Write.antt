-- ===== src/Extractor/Write.antt =====
-- writeIdempotentEvent keeps the events apart by block and log index, and does nothing the second time.
use vault_indexer.Prelude.{
  Text, ℤ, ◌≡◌, refl, none, List, [], ◌∷◌, All, Any, Result, ok, err, inl, inr, arith,
}
use vault_indexer.Query.{Reply, body, failed, malformed}
use vault_indexer.Extractor.{
  EventsTable, EventIngestionInsert, Encoding, Log, AbiEvent, key_query, ingested, parse_event,
  insert_unless_found, inserted, write_parsed, write_idempotent_event, to_event_ingestion_insert,
}

-- The row is of this block and log index.
abbrev pub HasKey : ℤ → ℤ → EventIngestionInsert → Type 0
HasKey block_number log_index r = (r.block_number ≡ block_number) × (r.log_index ≡ log_index)

-- No two rows have the same block and log index.
abbrev pub UniqueKeys : List EventIngestionInsert → Type 0
UniqueKeys [] = Unit
UniqueKeys (r ∷ rs) = All (λ q. ¬ (HasKey r.block_number r.log_index q)) rs × UniqueKeys rs

-- The reply to a query by block and log index: an error, no id if no row has them, or the ids of some.
abbrev pub IsSelected : List EventIngestionInsert → ℤ → ℤ → Reply (List Text) → Type 0
IsSelected rows b l (failed e) = Unit
IsSelected rows b l (malformed e) = Unit
IsSelected rows b l (body []) = All (λ r. ¬ (HasKey b l r)) rows
IsSelected rows b l (body (id ∷ ids)) = Any (HasKey b l) rows

-- What an insert does to the rows: nothing if it fails, and else it adds the row, also where the answer
-- cannot be read.
abbrev pub IsInserted :
    List EventIngestionInsert
    → EventIngestionInsert
    → List EventIngestionInsert
    → Reply (List Text)
    → Type 0
IsInserted rows row rows' (failed e) = rows' ≡ rows
IsInserted rows row rows' (malformed e) = rows' ≡ row ∷ rows
IsInserted rows row rows' (body ids) = rows' ≡ row ∷ rows

-- The client answers for a table with these rows.
pub record IsTable (table : EventsTable) (rows : table.State → List EventIngestionInsert)
    : Type 0 where
  pub selects :
      (s : table.State) (b l : ℤ) → IsSelected (rows s) b l (table.select (key_query b l) s)
  pub inserts :
      (s : table.State) (row : EventIngestionInsert)
      → IsInserted (rows s) row (rows (table.insert row s).0) (table.insert row s).1

module _ (table : EventsTable) (rows : table.State → List EventIngestionInsert)
    (is_table : IsTable table rows) where
  open table use {State, select, insert}

  ingested-key : (r : EventIngestionInsert) → HasKey r.block_number r.log_index (ingested r)
  unfolding ingested to_event_ingestion_insert
  ingested-key r = (refl, refl)

  insert-UniqueKeys :
      (s : State) (row : EventIngestionInsert) (q : State × Reply (List Text))
      → All (λ r. ¬ (HasKey row.block_number row.log_index r)) (rows s)
      → UniqueKeys (rows s)
      → IsInserted (rows s) row (rows q.0) q.1
      → UniqueKeys (rows (inserted table q).0)
  insert-UniqueKeys s row (s', failed e) n u i = rw i u
  insert-UniqueKeys s row (s', malformed e) n u i = rw i (n, u)
  insert-UniqueKeys s row (s', body ids) n u i = rw i (n, u)

  unless_found-UniqueKeys :
      (s : State) (row : EventIngestionInsert) (reply : Reply (List Text))
      → IsSelected (rows s) row.block_number row.log_index reply
      → UniqueKeys (rows s)
      → UniqueKeys (rows (insert_unless_found table reply row s).0)
  unfolding ingested to_event_ingestion_insert
  unless_found-UniqueKeys s row (failed e) a u = u
  unless_found-UniqueKeys s row (malformed e) a u = u
  unless_found-UniqueKeys s row (body (id ∷ ids)) a u = u
  unless_found-UniqueKeys s row (body []) a u =
      insert-UniqueKeys s (ingested row) (insert (ingested row) s) a u
        (is_table.inserts s (ingested row))

  -- Whether it succeeds or fails, writeIdempotentEvent leaves at most one row for each block and log index.
  pub write_idempotent_event-UniqueKeys :
      (encoding : Encoding) (log : Log) (event : AbiEvent) (s : State)
      → UniqueKeys (rows s)
      → UniqueKeys (rows (write_idempotent_event table encoding log event s).0)
  unfolding write_idempotent_event
  write_idempotent_event-UniqueKeys encoding log event s u = go (parse_event encoding log event)
    where
      go : (r : Result EventIngestionInsert) → UniqueKeys (rows (write_parsed table r s).0)
      go (err e) = u
      go (ok row) =
          unless_found-UniqueKeys s row (select (key_query row.block_number row.log_index) s)
            (is_table.selects s row.block_number row.log_index) u

  -- The row is there after a write without an error.
  present :
      (s : State) (row : EventIngestionInsert) (reply : Reply (List Text))
      → IsSelected (rows s) row.block_number row.log_index reply
      → (insert_unless_found table reply row s).1 ≡ none
      → Any (HasKey row.block_number row.log_index) (rows (insert_unless_found table reply row s).0)
  present s row (failed e) a h = absurd (ground arith)
  present s row (malformed e) a h = absurd (ground arith)
  present s row (body (id ∷ ids)) a h = a
  present s row (body []) a h =
      of_insert (insert (ingested row) s) (is_table.inserts s (ingested row)) h
    where
      of_insert :
          (q : State × Reply (List Text))
          → IsInserted (rows s) (ingested row) (rows q.0) q.1
          → (inserted table q).1 ≡ none
          → Any (HasKey row.block_number row.log_index) (rows (inserted table q).0)
      of_insert (s', failed e) i h = absurd (ground arith)
      of_insert (s', malformed e) i h = absurd (ground arith)
      of_insert (s', body ids) i h = rw i (inl (ingested-key row))

  none_of_any :
      (b l : ℤ) (rs : List EventIngestionInsert)
      → All (λ r. ¬ (HasKey b l r)) rs
      → Any (HasKey b l) rs
      → ⊥
  none_of_any b l [] n a = a
  none_of_any b l (r ∷ rs) n (inl h) = n.0 h
  none_of_any b l (r ∷ rs) n (inr a) = none_of_any b l rs n.1 a

  found_again :
      (s : State) (row : EventIngestionInsert) (reply : Reply (List Text))
      → IsSelected (rows s) row.block_number row.log_index reply
      → Any (HasKey row.block_number row.log_index) (rows s)
      → (insert_unless_found table reply row s).0 ≡ s
  found_again s row (failed e) a h = refl
  found_again s row (malformed e) a h = refl
  found_again s row (body (id ∷ ids)) a h = refl
  found_again s row (body []) a h = absurd (none_of_any _ _ (rows s) a h)

  -- A log that was written without an error is in the table, and writing it again changes nothing.
  pub write_idempotent_event_again :
      (encoding : Encoding) (log : Log) (event : AbiEvent) (s : State)
      → (write_idempotent_event table encoding log event s).1 ≡ none
      → let t = (write_idempotent_event table encoding log event s).0 in
        ((row : EventIngestionInsert) × (parse_event encoding log event ≡ ok row)
          × Any (HasKey row.block_number row.log_index) (rows t))
        × ((write_idempotent_event table encoding log event t).0 ≡ t)
  unfolding write_idempotent_event
  write_idempotent_event_again encoding log event s = go (parse_event encoding log event)
    where
      go :
          (r : Result EventIngestionInsert)
          → (write_parsed table r s).1 ≡ none
          → let t = (write_parsed table r s).0 in
            ((row : EventIngestionInsert) × (r ≡ ok row)
              × Any (HasKey row.block_number row.log_index) (rows t))
            × ((write_parsed table r t).0 ≡ t)
      go (err e) h = absurd (ground arith)
      go (ok row) h =
          let b = row.block_number in
          let l = row.log_index in
          let p = present s row (select (key_query b l) s) (is_table.selects s b l) h in
          let t = (write_parsed table (ok row) s).0 in
          ((row, refl, p), found_again t row (select (key_query b l) t) (is_table.selects t b l) p)
