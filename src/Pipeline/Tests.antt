-- ===== src/Pipeline/Tests.antt =====
-- A chain with two logs, a table that has the first, and the rounds of the event processor behind the backfill.
use vault_indexer.Prelude.{
  eq_text, Text, ◌≡◌, Bool, not, ◌&&◌, leb, leb→le, and-true, none, to_int64, set_string-print_ℤ,
  refl, ◌<◌, ok, err, text, true, [], ◌∷◌, inl, inr, ◌⊎◌, arith, List, false,
}
use vault_indexer.Extractor.{
  Argument, Log, EventIngestionInsert, write_idempotent_event, parse_event, indexed_parameters,
  to_event_ingestion_insert, insert_unless_found, to_int32,
}
use vault_indexer.Query.{body}
use vault_indexer.Queue.{EventLog, insert, up, less_at, at, swap, set, less}
use vault_indexer.Processor.{Processor, required_height}
use vault_indexer.Processor.Drains.{Good, repeated}
use vault_indexer.Ingestion.Queued.{backfilled}
use vault_indexer.Extractor.Tests.{table, encoding, table-IsTable}
use vault_indexer.Extractor.Stored.{Stored}
use vault_indexer.Queue.Kept.{count}
use vault_indexer.Processor.{Parts, Action, turns, start}
use vault_indexer.Processor.Stored.{raised_about}
use vault_indexer.Ingestion.{run_jobs, backfill, get_last_indexed_block}
use vault_indexer.Ingestion.Tests.{
  contract, transfer_abi, log, chain, row, sources, fetched, sources-Filters, fetches, gapless,
  start_before, current,
}
use vault_indexer.Pipeline.{is_of, pipeline_complete, pipeline_finishes}

abbrev parts : Parts
parts = record {
  table = table;
  encoding = encoding;
  required_confirmations = 4;
  show_event = λ e. [];
}

abbrev rounds : List Action
rounds = turns (ok 20) true ∷ turns (err (text "timeout")) true ∷ turns (ok 20) true ∷ []

pipeline_complete_example :
    let loaded = (run_jobs sources 12 (λ job. false) ((contract, transfer_abi) ∷ []) []).0 in
    let r = start parts rounds (record { queue = loaded; state = row ∷ []; running = true }) in
    Stored (log 9) r.1.state
    ⊎ (0 < count (is_of (log 9)) r.1.queue)
    ⊎ (0 < count (is_of (log 9)) (raised_about r.0))
pipeline_complete_example =
    pipeline_complete sources chain sources-Filters 12 contract transfer_abi parts (λ rows. rows)
      table-IsTable (row ∷ []) (inl ((refl, refl), refl), ((λ p. omega arith), tt))
      ((contract, transfer_abi) ∷ []) (λ job. false) [] fetched rounds
      (λ k pos' lt. absurd (omega arith)) (inl refl) refl fetches
      (λ l f a. absurd (gapless l f.0 a)) (log 9)
      (inr (inl refl), (refl, (inl refl, tt)), start_before) current (omega arith) (omega arith)

abbrev no_inputs : List Argument → Bool
no_inputs [] = true
no_inputs (i ∷ is) = false

-- An event without parameters whose confirmations are there at block 20.
abbrev good : EventLog → Bool
good e = no_inputs e.event.inputs && leb (required_height parts e) 20

found_or_inserted :
    (ids : List Text) (r : EventIngestionInsert) (s : List EventIngestionInsert)
    → (insert_unless_found table (body ids) r s).1 ≡ none
found_or_inserted [] r s = refl
found_or_inserted (id ∷ ids) r s = refl

writable :
    (name : Text) (inputs : List Argument) (l : Log) (s : List EventIngestionInsert)
    → no_inputs inputs ≡ true
    → (write_idempotent_event table encoding l (record { name = name; inputs = inputs }) s).1 ≡ none
unfolding write_idempotent_event parse_event indexed_parameters to_event_ingestion_insert
writable name [] l s h =
    rw (set_string-print_ℤ (to_int64 l.block_number), set_string-print_ℤ (to_int32 l.index))
      (found_or_inserted _ _ s)
writable name (i ∷ is) l s h = absurd (ground arith)

goods : Good parts 20 good
goods e g =
    let (i, c) = and-true (no_inputs e.event.inputs) (leb (required_height parts e) 20) g in
    (leb→le _ _ c, (λ s. writable e.event.name e.event.inputs e.data_log s i))

loads : backfilled sources 12 (λ job. false) ((contract, transfer_abi) ∷ []) [] ≡ fetched
unfolding run_jobs backfill get_last_indexed_block eq_text text to_int64 insert up less_at at swap
    set less
loads = refl

fetched_good :
    count
      (λ e. not (good e))
      (backfilled sources 12 (λ job. false) ((contract, transfer_abi) ∷ []) [])
    ≡ 0
unfolding count
fetched_good = rw loads refl

pipeline_finishes_example :
    let loaded = (run_jobs sources 12 (λ job. false) ((contract, transfer_abi) ∷ []) []).0 in
    let t : Processor (List EventIngestionInsert) = record {
      queue = loaded;
      state = row ∷ [];
      running = true;
    } in
    Stored (log 9) (start parts (repeated 2 (turns (ok 20) true)) t).1.state
pipeline_finishes_example =
    pipeline_finishes sources chain sources-Filters 12 contract transfer_abi parts (λ rows. rows)
      table-IsTable (row ∷ []) (inl ((refl, refl), refl), ((λ p. omega arith), tt))
      ((contract, transfer_abi) ∷ []) (λ job. false) [] fetched 20 2 good
      (λ k pos' lt. absurd (omega arith)) (inl refl) refl fetches
      (λ l f a. absurd (gapless l f.0 a)) goods fetched_good (rw loads (omega arith)) (log 9)
      (inr (inl refl), (refl, (inl refl, tt)), start_before) current (omega arith) (omega arith)
