-- ===== src/Pipeline.antt =====
-- From the chain to the events table: the backfill of go-indexer/indexer/load-historical-events.go, and the event
-- processor of go-indexer/indexer/event-processor.go behind it.
mod Tests
use vault_indexer.Prelude.{
  not, refl, length, ◌≤◌, Text, ℕ, ℤ, pos, zero, suc, to_int64, ◌+◌, ◌<◌, ◌^◌, ◌==◌, ◌&&◌, ◌≤ℤ◌,
  ◌≡◌, sym, subst, ap, ◌∙◌, Bool, true, false, Option, some, List, [], ◌∷◌, Any, Any-map, Contains,
  Result, ok, err, Bool-cases, inl, inr, ◌⊎◌, arith, and-true, refl,
}
use vault_indexer.Config.{ContractConfig}
use vault_indexer.Extractor.{AbiEvent, Log, EventIngestionInsert, to_int32}
use vault_indexer.Extractor.Write.{HasKey, IsTable}
use vault_indexer.Extractor.Stored.{Stored}
use vault_indexer.Queue.{EventLog, at, insert}
use vault_indexer.Queue.Up.{Heap}
use vault_indexer.Queue.Held.{Held, some-injective}
use vault_indexer.Queue.Kept.{count, tally, insert_correct}
use vault_indexer.Ingestion.{
  Sources, backfill, event_log, insert_all, run_jobs, run_backfill, last_query,
}
use vault_indexer.Ingestion.Backfill.{Filters, IsLast, OfPair}
use vault_indexer.Ingestion.Queued.{backfilled, own, jobs_skipped, jobs_ran}
use vault_indexer.Ingestion.Complete.{Ingested, Followed, NoGap, load_complete}
use vault_indexer.Processor.{Parts, Processor, Action, Outcome, start}
use vault_indexer.Processor.Runs.{arrivals}
use vault_indexer.Processor.{turns}
use vault_indexer.Processor.Drains.{Good, repeated, start_drains}
use vault_indexer.Processor.Stored.{written, all_counted}
use vault_indexer.Processor.Stored.{raised_about, start-Stored, start_ingests}

insert_all-Heap : (es queue : List EventLog) → Heap queue → Heap (insert_all es queue)
insert_all-Heap [] queue h = h
insert_all-Heap (e ∷ es) queue h = insert_all-Heap es (insert e queue) (insert_correct e queue h).0

run_backfill-Heap :
    (r : Result (List EventLog)) (queue : List EventLog)
    → Heap queue
    → Heap (run_backfill r queue).0
run_backfill-Heap (ok es) queue h = insert_all-Heap es queue h
run_backfill-Heap (err e) queue h = h

module _ (sources : Sources) (current_block : ℕ)
    (cancelled : ContractConfig × AbiEvent → Bool) where
  -- The backfill leaves a heap.
  backfilled-Heap :
      (jobs : List (ContractConfig × AbiEvent)) (queue : List EventLog)
      → Heap queue
      → Heap (backfilled sources current_block cancelled jobs queue)
  unfolding run_jobs
  backfilled-Heap [] queue h = h
  backfilled-Heap (job ∷ jobs) queue h = elim (Bool-cases (cancelled job)) [
    | inl k ↦
        subst Heap (sym (jobs_skipped sources current_block cancelled job jobs queue k))
          (backfilled-Heap jobs queue h)
    | inr k ↦
        let mine = own sources current_block cancelled job jobs queue in
        subst Heap (sym (jobs_ran sources current_block cancelled job jobs queue k)) (
          backfilled-Heap jobs mine.0
            (run_backfill-Heap (backfill sources current_block job.0 job.1) queue h))
  ]

-- The event is of a log with this block and index.
abbrev pub is_of : Log → EventLog → Bool
is_of log e = e.data_log.block_number == log.block_number && e.data_log.index == log.index

Held-count :
    (p : EventLog → Bool) (k : ℕ) (es : List EventLog) (x : EventLog)
    → at k es ≡ some x
    → p x ≡ true
    → 0 < count p es
unfolding at count
Held-count p k [] x h t = absurd (ground arith)
Held-count p zero (e ∷ es) x h t =
    let first : tally (p e) ≡ 1 = ap (λ y. tally (p y)) (some-injective x e x h) ∙ ap tally t in
    omega (arith, first)
Held-count p (suc k) (e ∷ es) x h t = let r = Held-count p k es x h t in omega (arith, r)

is_of_own :
    (sources : Sources) (contract : ContractConfig) (event : AbiEvent) (log : Log)
    → is_of log (event_log sources contract event log) ≡ true
is_of_own sources contract event log = ground arith

small-key :
    (log : Log) (b i : ℤ)
    → log.block_number < 2 ^ 63
    → log.index < 2 ^ 31
    → (b ≡ pos log.block_number) × (i ≡ pos log.index)
    → (b ≡ to_int64 log.block_number) × (i ≡ to_int32 log.index)
unfolding to_int64 to_int32
small-key log b i n m (p, q) =
    let block : pos log.block_number ≡ to_int64 log.block_number = ground arith in
    let index : pos log.index ≡ to_int32 log.index = ground arith in (p ∙ block, q ∙ index)

of_key :
    (log : Log) (e : EventLog) (rows : List EventIngestionInsert)
    → is_of log e ≡ true
    → Stored e.data_log rows
    → Stored log rows
of_key log e rows t a =
    let block : e.data_log.block_number ≡ log.block_number = ground arith in
    let index : e.data_log.index ≡ log.index = ground arith in
    Any-map (λ r k. (k.0 ∙ ap to_int64 block, k.1 ∙ ap to_int32 index)) rows a

module _ (sources : Sources) (chain : List Log) (filters : Filters sources chain)
    (current_block : ℕ) (contract : ContractConfig) (event : AbiEvent) (parts : Parts)
    (rows : parts.table.State → List EventIngestionInsert) (is_table : IsTable parts.table rows)
    (s : parts.table.State)
    (is_last : IsLast
      (rows s)
      contract.address
      event.name
      (sources.execute (last_query contract.address event.name))) where
  -- Behind a table that has every log of a contract and an event below the last block that it has of them, and
  -- a backfill of theirs that runs and succeeds, the event processor loses no log of the chain from the
  -- contract's first block up to the current block, whatever it meets: the table has a row of the log's block and
  -- index, or the queue an event of it, or an error about one was raised, which a channel without room drops.
  pub pipeline_complete :
      (jobs : List (ContractConfig × AbiEvent)) (cancelled : ContractConfig × AbiEvent → Bool)
      (queue es : List EventLog) (actions : List Action)
      → Heap queue
      → Contains jobs (contract, event)
      → cancelled (contract, event) ≡ false
      → backfill sources current_block contract event ≡ ok es
      → NoGap sources chain filters current_block (rows s) contract event is_last
      → (log : Log)
      → Followed sources chain filters current_block (rows s) contract event is_last log
      → pos log.block_number ≤ℤ to_int64 current_block
      → log.block_number < 2 ^ 63
      → log.index < 2 ^ 31
      → let loaded = (run_jobs sources current_block cancelled jobs queue).0 in
        let r = start parts actions (record { queue = loaded; state = s; running = true }) in
        Stored log (rows r.1.state)
        ⊎ (0 < count (is_of log) r.1.queue)
        ⊎ (0 < count (is_of log) (raised_about r.0))
  pipeline_complete jobs cancelled queue es actions h m c b gapless log f u n i =
      let loaded = (run_jobs sources current_block cancelled jobs queue).0 in
      let t : Processor parts.table.State = record { queue = loaded; state = s; running = true } in
      let heap = backfilled-Heap sources current_block cancelled jobs queue h in
      elim (load_complete sources chain filters current_block (rows s) contract event is_last jobs
        cancelled queue es m c b gapless log f u) [
          | inl a ↦ inl (
              (start-Stored parts rows is_table actions t heap).0 (to_int64 log.block_number)
                (to_int32 log.index)
                (Any-map (λ q k. small-key log q.block_number q.log_index n i (k.1, k.2)) (rows s)
                  a))
          | inr k ↦
              let held =
                Held-count (is_of log) k.0 loaded (event_log sources contract event log) k.1
                  (is_of_own sources contract event log) in
              elim (start_ingests parts rows is_table (is_of log) actions t heap
                (omega (arith, held))) [ inl w ↦ inl (of_key log w.0 _ w.1 w.2) | inr o ↦ inr o ]
        ]

  -- If a table has every log of a contract and an event below the last block that it has of them, a backfill of
  -- theirs runs and succeeds, and every event of the queue behind the backfill has its confirmations at the
  -- chain's head and can be written, then as many rounds of the event processor as the queue has events bring
  -- every log of the chain from the contract's first block up to the current block into the table.
  pub pipeline_finishes :
      (jobs : List (ContractConfig × AbiEvent)) (cancelled : ContractConfig × AbiEvent → Bool)
      (queue es : List EventLog) (n k : ℕ) (good : EventLog → Bool)
      → Heap queue
      → Contains jobs (contract, event)
      → cancelled (contract, event) ≡ false
      → backfill sources current_block contract event ≡ ok es
      → NoGap sources chain filters current_block (rows s) contract event is_last
      → Good parts n good
      → count (λ e. not (good e)) (backfilled sources current_block cancelled jobs queue) ≡ 0
      → length (backfilled sources current_block cancelled jobs queue) ≤ k
      → (log : Log)
      → Followed sources chain filters current_block (rows s) contract event is_last log
      → pos log.block_number ≤ℤ to_int64 current_block
      → log.block_number < 2 ^ 63
      → log.index < 2 ^ 31
      → let loaded = (run_jobs sources current_block cancelled jobs queue).0 in
        let t : Processor parts.table.State = record {
          queue = loaded;
          state = s;
          running = true;
        } in
        Stored log (rows (start parts (repeated k (turns (ok n) true)) t).1.state)
  pipeline_finishes jobs cancelled queue es n k good h m c b gapless goods none_bad enough log f u
        nb ni =
      let loaded = (run_jobs sources current_block cancelled jobs queue).0 in
      let t : Processor parts.table.State = record { queue = loaded; state = s; running = true } in
      let heap = backfilled-Heap sources current_block cancelled jobs queue h in
      let actions = repeated k (turns (ok n) true) in
      let (grows, stored) = start-Stored parts rows is_table actions t heap in
      let r = start parts actions t in
      elim (load_complete sources chain filters current_block (rows s) contract event is_last jobs
        cancelled queue es m c b gapless log f u) [
          | inl a ↦ grows (to_int64 log.block_number) (to_int32 log.index) (
              Any-map (λ q k. small-key log q.block_number q.log_index nb ni (k.1, k.2)) (rows s) a)
          | inr held ↦
              let queued =
                Held-count (is_of log) held.0 loaded (event_log sources contract event log) held.1
                  (is_of_own sources contract event log) in
              let all =
                (start_drains parts n good k t goods heap refl none_bad enough).1 (is_of log) in
              let w =
                all_counted parts rows is_table (is_of log)
                  (λ e. Stored e.data_log (rows r.1.state)) (written r.0) stored
                  (omega (arith, queued, all)) in
              of_key log w.0 _ w.1 w.2
        ]
