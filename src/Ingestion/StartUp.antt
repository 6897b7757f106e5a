-- ===== src/Ingestion/StartUp.antt =====
-- How the indexer starts to ingest (`Start` of go-indexer/indexer/indexer.go): the subscriptions, then the
-- backfill up to the block that was current before them.
use vault_indexer.Prelude.{
  Text, ℕ, zero, suc, pos, to_int64, ◌≤ℤ◌, ◌≡◌, Bool, Option, none, some, List, [], ◌++◌, Contains,
  Result, ok, err, text, ◌⊎◌,
}
use vault_indexer.Config.{ContractConfig}
use vault_indexer.Extractor.{AbiEvent, Log}
use vault_indexer.Queue.{EventLog}
use vault_indexer.Queue.Held.{Held}
use vault_indexer.Ingestion.{
  Sources, Started, load_abi, load_historical_events, insert_all, run_jobs,
}
use vault_indexer.Ingestion.Backfill.{Filters}
use vault_indexer.Ingestion.Jobs.{AllServed}
use vault_indexer.Ingestion.Subscriptions.{setup_subscriptions}

-- How the start ends: with an error, at a wait that never returns, or with a queue and the errors that the
-- goroutines of the backfill sent.
pub data StartUp : Type 0 where
  fails : Text → StartUp
  hangs : StartUp
  loaded : List EventLog → List Text → StartUp

-- `wg.Wait()`, which returns only if the goroutines match the count, and the test of the error behind it.
abbrev pub after_wait : ℕ → Option Text → List EventLog × List Text → StartUp
after_wait (suc n) error result = hangs
after_wait zero (some e) result = fails (text "failed to backfill events: " ++ e)
after_wait zero none result = loaded result.0 result.1

abbrev pub waited : Started → List EventLog × List Text → StartUp
waited s result = after_wait s.unmatched s.error result

module _ (before later : Sources) (contracts : List ContractConfig)
    (cancelled : ContractConfig × AbiEvent → Bool) (received : List EventLog) where
  -- The backfill, behind the subscriptions, which have inserted `received`.
  abbrev backfills : ℕ → List EventLog → List EventLog × List Text
  backfills current_block queue =
      run_jobs later current_block cancelled (load_historical_events later contracts).jobs
        (insert_all received queue)

  abbrev subscribed : Option Text → ℕ → List EventLog → StartUp
  subscribed (some e) current_block queue = fails (text "failed to setup subscriptions: " ++ e)
  subscribed none current_block queue =
      waited (load_historical_events later contracts) (backfills current_block queue)

  abbrev with_block : Result ℕ → List EventLog → StartUp
  with_block (err e) queue = fails (text "failed to get current block height: " ++ e)
  with_block (ok current_block) queue =
      subscribed (setup_subscriptions before contracts).error current_block queue

  -- From the current block to the wait for the backfill. The files may differ when they are read again.
  unfoldable pub start_up : Result ℕ → List EventLog → StartUp
  start_up current_block queue = with_block current_block queue

  module _ (chain : List Log) (filters : Filters later chain) (current_block : ℕ) where
    -- What is in the queue was received, or is in a block up to the current one.
    abbrev Bounded : List EventLog → Type 0
    Bounded queue =
        (x : EventLog)
        → Held queue x
        → Contains received x ⊎ (pos x.block_number ≤ℤ to_int64 current_block)

    abbrev pub Ends : StartUp → Type 0
    Ends (fails e) =
        (k : Text) × ((setup_subscriptions before contracts).error ≡ some k)
        × (e ≡ text "failed to setup subscriptions: " ++ k)
    Ends hangs =
        ((setup_subscriptions before contracts).error ≡ none)
        × (c : ContractConfig) × Contains contracts c
        × (e : Text) × (load_abi later c ≡ err e)
    Ends (loaded queue errors) =
        ((setup_subscriptions before contracts).error ≡ none)
        × (jobs : List (ContractConfig × AbiEvent)) × AllServed later jobs contracts
        × (queue ≡ (run_jobs later current_block cancelled jobs (insert_all received [])).0)
        × Bounded queue
