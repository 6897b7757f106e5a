-- ===== src/Ingestion.antt =====
-- How events get into the queue: the backfill of go-indexer/indexer/load-historical-events.go, and the
-- subscriptions of go-indexer/indexer/subscription-handler.go.
pub mod Last
pub mod Backfill
pub mod Complete
pub mod Queued
pub mod Jobs
pub mod Received
pub mod StartUp
pub mod Subscriptions
mod Chain
pub mod Tests
use vault_indexer.Prelude.{
  wrap, Text, ℕ, ◌+◌, ℤ, to_int64, Bool, true, false, Option, none, some, List, [], ◌∷◌, ◌++◌, map,
  Result, ok, err, ◌>>=◌, text, eq_text, if◌then◌else◌,
}
use vault_indexer.Config.{ContractConfig}
use vault_indexer.Database.Events.{PublicEventsSelect}
use vault_indexer.Extractor.{AbiEvent, Log}
use vault_indexer.Query.{Query, Filter, Reply, failed, malformed, body}
use vault_indexer.Queue.{EventLog, insert}

-- `ethereum.FilterQuery`; a subscription's has no blocks.
pub record FilterQuery : Type 0 where
  pub addresses : List Text
  pub topics : List (List Text)
  pub from_block : Option ℤ
  pub to_block : Option ℤ

-- What ingestion calls: the files, go-ethereum's ABI decoder, addresses and event ids, the chain client's
-- FilterLogs, and the database client on the events table.
pub record Sources : Type 0 where
  pub read_file : Text → Result Text
  pub parse_abi : Text → Result (List (Text × AbiEvent))
  pub hex_to_address : Text → Text
  pub event_id : AbiEvent → Text
  pub filter_logs : FilterQuery → Result (List Log)
  pub execute : Query → Reply (List PublicEventsSelect)

-- The event that a map without the key gives: `abi.Event{}`.
abbrev no_event : AbiEvent
no_event = record { name = []; inputs = [] }

-- `parsedABI.Events[eventName]`
abbrev pub event_named : Text → List (Text × AbiEvent) → AbiEvent
event_named name [] = no_event
event_named name (e ∷ es) = if eq_text e.0 name then e.1 else event_named name es

-- loadAbi, of a clean relative path, as those of the configuration are.
unfoldable pub load_abi : Sources → ContractConfig → Result (List (Text × AbiEvent))
load_abi sources contract = do
  content ←
      wrap (text "failed to read ABI file: ")
        (sources.read_file (text "abis/" ++ contract.abi_path))
  wrap (text "failed to parse ABI: ") (sources.parse_abi content)

abbrev pub last_query : Text → Text → Query
last_query contract_address event_name = record {
  table = text "events";
  columns = text "block_number";
  filters =
      Filter.eq (text "contract_address") contract_address
      ∷ Filter.eq (text "event_name") event_name
      ∷ [];
  order = some (text "block_number", false);
  limit = some 1;
  single = false;
}

abbrev pub last_indexed : Reply (List PublicEventsSelect) → Result (Option ℤ)
last_indexed (failed e) = err e
last_indexed (malformed e) = err e
last_indexed (body []) = ok none
last_indexed (body (e ∷ es)) = ok (some e.block_number)

unfoldable pub get_last_indexed_block : Sources → Text → AbiEvent → Result (Option ℤ)
get_last_indexed_block sources contract_address event =
    last_indexed (sources.execute (last_query contract_address event.name))

-- The last indexed block, or the contract's first one.
abbrev pub first_block : ContractConfig → Option ℤ → ℤ
first_block contract none = to_int64 contract.start_block
first_block contract (some n) = n

abbrev pub event_query : Sources → ContractConfig → AbiEvent → Option ℤ → Option ℤ → FilterQuery
event_query sources contract event from_block to_block = record {
  addresses = sources.hex_to_address contract.address ∷ [];
  topics = (sources.event_id event ∷ []) ∷ [];
  from_block = from_block;
  to_block = to_block;
}

abbrev pub event_log : Sources → ContractConfig → AbiEvent → Log → EventLog
event_log sources contract event log = record {
  block_number = log.block_number;
  log_index = log.index;
  event = event;
  data_log = log;
  contract_address = sources.hex_to_address contract.address;
  block_hash = log.block_hash;
}

-- `fmt.Errorf("…: %w, event: %s, contract: %s", …)`
abbrev pub told {ℓ} : {A : Type ℓ} → Text → ContractConfig → AbiEvent → Result A → Result A
told message contract event (ok a) = ok a
told message contract event (err e) =
    err (message ++ e ++ text ", event: " ++ event.name ++ text ", contract: " ++ contract.address)

-- A goroutine of the backfill, if the context is not cancelled: the events that it inserts, or the error
-- that it sends.
unfoldable pub backfill : Sources → ℕ → ContractConfig → AbiEvent → Result (List EventLog)
backfill sources current_block contract event = do
  last ←
      told (text "failed to get last indexed block: ") contract event
        (get_last_indexed_block sources contract.address event)
  logs ← told (text "failed to get historical events: ") contract event (
      sources.filter_logs (
        event_query sources contract event (some (first_block contract last))
          (some (to_int64 current_block))))
  ok (map (event_log sources contract event) logs)

abbrev pub insert_all : List EventLog → List EventLog → List EventLog
insert_all [] queue = queue
insert_all (e ∷ es) queue = insert_all es (insert e queue)

-- A goroutine's effect on the queue, and the error.
abbrev pub run_backfill : Result (List EventLog) → List EventLog → List EventLog × Option Text
run_backfill (ok es) queue = (insert_all es queue, none)
run_backfill (err e) queue = (queue, some e)

-- The goroutines that loadHistoricalEvents starts, how far `wg` is above them when it returns, and the
-- error that it returns.
pub record Started : Type 0 where
  pub jobs : List (ContractConfig × AbiEvent)
  pub unmatched : ℕ
  pub error : Option Text

abbrev pub add_job : ContractConfig → AbiEvent → Started → Started
add_job contract event s = record {
  jobs = (contract, event) ∷ s.jobs;
  unmatched = s.unmatched;
  error = s.error;
}

abbrev pub abi_error : ContractConfig → Text → Text
abi_error contract e = text "failed to load ABI for contract " ++ contract.address ++ text ": " ++ e

-- `wg.Add(1)` comes before the ABI is loaded.
abbrev pub job_for : ContractConfig → Text → Result (List (Text × AbiEvent)) → Started → Started
job_for contract event_name (ok abi) rest = add_job contract (event_named event_name abi) rest
job_for contract event_name (err e) rest = record {
  jobs = [];
  unmatched = 1;
  error = some (abi_error contract e);
}

abbrev pub nothing_started : Started
nothing_started = record { jobs = []; unmatched = 0; error = none }

-- The loops over the contracts and over the events of each.
unfoldable pub event_loop : Sources → ContractConfig → List Text → Started → Started
event_loop sources contract [] rest = rest
event_loop sources contract (name ∷ names) rest =
    job_for contract name (load_abi sources contract) (event_loop sources contract names rest)

unfoldable pub load_historical_events : Sources → List ContractConfig → Started
load_historical_events sources [] = nothing_started
load_historical_events sources (contract ∷ contracts) =
    event_loop sources contract contract.events (load_historical_events sources contracts)

abbrev pub add_error : Option Text → List Text → List Text
add_error none es = es
add_error (some e) es = e ∷ es

-- What the goroutines do to the queue, one after the other: the order of their inserts makes no difference
-- to what the queue holds. `cancelled` tells which of them find the context cancelled.
unfoldable pub run_jobs :
    Sources
    → ℕ
    → (ContractConfig × AbiEvent → Bool)
    → List (ContractConfig × AbiEvent)
    → List EventLog
    → List EventLog × List Text
run_jobs sources current_block cancelled [] queue = (queue, [])
run_jobs sources current_block cancelled (job ∷ jobs) queue =
    let ran = run_backfill (backfill sources current_block job.0 job.1) queue in
    let skipped = run_jobs sources current_block cancelled jobs queue in
    let rest = run_jobs sources current_block cancelled jobs ran.0 in
    if cancelled job then skipped else (rest.0, add_error ran.1 rest.1)
