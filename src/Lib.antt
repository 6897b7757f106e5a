-- ===== src/Lib.antt =====
-- The Go indexer of the vaults (go-indexer/): it reads the vaults' events from the chain, keeps them in
-- Postgres, and turns each into rows of positions, withdraw requests and rate updates.
--
-- The parts and how they interact. The Transformer queries the events that are not processed, in the
-- order of the chain, and hands each, in a transaction of its own, to the TransformHandler. That parses
-- the event's raw data and calls the handler for the event's name. A handler takes its fields out of
-- the data and calls a transformer: the PositionTransformer reads the positions of the accounts through
-- the database client and computes the rows to insert and to close. What the handlers ask for comes back
-- as operations, which the Transformer has the SQL builder turn into statements and runs in the
-- transaction. Before that, a start subscribes to the events and fetches those since the last one in the
-- table: both put logs into the event queue, a heap in the order of the chain. The EventProcessor takes the
-- first event, puts it back until it has its confirmations, and then has the Extractor parse the log and write
-- it to the events table once. The FinalityProcessor checks the ingested events against the chain, block by block,
-- and reports one that is no longer in it; the reorg handler then halts the others, searches the last block
-- that is still in the chain, and has the Transformer take back what later blocks have written. The data
-- check script compares the tables of two databases.
--
-- The files:
--   Prelude         shared types and lemmas: lists, results, int64 and uint64 with their wrap-around, byte
--                   strings, and decimals
--   Database        go-indexer/database: the rows, by struct, with their conversions
--   Query           the calls of the database client, a library, as data; Answers what is documented of its
--                   answers, First that of a query for one row, and Events the events table's columns
--   SqlBuilder      go-indexer/dbutil/sql-builder.go: BuildInsert and BuildUpdate, and in Deletes BuildDelete;
--                   Numbered, Clauses and Deletes hold the description that they are compared with, and
--                   Rows what the builders see of the rows
--   Float           float64, as far as the handlers use it
--   Positions       go-indexer/transformers/position-transformer.go: ComputeTransfer, ComputeWithdraw,
--                   ComputeDeposit and UpdatePosition; Fetch the methods that read the database; Update,
--                   Transfer, Conservation and Numbering the proofs on the former, and Fetch/Latest,
--                   Fetch/Highest, Fetch/Unique and Fetch/Forgotten those on the latter, from what the
--                   database answers to a query (Fetch/Answers)
--   Handlers        go-indexer/event-transform-handler, and the two small transformers of
--                   go-indexer/transformers: Extract the fields of each event, Position the Handle
--                   methods, Controller the parse of the raw data and the switch on the name, and
--                   ParseQuotedBased64Json of go-indexer/dbutil/parse.go; Amounts, Transfers and
--                   Quoted the proofs
--   Transformer     go-indexer/indexer/transformer.go: processBatch; Retry the loop's count of errors, and
--                   Cleanup what handleCleanupFromBlock and the CleanupFromBlock of each transformer do
--   Reorg           go-indexer/indexer/reorg-handler.go and CheckCanonicalBlock of go-indexer/indexer/utils.go: the
--                   search for the last consistent block (Nearest, Search), handleReorg (Handler), and the halt token
--                   of go-indexer/indexer/halt-manager.go (Halt)
--   Finality        go-indexer/indexer/finality-processor.go: the turn on a block tag (Next, Monotone), and Loop the
--                   rounds over both tags (Ascending)
--   Extractor       go-indexer/indexer/extractor.go: parseEvent (Topics) and writeIdempotentEvent (Write)
--   Config          go-indexer/config/config.go: Load, with viper and godotenv as parameters (Lowercase)
--   Queue           go-indexer/event-ingestion-queue/queue.go: the heap of the events (Up: Insert;
--                   First, Down, Rest: Next; Kept: both; Held: what is in it), and Bag the abstract
--                   queue that it implements
--   Processor       go-indexer/indexer/event-processor.go: a round of the main goroutine (Rounds), the loop
--                   (Runs, Drains), and Stop with the goroutines of the WaitGroup (Stop)
--   Ingestion       go-indexer/indexer/load-historical-events.go: the backfill of an event of a contract
--                   (Last, Backfill, Complete) and all of them (Jobs, Queued); Subscriptions is
--                   go-indexer/indexer/subscription-handler.go (Received), StartUp the part of Start in
--                   go-indexer/indexer/indexer.go that runs both, and Chain a chain for the tests
--   Pipeline        the backfill and the event processor behind it, with what Extractor/Stored and
--                   Processor/Stored prove of the table
--   DataCheck       go-indexer/scripts/data-check.go: the compare functions (Columns, Compare), Script the reads of
--                   both databases and main behind them (Success), and Environment what comes before (Run)
--   Logger, Health  go-indexer/logger/logger.go, and go-indexer/health/health.go with the indexer's Stop as
--                   far as it sets the status
--   Indexer         Start and Stop of go-indexer/indexer/indexer.go and main.go, as steps of the goroutines (Exits)
--   Transformer/Loop  the rounds of the Transformer: the query, the scan of its rows, and the batch; Runs what
--                   they may do by a count of errors, which Refined shows that they do
--
-- State is passed explicitly. The Transformer's batch runs on a Store: the committed tables, the
-- transaction, and what begin, exec and commit do, all parameters; the cleanup runs on tables that are
-- lists of rows, since its statements are in the code. The database client, the chain client, and the
-- decoders of base64, JSON and quoted strings are parameters of the definitions that call them, and
-- what is assumed of an answer stands as a hypothesis where it is used. A nil pointer is `none`, an error
-- its message.
--
-- Bounds and fuel. Amounts are unbounded integers, as in math/big. Block numbers and position indices are
-- int64, with the wrap-around written out; what is proved of the computations assumes block numbers and
-- indices below 2 ^ 63 - 2. Float rounds with 1024 halvings, which is enough for every number that does
-- not overflow a float64. The decimals of a number are printed with the number itself as fuel.
-- The search for the last consistent block runs on fuel: from an event of block d, d + 1 rounds are enough,
-- since each round goes to a lower block and the last to none.
-- heap.up runs on fuel: from index j, j + 1 rounds are enough, since each round goes to a lower index;
-- heap.down with n events has n rounds, since each goes to a higher index below n.
-- The loops that run for ever (the processors, the Transformer, a subscription) are functions of the list of
-- what they meet, one round for each, whatever its length; what is proved holds of every such list.
-- A commit that fails is taken to leave the committed tables as they were. Each line of the indexer's Stop is a
-- step that can be taken: Shutdown waits 5 seconds at most, and the closes do not block.
--
-- Not modelled: goroutines, channels and timers except as a sequence of what happened, or, for Stop of the
-- EventProcessor and for the indexer itself, as steps in any order; the mutex and Print of the event queue;
-- the wiring in the New functions and in main.go; what the logger's callers print; the web API in app/, which
-- is TypeScript, and the migrations.
pub mod Prelude
pub mod Database
pub mod Query
pub mod SqlBuilder
pub mod Float
pub mod Positions
pub mod Handlers
pub mod Transformer
pub mod Reorg
pub mod Finality
pub mod Extractor
pub mod Config
pub mod Queue
pub mod Processor
pub mod Ingestion
pub mod Pipeline
pub mod DataCheck
pub mod Logger
pub mod Health
pub mod Indexer
