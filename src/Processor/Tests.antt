-- ===== src/Processor/Tests.antt =====
-- A run of the processor on two events: one is put back, then both are written; and an error that stops it.
use vault_indexer.Prelude.{
  ℕ, zero, suc, ◌+◌, ◌<◌, ◌≡◌, refl, text, Bool, true, false, List, [], ◌∷◌, ok, err, arith,
}
use vault_indexer.Extractor.{
  EventsTable, Encoding, Log, write_idempotent_event, parse_event, indexed_parameters,
}
use vault_indexer.Query.{body}
use vault_indexer.Queue.{EventLog, insert, next, up, down, less_at, at, swap, set, less}
use vault_indexer.Queue.Up.{Heap}
use vault_indexer.Queue.Kept.{count}
use vault_indexer.Processor.{
  Parts, Processor, polls, defers, writes, reports, Action, arrives, turns, round, start,
}
use vault_indexer.Processor.Rounds.{Does, round_correct}
use vault_indexer.Processor.Runs.{handled, InChainOrder, start_keeps, start-InChainOrder}
use vault_indexer.Processor.Stop.{
  Threads, waiting, sends_error, returns, receives_error, here, later, wait_group,
  stop-never_returns,
}

-- A table that finds no row and counts the inserted ones.
abbrev table : EventsTable
table = record {
  State = ℕ;
  select = λ q s. body [];
  insert = λ row s. (s + 1, body (text "e1" ∷ []));
}

abbrev encoding : Encoding
encoding = record {
  unpack_into_map = λ inputs s d. ok d;
  marshal = λ d. ok (text "{}");
  address_hex = λ a. a;
  hash_hex = λ h. h;
}

abbrev parts : Parts
parts = record {
  table = table;
  encoding = encoding;
  required_confirmations = 4;
  show_event = λ e. text "event";
}

abbrev log : ℕ → Log
log b = record {
  address = text "0xva";
  topics = [];
  data_bytes = text "";
  block_number = b;
  tx_hash = text "0xt";
  index = 0;
  block_hash = text "0xh";
}

abbrev event : ℕ → EventLog
event b = record {
  block_number = b;
  log_index = 0;
  event = record { name = text "Transfer"; inputs = [] };
  data_log = log b;
  contract_address = text "0xva";
  block_hash = text "0xh";
}

abbrev two : List EventLog
two = event 4 ∷ event 5 ∷ []

two-Heap : Heap two
unfolding less at
two-Heap zero kpos klt = absurd (omega arith)
two-Heap (suc zero) kpos klt = refl
two-Heap (suc (suc k)) kpos klt = absurd (omega arith)

abbrev begun : Processor ℕ
begun = record { queue = two; state = 0; running = true }

abbrev rounds : List Action
rounds =
    turns (ok 7) true
    ∷ turns (ok 8) true
    ∷ turns (err (text "timeout")) true
    ∷ turns (ok 9) true
    ∷ []

rounds_result : start parts rounds begun ≡ (
  defers (event 4)
      ∷ writes (event 4)
      ∷ reports (event 5) (text "failed to get current block number: timeout")
      ∷ polls
      ∷ [],
  record { queue = []; state = 1; running = true },
)
unfolding start round next insert up down less_at at swap set less write_idempotent_event
    parse_event indexed_parameters text
rounds_result = refl

round_correct_example :
    let r = round parts (ok 8) true two 0 in Does parts (ok 8) true two 0 r.0 r.1 r.2 × Heap r.1
round_correct_example = round_correct parts (ok 8) true two 0 two-Heap

start_keeps_example :
    let r = start parts (arrives (event 3) ∷ rounds) begun in
    ((p : EventLog → Bool)
      → count p (handled r.0) + count p r.1.queue ≡ count p (event 3 ∷ []) + count p two)
    × Heap r.1.queue
start_keeps_example = start_keeps parts (arrives (event 3) ∷ rounds) begun two-Heap

start-InChainOrder_example : InChainOrder (handled (start parts rounds begun).0)
start-InChainOrder_example = start-InChainOrder parts rounds begun two-Heap refl

abbrev after_error : Threads
after_error = record { main_running = true; listener = waiting; errors = 0; cancelled = true }

stop-never_returns_example :
    (waiting ≡ waiting)
    × (true ≡ true)
    × (0 < wait_group (record after_error { main_running = false }))
stop-never_returns_example =
    stop-never_returns {s = after_error} {t = record after_error { main_running = false }}
      (later (later here (sends_error refl (omega arith))) (receives_error 0 refl refl)) refl
      (later here (returns refl))
