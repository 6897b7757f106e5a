-- ===== src/Queue/Tests.antt =====
-- Events of blocks 5 and 4 that are inserted in the order of their arrival.
use vault_indexer.Prelude.{zero, suc, List, ℕ, ◌≡◌, refl, text, some, [], ◌∷◌, arith}
use vault_indexer.Extractor.{Log}
use vault_indexer.Queue.{
  EventLog, new_event_queue, insert, next, up, down, less_at, at, swap, set, less,
}
use vault_indexer.Queue.Bag.{bag, inserts, takes, clears, operations, Allows, operations-Allows}
use vault_indexer.Queue.Up.{Heap}

abbrev log : ℕ → ℕ → Log
log b i = record {
  address = text "0xva";
  topics = [];
  data_bytes = text "";
  block_number = b;
  tx_hash = text "0xt";
  index = i;
  block_hash = text "0xh";
}

abbrev event : ℕ → ℕ → EventLog
event b i = record {
  block_number = b;
  log_index = i;
  event = record { name = text "Transfer"; inputs = [] };
  data_log = log b i;
  contract_address = text "0xva";
  block_hash = text "0xh";
}

three :
    insert (event 4 9) (insert (event 4 2) (event 5 0 ∷ []))
    ≡ event 4 2 ∷ event 5 0 ∷ event 4 9 ∷ []
unfolding insert up less_at at swap set less
three = refl

next_of_three :
    next (event 4 2 ∷ event 5 0 ∷ event 4 9 ∷ []) ≡ (some (event 4 2), event 4 9 ∷ event 5 0 ∷ [])
unfolding next down less_at at swap set less
next_of_three = refl

abbrev two : List EventLog
two = event 4 2 ∷ event 5 0 ∷ []

two-Heap : Heap two
unfolding less at
two-Heap zero kpos klt = absurd (omega arith)
two-Heap (suc zero) kpos klt = refl
two-Heap (suc (suc k)) kpos klt = absurd (omega arith)

operations-Allows_example :
    Allows
      (takes ∷ inserts (event 5 0) ∷ inserts (event 4 2) ∷ takes ∷ clears ∷ takes ∷ [])
      (bag [])
      (operations
        (takes ∷ inserts (event 5 0) ∷ inserts (event 4 2) ∷ takes ∷ clears ∷ takes ∷ [])
        new_event_queue)
operations-Allows_example =
    operations-Allows
      (takes ∷ inserts (event 5 0) ∷ inserts (event 4 2) ∷ takes ∷ clears ∷ takes ∷ [])
