-- ===== src/Reorg/Tests.antt =====
-- A search over two blocks, of which the higher was reorganised, and orders of the halt manager's calls.
use vault_indexer.Prelude.{eq_text}
use vault_indexer.Reorg.{get_nearest_ingested_event}
use vault_indexer.Query.Events.{EventReplies, event_integer}
use vault_indexer.Reorg.Nearest.{Outcome, get_nearest_ingested_event_correct}
use vault_indexer.Transformer.Cleanup.{Tables, Database}
use vault_indexer.Reorg.Handler.{
  Indexer, Recovered, stop_indexer, spent, handle_reorg, handle_reorg_correct,
  handle_reorg_after_look,
}
use vault_indexer.Prelude.{
  false, ℕ, ◌≡◌, refl, pos, ℤ, true, false, none, some, List, [], ◌∷◌, arith, text, inl, inr, ◌⊎◌,
  set_string, set_string-print_ℤ, Option, dec_int64, ◌≤◌, ltb_ℤ, if◌then◌else◌, Bool-cases,
}
use vault_indexer.Database.Events.{PublicEventsSelect, RawData}
use vault_indexer.Query.{body, Reply, Filter}
use vault_indexer.Reorg.{Sources, found, find_last_consistent_block, nearest_query}
use vault_indexer.Reorg.Search.{IsNearest, EndsAt, find_last_consistent_block_correct}
use vault_indexer.Reorg.Halt.{
  halts, waits, looks, calls, new_halt_manager, receipts, halt-reaches_one,
}

abbrev event : PublicEventsSelect
event = record {
  block_hash = text "0xh";
  block_number = pos 3;
  contract_address = text "0xva";
  created_at = none;
  event_name = text "Transfer";
  id = text "e1";
  is_processed = none;
  last_updated_at = none;
  log_index = pos 0;
  raw_data = RawData.string [];
  transaction_hash = text "0xt";
}

abbrev table : List PublicEventsSelect
table = event ∷ []

-- The client on that table: it reads the bound of the query's filter back.
abbrev up_to : Option ℤ → List PublicEventsSelect
up_to none = []
up_to (some z) = if ltb_ℤ z (pos 3) then [] else table

abbrev answer : List Filter → Reply (List PublicEventsSelect)
answer [] = body table
answer (Filter.lte column value ∷ filters) = body (up_to (set_string value))
answer (Filter.eq column value ∷ filters) = body []
answer (Filter.gt column value ∷ filters) = body []

-- The chain has the event's block at its height.
abbrev sources : Sources
sources = record { header_by_hash = λ hash. found (pos 3); execute = λ q. answer q.filters }

nearest : (n : ℤ) → IsNearest table n (sources.execute (nearest_query n))
nearest n = rw (set_string-print_ℤ n) (by_order (Bool-cases (ltb_ℤ n (pos 3))))
  where
    by_order :
        (ltb_ℤ n (pos 3) ≡ true) ⊎ (ltb_ℤ n (pos 3) ≡ false)
        → IsNearest table n (body (if ltb_ℤ n (pos 3) then [] else table))
    by_order (inl e) = rw e (ground arith, tt)
    by_order (inr e) = rw e (inl refl, ground arith, ((λ h. omega arith), tt))

find_last_consistent_block_correct_example :
    EndsAt sources table (dec_int64 (pos 9)) (find_last_consistent_block sources 10 (pos 9))
find_last_consistent_block_correct_example =
    find_last_consistent_block_correct sources table ((3, refl, omega arith), tt) nearest 9
      (omega arith)

halt-reaches_one_example :
    receipts (calls (looks ∷ halts ∷ looks ∷ looks ∷ waits ∷ []) new_halt_manager) ≤ 1
halt-reaches_one_example = halt-reaches_one (looks ∷ halts ∷ looks ∷ looks ∷ waits ∷ []) refl

abbrev answering : Database
answering = record { begin = none; exec = λ s. none; commit = none }

abbrev tables : Tables
tables = record { withdraw_requests = []; rate_updates = []; positions = []; events = table }

abbrev indexer : Indexer
indexer = record {
  Event = ℕ;
  halt_manager = new_halt_manager;
  event_queue = 1 ∷ [];
  tables = tables;
  transformer_stopped = false;
  stopped = false;
}

handle_reorg_correct_example :
    (j : Indexer) × (handle_reorg sources answering 10 (pos 9) (looks ∷ []) indexer ≡ some j)
    × (j.stopped ≡ true)
    × Recovered sources table (dec_int64 (pos 9)) tables j
handle_reorg_correct_example =
    handle_reorg_correct sources answering 9 (looks ∷ []) indexer (omega arith)
      ((3, refl, omega arith), tt) nearest

handle_reorg_after_look_example :
    handle_reorg sources answering 10 (pos 9) (looks ∷ []) indexer
    ≡ some (stop_indexer (record indexer { halt_manager = spent }))
handle_reorg_after_look_example =
    handle_reorg_after_look sources answering 10 (pos 9) [] indexer refl refl

-- The database's answer up to block 9.
abbrev with_event : Sources
with_event = record { header_by_hash = λ hash. found (pos 3); execute = λ q. body table }

answer_nine : EventReplies (nearest_query (pos 9)) table (body table)
unfolding event_integer eq_text text
answer_nine = (
  table,
  record {
    selected =
        ((inl refl, ((pos 3, pos 9, refl, set_string-print_ℤ (pos 9), omega arith), tt)), tt);
    ordered = (tt, tt);
    within = tt;
    complete = ((λ s. inl (inl refl)), tt);
  },
  (((λ h. refl), (λ h. refl), (λ h. refl)), tt),
)

get_nearest_ingested_event_correct_example :
    Outcome table (pos 9) (body table) (get_nearest_ingested_event with_event (pos 9))
get_nearest_ingested_event_correct_example =
    get_nearest_ingested_event_correct (pos 9) with_event table answer_nine
