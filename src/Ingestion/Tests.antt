-- ===== src/Ingestion/Tests.antt =====
-- A contract with two logs on the chain, of which the table has the first.
use vault_indexer.Prelude.{contains}
use vault_indexer.Query.Events.{EventReplies, event_text}
use vault_indexer.Ingestion.{last_query}
use vault_indexer.Ingestion.Last.{Outcome, get_last_indexed_block_correct}
use vault_indexer.Prelude.{
  ℕ, pos, to_int64, ◌≤ℤ◌, ◌<ℤ◌, ◌≡◌, refl, ap, none, List, [], ◌∷◌, Any, Contains, ok, inl, inr,
  arith, text, eq_text,
}
use vault_indexer.Config.{ContractConfig}
use vault_indexer.Database.Events.{PublicEventsSelect, RawData}
use vault_indexer.Extractor.{AbiEvent, Log, EventIngestionInsert}
use vault_indexer.Query.{body}
use vault_indexer.Queue.{EventLog}
use vault_indexer.Ingestion.{Sources, backfill, event_log, get_last_indexed_block}
use vault_indexer.Ingestion.Backfill.{Filters, OfPair}
use vault_indexer.Ingestion.Complete.{backfill_skips}
use vault_indexer.Ingestion.Chain.{filter_chain, filter_chain-Filters}

abbrev pub transfer_abi : AbiEvent
transfer_abi = record { name = text "Transfer"; inputs = [] }

abbrev pub contract : ContractConfig
contract = record {
  name = text "vault";
  address = text "0xva";
  start_block = 5;
  end_block = 0;
  abi_path = text "vault.abi.json";
  events = text "Transfer" ∷ [];
}

abbrev pub log : ℕ → Log
log b = record {
  address = text "0xva";
  topics = text "id" ∷ [];
  data_bytes = text "";
  block_number = b;
  tx_hash = text "0xt";
  index = 0;
  block_hash = text "0xh";
}

abbrev pub chain : List Log
chain = log 7 ∷ log 9 ∷ []

abbrev selected : PublicEventsSelect
selected = record {
  block_hash = text "";
  block_number = pos 7;
  contract_address = text "";
  created_at = none;
  event_name = text "";
  id = text "";
  is_processed = none;
  last_updated_at = none;
  log_index = pos 0;
  raw_data = RawData.other (text "<nil>");
  transaction_hash = text "";
}

abbrev pub row : EventIngestionInsert
row = record {
  contract_address = text "0xva";
  event_name = text "Transfer";
  block_number = pos 7;
  transaction_hash = text "0xt";
  log_index = pos 0;
  raw_data = RawData.other (text "<nil>");
  block_hash = text "0xh";
}

abbrev pub sources : Sources
sources = record {
  read_file = λ path. ok (text "[]");
  parse_abi = λ content. ok ((text "Transfer", transfer_abi) ∷ []);
  hex_to_address = λ a. a;
  event_id = λ e. text "id";
  filter_logs = filter_chain chain;
  execute = λ q. body (selected ∷ []);
}

pub sources-Filters : Filters sources chain
sources-Filters = filter_chain-Filters chain sources refl

abbrev pub fetched : List EventLog
fetched =
    event_log sources contract transfer_abi (log 7)
    ∷ event_log sources contract transfer_abi (log 9)
    ∷ []

pub fetches : backfill sources 12 contract transfer_abi ≡ ok fetched
unfolding backfill get_last_indexed_block eq_text text to_int64
fetches = refl

pub gapless :
    (l : Log)
    → Contains chain l
    → Any
        (λ r. OfPair contract.address transfer_abi.name r × (pos l.block_number <ℤ r.block_number))
        (row ∷ [])
    → ⊥
gapless l (inl e) (inl (p, lt)) = absurd (omega (arith, lt, ap (λ (x : Log). x.block_number) e))
gapless l (inr (inl e)) (inl (p, lt)) =
    absurd (omega (arith, lt, ap (λ (x : Log). x.block_number) e))
gapless l (inr (inr m)) (inl p) = elim m [ ]
gapless l c (inr a) = elim a [ ]

pub start_before : to_int64 5 ≤ℤ pos 9
unfolding to_int64
start_before = omega arith

pub current : pos 9 ≤ℤ to_int64 12
unfolding to_int64
current = omega arith

backfill_skips_example : pos 7 ≤ℤ pos 9
backfill_skips_example =
    backfill_skips sources chain sources-Filters 12 (row ∷ []) contract transfer_abi
      (inl ((refl, refl), refl), ((λ p. omega arith), tt)) fetched fetches (pos 7)
      (inl ((refl, refl), refl)) (event_log sources contract transfer_abi (log 9)) (inr (inl refl))

-- The stored event, of whose columns the answer shows the block alone.
abbrev stored_event : PublicEventsSelect
stored_event = record selected {
  contract_address = text "0xva";
  event_name = text "Transfer";
  block_hash = text "0xh";
}

answer_last :
    EventReplies
      (last_query (text "0xva") (text "Transfer"))
      (stored_event ∷ [])
      (body (selected ∷ []))
unfolding event_text eq_text text contains
answer_last = (
  stored_event ∷ [],
  record {
    selected = ((inl refl, (refl, (refl, tt))), tt);
    ordered = (tt, tt);
    within = tt;
    complete = ((λ s. inl (inl refl)), tt);
  },
  (((λ h. refl), (λ h. absurd (ground arith)), (λ h. refl)), tt),
)

get_last_indexed_block_correct_example :
    Outcome
      (stored_event ∷ [])
      (text "0xva")
      (text "Transfer")
      (body (selected ∷ []))
      (get_last_indexed_block sources (text "0xva") transfer_abi)
get_last_indexed_block_correct_example =
    get_last_indexed_block_correct sources (text "0xva") transfer_abi (stored_event ∷ [])
      answer_last
