-- ===== src/Extractor.antt =====
-- The Extractor (go-indexer/indexer/extractor.go): a log of the chain is parsed by its event's ABI, and
-- written to the events table unless it is there.
pub mod Stored
pub mod Topics
pub mod Write
pub mod Tests
use vault_indexer.Prelude.{
  Text, ℕ, zero, suc, ◌+◌, ◌*◌, ◌%◌, ◌-◌, ◌^◌, ◌==◌, ltb, ℤ, pos, negsuc, to_int64, Bool, true,
  false, not, ◌&&◌, Option, none, some, List, [], ◌∷◌, Result, ok, err, ◌>>=◌, text, to_lower,
  print_ℤ, length, if◌then◌else◌,
}
use vault_indexer.Database.Events.{PublicEventsInsert, PublicEventsUpdate, RawData}
use vault_indexer.Query.{Query, Filter, Reply, failed, malformed, body}

-- `abi.Type.T`, as far as the switch tells the kinds apart.
pub data Kind : Type 0 where
  address_ty int_ty uint_ty bool_ty bytes_ty fixed_bytes_ty string_ty : Kind
  other_ty : Kind

-- An argument of `abi.Event.Inputs`.
pub record Argument : Type 0 where
  pub name : Text
  pub kind : Kind
  pub indexed : Bool

pub record AbiEvent : Type 0 where
  pub name : Text
  pub inputs : List Argument

-- `types.Log`: a topic is its 32 bytes, and so are the hashes.
pub record Log : Type 0 where
  pub address : Text
  pub topics : List Text
  pub data_bytes : Text
  pub block_number : ℕ
  pub tx_hash : Text
  pub index : ℕ
  pub block_hash : Text

-- A value of the map that is stored as JSON; `unpacked` is one that the ABI decoder makes.
pub data Value : Type 0 where
  address : Text → Value
  number : ℕ → Value
  bool : Bool → Value
  bytes : Text → Value
  string : Text → Value
  unpacked : Text → Value

abbrev pub EventMap : Type 0
EventMap = List (Text × Value)

-- go-ethereum and encoding/json: `UnpackIntoMap`, which adds to the map, the JSON of a map, and the
-- texts of an address and of a hash.
pub record Encoding : Type 0 where
  pub unpack_into_map : List Argument → Text → EventMap → Result EventMap
  pub marshal : EventMap → Result Text
  pub address_hex : Text → Text
  pub hash_hex : Text → Text

abbrev drop : ℕ → Text → Text
drop zero s = s
drop (suc n) [] = []
drop (suc n) (b ∷ s) = drop n s

-- `new(big.Int).SetBytes`, on top of what has been read.
unfoldable pub set_bytes : ℕ → Text → ℕ
set_bytes n [] = n
set_bytes n (b ∷ s) = set_bytes (n * 256 + b) s

first_byte : Text → ℕ
first_byte [] = 0
first_byte (b ∷ s) = b

-- The switch on an indexed parameter's kind. An address is the last 20 bytes.
unfoldable pub topic_value : Kind → Text → Result Value
unfolding first_byte
topic_value address_ty topic = ok (address (drop 12 topic))
topic_value int_ty topic = ok (number (set_bytes 0 topic))
topic_value uint_ty topic = ok (number (set_bytes 0 topic))
topic_value bool_ty topic = ok (bool (not (first_byte topic == 0)))
topic_value bytes_ty topic = ok (bytes topic)
topic_value fixed_bytes_ty topic = ok (bytes topic)
topic_value string_ty topic = ok (string topic)
topic_value other_ty topic = err (text "unsupported indexed parameter type")

abbrev pub topic_at : ℕ → List Text → Option Text
topic_at n [] = none
topic_at zero (t ∷ ts) = some t
topic_at (suc n) (t ∷ ts) = topic_at n ts

-- `eventData[input.Name] = value`, of a topic that is there.
abbrev pub add_topic : Argument → Option Text → EventMap → Result EventMap
add_topic input none d = ok d
add_topic input (some topic) d = topic_value input.kind topic >>= λ v. ok ((input.name, v) ∷ d)

-- The loop over the inputs: `i` counts all of them, the indexed and the others.
unfoldable pub indexed_parameters : List Text → List Argument → ℕ → EventMap → Result EventMap
indexed_parameters topics [] i d = ok d
indexed_parameters topics (input ∷ inputs) i d =
    (if input.indexed then add_topic input (topic_at (suc i) topics) d else ok d)
    >>= indexed_parameters topics inputs (suc i)

pub record EventIngestionInsert : Type 0 where
  pub contract_address : Text
  pub event_name : Text
  pub block_number : ℤ
  pub transaction_hash : Text
  pub log_index : ℤ
  pub raw_data : RawData
  pub block_hash : Text

unfoldable pub to_event_ingestion_insert : PublicEventsInsert → EventIngestionInsert
to_event_ingestion_insert u = record {
  contract_address = u.contract_address;
  event_name = u.event_name;
  block_number = u.block_number;
  transaction_hash = u.transaction_hash;
  log_index = u.log_index;
  raw_data = u.raw_data;
  block_hash = u.block_hash;
}

-- `int32(n)` of an unsigned number.
unfoldable pub to_int32 : ℕ → ℤ
to_int32 n = let m = n % 2 ^ 32 in if ltb m (2 ^ 31) then pos m else negsuc (2 ^ 32 - 1 - m)

-- The row of these fields; the others are left to the database.
abbrev event_row : Text → Text → ℤ → Text → ℤ → RawData → Text → PublicEventsInsert
event_row contract_address event_name block_number transaction_hash log_index raw_data block_hash =
    record {
      block_hash = block_hash;
      block_number = block_number;
      contract_address = contract_address;
      created_at = none;
      event_name = event_name;
      id = none;
      is_processed = none;
      last_updated_at = none;
      log_index = log_index;
      raw_data = raw_data;
      transaction_hash = transaction_hash;
    }

unfoldable pub parse_event : Encoding → Log → AbiEvent → Result EventIngestionInsert
unfolding to_event_ingestion_insert to_int32
parse_event encoding log event = do
  indexed ← indexed_parameters log.topics event.inputs 0 []
  all ← encoding.unpack_into_map event.inputs log.data_bytes indexed
  json ← encoding.marshal all
  ok (
      to_event_ingestion_insert (
        event_row (encoding.address_hex log.address) event.name (to_int64 log.block_number)
          (encoding.hash_hex log.tx_hash) (to_int32 log.index) (RawData.bytes json)
          (encoding.hash_hex log.block_hash)))

-- The events table behind the database client: the ids that a query finds, and an insert with the rows
-- that it returns.
pub record EventsTable : Type 1 where
  pub State : Type 0
  pub select : Query → State → Reply (List Text)
  pub insert : EventIngestionInsert → State → State × Reply (List Text)

-- `Select("id").Eq("block_number", …).Eq("log_index", …)`
abbrev pub key_query : ℤ → ℤ → Query
key_query block_number log_index = record {
  table = text "events";
  columns = text "id";
  filters =
      Filter.eq (text "block_number") (print_ℤ block_number)
      ∷ Filter.eq (text "log_index") (print_ℤ log_index)
      ∷ [];
  order = none;
  limit = none;
  single = false;
}

-- What is inserted: the event's row with its contract in lower case.
unfoldable pub ingested : EventIngestionInsert → EventIngestionInsert
unfolding to_event_ingestion_insert
ingested e = to_event_ingestion_insert (
    event_row (to_lower e.contract_address) e.event_name e.block_number e.transaction_hash
      e.log_index e.raw_data e.block_hash)

-- The error of an insert; the rows that it returns are only logged.
abbrev insert_error : Reply (List Text) → Option Text
insert_error (failed e) = some e
insert_error (malformed e) = some e
insert_error (body ids) = none

module _ (table : EventsTable) where
  open table use {State, select, insert}

  -- The table as it is left, and the error.
  abbrev pub inserted : State × Reply (List Text) → State × Option Text
  inserted (s, reply) = (s, insert_error reply)

  abbrev pub insert_unless_found :
      Reply (List Text) → EventIngestionInsert → State → State × Option Text
  insert_unless_found (failed e) row s = (s, some e)
  insert_unless_found (malformed e) row s = (s, some e)
  insert_unless_found (body (id ∷ ids)) row s = (s, none)
  insert_unless_found (body []) row s = inserted (insert (ingested row) s)

  abbrev pub write_parsed : Result EventIngestionInsert → State → State × Option Text
  write_parsed (err e) s = (s, some e)
  write_parsed (ok row) s =
      insert_unless_found (select (key_query row.block_number row.log_index) s) row s

  unfoldable pub write_idempotent_event : Encoding → Log → AbiEvent → State → State × Option Text
  write_idempotent_event encoding log event s = write_parsed (parse_event encoding log event) s
