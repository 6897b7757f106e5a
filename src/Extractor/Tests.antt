-- ===== src/Extractor/Tests.antt =====
-- A transfer's log, its topics, and a table of rows.
use vault_indexer.Prelude.{
  Text, ◌++◌, ℤ, pos, eqb_ℤ, ◌≡◌, refl, to_int64, Bool, true, false, ◌&&◌, Option, none, some, List,
  [], ◌∷◌, ok, inl, inr, arith, text, eqb_ℤ→eq, eqb_ℤ_refl, and-true, set_string,
  set_string-print_ℤ, if◌then◌else◌, Bool-cases,
}
use vault_indexer.Query.{Filter, Reply, body}
use vault_indexer.Extractor.{
  Argument, address_ty, uint_ty, AbiEvent, Log, Encoding, EventsTable, EventIngestionInsert,
  topic_value, indexed_parameters, address, number, parse_event, write_idempotent_event,
}
use vault_indexer.Extractor.Topics.{
  by_order, big_endian, zeros, indexed_parameters_correct, topic_value_round_trip,
}
use vault_indexer.Extractor.Write.{
  IsTable, IsSelected, HasKey, UniqueKeys, write_idempotent_event-UniqueKeys,
}

abbrev transfer_inputs : List Argument
transfer_inputs =
    record { name = text "from"; kind = address_ty; indexed = true }
    ∷ record { name = text "to"; kind = address_ty; indexed = true }
    ∷ record { name = text "value"; kind = uint_ty; indexed = false }
    ∷ []

indexed_parameters_correct_example :
    indexed_parameters
      ([] ∷ (zeros 12 ++ text "a") ∷ (zeros 12 ++ text "b") ∷ [])
      transfer_inputs
      0
      []
    ≡ by_order transfer_inputs ((zeros 12 ++ text "a") ∷ (zeros 12 ++ text "b") ∷ []) []
indexed_parameters_correct_example =
    indexed_parameters_correct transfer_inputs []
      ((zeros 12 ++ text "a") ∷ (zeros 12 ++ text "b") ∷ []) tt

topic_value_round_trip_example :
    (topic_value uint_ty (big_endian 32 1000) ≡ ok (number 1000))
    × (topic_value address_ty (zeros 12 ++ text "a") ≡ ok (address (text "a")))
topic_value_round_trip_example = topic_value_round_trip 1000 (text "a") (omega arith)

-- The rows themselves are the state, and the one id is that of a row that is found.
abbrev has_key : ℤ → ℤ → EventIngestionInsert → Bool
has_key b l r = eqb_ℤ r.block_number b && eqb_ℤ r.log_index l

abbrev find : ℤ → ℤ → List EventIngestionInsert → List Text
find b l [] = []
find b l (r ∷ rs) = if has_key b l r then text "e1" ∷ [] else find b l rs

abbrev find_read : Option ℤ → Option ℤ → List EventIngestionInsert → Reply (List Text)
find_read none l rows = body []
find_read (some b) none rows = body []
find_read (some b) (some l) rows = body (find b l rows)

abbrev answer : List Filter → List EventIngestionInsert → Reply (List Text)
answer (Filter.eq x b ∷ Filter.eq y l ∷ fs) rows = find_read (set_string b) (set_string l) rows
answer _ rows = body []

abbrev pub table : EventsTable
table = record {
  State = List EventIngestionInsert;
  select = λ q rows. answer q.filters rows;
  insert = λ row rows. (row ∷ rows, body (text "e1" ∷ []));
}

key_of : (b l : ℤ) (r : EventIngestionInsert) → has_key b l r ≡ true → HasKey b l r
key_of b l r h =
    let both = and-true (eqb_ℤ r.block_number b) (eqb_ℤ r.log_index l) h in
    (eqb_ℤ→eq r.block_number b both.0, eqb_ℤ→eq r.log_index l both.1)

no_key : (b l : ℤ) (r : EventIngestionInsert) → has_key b l r ≡ false → ¬ (HasKey b l r)
no_key b l r h (p, q) = ground (arith, eqb_ℤ_refl b, eqb_ℤ_refl l)

skipped :
    (b l : ℤ) (r : EventIngestionInsert) (rs : List EventIngestionInsert) (ids : List Text)
    → IsSelected rs b l (body ids)
    → ¬ (HasKey b l r)
    → IsSelected (r ∷ rs) b l (body ids)
skipped b l r rs [] a n = (n, a)
skipped b l r rs (id ∷ ids) a n = inr a

found-IsSelected :
    (b l : ℤ) (rows : List EventIngestionInsert) → IsSelected rows b l (body (find b l rows))
found-IsSelected b l [] = tt
found-IsSelected b l (r ∷ rs) = elim (Bool-cases (has_key b l r)) [
  | inl e ↦ rw e (inl (key_of b l r e))
  | inr e ↦ rw e (skipped b l r rs (find b l rs) (found-IsSelected b l rs) (no_key b l r e))
]

pub table-IsTable : IsTable table (λ rows. rows)
table-IsTable = record {
  selects = λ rows b l. rw (set_string-print_ℤ b, set_string-print_ℤ l) (found-IsSelected b l rows);
  inserts = λ rows row. refl;
}

abbrev pub encoding : Encoding
encoding = record {
  unpack_into_map = λ inputs data' d. ok d;
  marshal = λ d. ok (text "{}");
  address_hex = λ a. a;
  hash_hex = λ h. h;
}

abbrev log : Log
log = record {
  address = text "0xVA";
  topics = [] ∷ (zeros 12 ++ text "a") ∷ (zeros 12 ++ text "b") ∷ [];
  data_bytes = [];
  block_number = 7;
  tx_hash = text "0xt";
  index = 2;
  block_hash = text "0xh";
}

abbrev transfer_event : AbiEvent
transfer_event = record { name = text "Transfer"; inputs = transfer_inputs }

write_idempotent_event-UniqueKeys_example :
    UniqueKeys (write_idempotent_event table encoding log transfer_event []).0
write_idempotent_event-UniqueKeys_example =
    write_idempotent_event-UniqueKeys table (λ rows. rows) table-IsTable encoding log transfer_event
      [] tt

written : (write_idempotent_event table encoding log transfer_event []).1 ≡ none
unfolding write_idempotent_event parse_event indexed_parameters topic_value
written = rw (set_string-print_ℤ (to_int64 7), set_string-print_ℤ (pos 2)) refl
