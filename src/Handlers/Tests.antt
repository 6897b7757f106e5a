-- ===== src/Handlers/Tests.antt =====
-- The handlers on the data of a transfer, and of two deposits for different owners.
use vault_indexer.Prelude.{to_lower, if◌then◌else◌, false, List, arith}
use vault_indexer.Database.{PublicPositionsSelect}
use vault_indexer.Query.{Filter}
use vault_indexer.Positions.{ProcessPosition, append_some}
use vault_indexer.Positions.Tests.{
  alice_row, bob_row, bob, vault, alice-HasShares, bob-HasShares, in_range,
}
use vault_indexer.Positions.Update.{opened, closed, opened_if}
use vault_indexer.Positions.Transfer.{IsTransfer}
use vault_indexer.Positions.Fetch.{get_most_recent_position, get_max_position_index_id}
use vault_indexer.Handlers.Position.{Headers, insert_operations, update_operations}
use vault_indexer.Handlers.Controller.{Codec, parse_event_data, trim_quotes, handle}
use vault_indexer.Handlers.Transfers.{TransferEvent, Holders, moved_shares, handle_transfer_correct}
use vault_indexer.Prelude.{
  ◌≡◌, refl, pos, true, some, none, [], ◌∷◌, ok, text, eq_text, Text, ◌^◌, ◌<◌, ◌≤◌, ◌%◌, ◌≢◌,
  print_ℕ,
}
use vault_indexer.Float.{float64}
use vault_indexer.Database.Events.{PublicEventsSelect, RawData}
use vault_indexer.Query.{body}
use vault_indexer.Positions.Fetch.{Client}
use vault_indexer.Handlers.{EventData, string, number, lookup, get_string, get_number}
use vault_indexer.Handlers.Extract.{extract_transfer, extract_deposit, TransferData}
use vault_indexer.Handlers.Amounts.{extract_transfer_amount}

abbrev transfer_data : EventData
transfer_data =
    (text "from", string (text "0xa11ce"))
    ∷ (text "to", string (text "0xb0b"))
    ∷ (text "value", number 9007199254740993)
    ∷ []

abbrev deposit_for : Text → EventData
deposit_for owner =
    (text "sender", string (text "0xa11ce"))
    ∷ (text "owner", string owner)
    ∷ (text "shares", number 40)
    ∷ []

abbrev pub event : PublicEventsSelect
event = record {
  block_hash = text "0xh";
  block_number = pos 20;
  contract_address = text "0xva";
  created_at = none;
  event_name = text "Deposit";
  id = text "e1";
  is_processed = none;
  last_updated_at = none;
  log_index = pos 0;
  raw_data = RawData.string [];
  transaction_hash = text "0xt";
}

abbrev db : Client
db = record {
  execute = λ q. body [];
  execute_single = λ q. body (record {
    amount_shares = text "1";
    contract_address = text "0xva";
    created_at = [];
    id = text "p1";
    is_terminated = true;
    owner_address = text "0xb0b";
    position_end_height = none;
    position_index_id = pos 3;
    position_start_height = pos 5;
    withdraw_receiver_address = none;
  });
  is_hex_address = λ a. true;
}

found_to : lookup (text "to") transfer_data ≡ some (string (text "0xb0b"))
unfolding lookup eq_text text
found_to = refl

found_from : lookup (text "from") transfer_data ≡ some (string (text "0xa11ce"))
unfolding lookup eq_text text
found_from = refl

found_value : lookup (text "value") transfer_data ≡ some (number 9007199254740993)
unfolding lookup eq_text text
found_value = refl

extract_transfer_amount_example :
    (r : TransferData) × (extract_transfer transfer_data ≡ ok r)
    × (r.from ≡ text "0xa11ce")
    × (r.to ≡ text "0xb0b")
    × (9007199254740993 < 2 ^ 53 → r.amount ≡ print_ℕ 9007199254740993)
    × (2 ^ 53 ≤ 9007199254740993 → 9007199254740993 % 2 ≡ 1 → r.amount ≢ print_ℕ 9007199254740993)
extract_transfer_amount_example =
    extract_transfer_amount transfer_data (text "0xa11ce") (text "0xb0b") 9007199254740993 found_to
      found_from found_value

extracted :
    (owner : Text)
    → extract_deposit (deposit_for owner)
      ≡ ok (record { sender = text "0xa11ce"; owner = owner; amount_shares = print_ℕ (float64 40) })
unfolding extract_deposit get_string get_number lookup eq_text text
extracted owner = refl

abbrev small_data : EventData
small_data =
    (text "from", string (text "0xA11ce"))
    ∷ (text "to", string (text "0xB0b"))
    ∷ (text "value", number 40)
    ∷ []

abbrev codec : Codec
codec = record { unquote = λ s. none; decode_base64 = λ s. ok s; unmarshal = λ s. ok small_data }

abbrev chain : Headers
chain = record { header_time = λ n. ok 0; format_utc = λ z. [] }

abbrev transfer_event : PublicEventsSelect
transfer_event = record event { event_name = text "Transfer" }

-- A client that finds Bob's row for his address, and Alice's for any other.
abbrev rows_for : List Filter → List PublicPositionsSelect
rows_for (Filter.eq column owner ∷ fs) = if eq_text owner bob then bob_row ∷ [] else alice_row ∷ []
rows_for _ = []

abbrev holders_db : Client
holders_db = record {
  execute = λ q. body (rows_for q.filters);
  execute_single = λ q. body (record alice_row { position_index_id = pos 7 });
  is_hex_address = λ a. true;
}

is_transfer_event : TransferEvent codec transfer_event (text "0xA11ce") (text "0xB0b") 40 20
unfolding lookup eq_text text parse_event_data trim_quotes
is_transfer_event = record {
  event_data = small_data;
  parses = refl;
  name = refl;
  sender = refl;
  receiver = refl;
  value = refl;
  exact = omega arith;
  in_block = refl;
}

abbrev moved_forty : ProcessPosition
moved_forty = moved_shares transfer_event (text "0xA11ce") (text "0xB0b") 40 20

moved_forty-IsTransfer : IsTransfer moved_forty
unfolding eq_text text to_lower
moved_forty-IsTransfer = record { from_account = refl; to_account = refl }

two-Holders : Holders holders_db moved_forty alice_row bob_row 100 50 7
unfolding eq_text text to_lower get_most_recent_position get_max_position_index_id
two-Holders = record {
  sender = refl;
  receiver = refl;
  highest = refl;
  sent = alice-HasShares;
  kept = bob-HasShares;
  positive = omega arith;
}

handle_transfer_correct_example :
    handle codec holders_db chain transfer_event
    ≡ ok (record {
      inserts = insert_operations (
          append_some
            (opened (to_lower (text "0xB0b")) vault 8 90 20 ∷ [])
            (opened_if (to_lower (text "0xA11ce")) vault 8 60 20));
      updates =
          update_operations
            (closed (text "p2") false 20 none ∷ closed (text "p1") false 20 none ∷ []);
    })
handle_transfer_correct_example =
    handle_transfer_correct codec holders_db chain transfer_event (text "0xA11ce") (text "0xB0b") 40
      20 alice_row bob_row 100 50 7 is_transfer_event in_range moved_forty-IsTransfer two-Holders
