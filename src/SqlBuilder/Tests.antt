-- ===== src/SqlBuilder/Tests.antt =====
-- The builders on the rows of a deposit, and of an event that has been processed.
use vault_indexer.SqlBuilder.Numbered.{present, every, insert_of, build_insert_correct}
use vault_indexer.SqlBuilder.Clauses.{keyed, unkeyed, update_of, build_update_correct}
use vault_indexer.Prelude.{◌>>=◌, pos, ◌≡◌, refl, true, none, some, [], ◌∷◌, ok, err, text}
use vault_indexer.Database.{PositionInsert}
use vault_indexer.Database.Events.{PublicEventsUpdate}
use vault_indexer.Database.Operations.{position_inserts}
use vault_indexer.SqlBuilder.{
  Any, build_insert, build_update, string, int64, bool, is_skipped, to_db_value, fields_of,
  insert_query, update_query, equation, placeholder, member, slice, nil, add_where, add_set,
}
use vault_indexer.SqlBuilder.Deletes.{build_delete}
use vault_indexer.SqlBuilder.Rows.{any_of, events_update_fields, position_insert_fields}
use vault_indexer.Prelude.{eq_text, join, print_ℕ}

abbrev row : PositionInsert
row = record {
  position_index_id = pos 7;
  owner_address = text "0xa";
  contract_address = text "0xb";
  amount_shares = text "50";
  position_start_height = pos 1000;
  withdraw_receiver_address = none;
}

insert_row :
    build_insert (text "positions") (any_of (position_inserts (row ∷ [])))
    ≡ ok (record {
      query =
          text
            "INSERT INTO positions (position_index_id, owner_address, contract_address, amount_shares, position_start_height) VALUES ($1, $2, $3, $4, $5)";
      args =
          int64 (pos 7)
          ∷ string (text "0xa")
          ∷ string (text "0xb")
          ∷ string (text "50")
          ∷ int64 (pos 1000)
          ∷ [];
    })
unfolding build_insert any_of position_insert_fields is_skipped eq_text text to_db_value fields_of
    insert_query join placeholder print_ℕ
insert_row = refl

abbrev processed : PublicEventsUpdate
processed = record {
  block_hash = none;
  block_number = none;
  contract_address = none;
  created_at = none;
  event_name = none;
  id = some (text "e1");
  is_processed = some true;
  last_updated_at = none;
  log_index = none;
  raw_data = none;
  transaction_hash = none;
}

update_event :
    build_update (text "events") (Any.struct (events_update_fields processed)) (text "id" ∷ [])
    ≡ ok (record {
      query = text "UPDATE events SET is_processed = $2 WHERE id = $1";
      args = string (text "e1") ∷ bool true ∷ [];
    })
unfolding build_update events_update_fields is_skipped eq_text text to_db_value fields_of
    update_query join equation print_ℕ member add_where add_set
update_event = refl

delete_without_key :
    build_delete
      (text "events")
      (Any.struct (events_update_fields processed))
      (text "log_index" ∷ [])
    ≡ err (text "no WHERE condition provided")
unfolding build_delete events_update_fields is_skipped eq_text text to_db_value fields_of member
delete_without_key = refl

empty_slice : build_insert (text "positions") (slice nil) ≡ err (text "empty slice provided")
unfolding build_insert fields_of
empty_slice = refl

build_insert_correct_example :
    build_insert (text "positions") (any_of (position_inserts (row ∷ []))) ≡ (
      fields_of (any_of (position_inserts (row ∷ []))) >>= λ fs.
      present every fs 1 >>= insert_of (text "positions"))
build_insert_correct_example =
    build_insert_correct (text "positions") (any_of (position_inserts (row ∷ [])))

build_update_correct_example :
    build_update (text "events") (Any.struct (events_update_fields processed)) (text "id" ∷ []) ≡ (
      fields_of (Any.struct (events_update_fields processed)) >>= λ fs. present every fs 1 >>= λ bs.
      update_of (text "events") (unkeyed (text "id" ∷ []) bs) (keyed (text "id" ∷ []) bs) bs)
build_update_correct_example =
    build_update_correct (text "events") (Any.struct (events_update_fields processed))
      (text "id" ∷ [])
