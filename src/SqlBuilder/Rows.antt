-- ===== src/SqlBuilder/Rows.antt =====
-- What `reflect` shows of the rows that the transformer writes: each field under its json tag, in the
-- order of the struct (go-indexer/database), and what a builder makes of a handler's payload.
use vault_indexer.Prelude.{Text, ℤ, ◌≡◌, refl, Bool, Option, none, some, List, [], ◌∷◌, text}
use vault_indexer.Database.{
  PositionInsert, PositionUpdate, PublicWithdrawRequestsInsert, PublicRateUpdatesInsert,
}
use vault_indexer.Database.Events.{RawData, PublicEventsUpdate}
use vault_indexer.Database.Operations.{
  Payload, position_inserts, position_updates, withdraw_request, rate_update,
}
use vault_indexer.SqlBuilder.{
  Scalar, string, int64, bool, Cell, nil_pointer, nil_interface, value, Field, Any, slice, Items,
  nil, cons, fields_of, build_insert, build_update,
}

abbrev pub column : Text → Cell → Field
column name cell = record { column = name; cell = cell }

abbrev text_pointer : Option Text → Cell
text_pointer none = nil_pointer
text_pointer (some s) = Cell.pointer (string s)

abbrev int64_pointer : Option ℤ → Cell
int64_pointer none = nil_pointer
int64_pointer (some n) = Cell.pointer (int64 n)

abbrev bool_pointer : Option Bool → Cell
bool_pointer none = nil_pointer
bool_pointer (some b) = Cell.pointer (bool b)

abbrev interface : Option RawData → Cell
interface none = nil_interface
interface (some (RawData.string s)) = value (string s)
interface (some (RawData.bytes s)) = value (Scalar.bytes s)
interface (some (RawData.other kind)) = value (Scalar.dynamic kind)

unfoldable pub position_insert_fields : PositionInsert → List Field
position_insert_fields r =
    column (text "position_index_id") (value (int64 r.position_index_id))
    ∷ column (text "owner_address") (value (string r.owner_address))
    ∷ column (text "contract_address") (value (string r.contract_address))
    ∷ column (text "amount_shares") (value (string r.amount_shares))
    ∷ column (text "position_start_height") (value (int64 r.position_start_height))
    ∷ column (text "withdraw_receiver_address") (text_pointer r.withdraw_receiver_address)
    ∷ []

unfoldable pub position_update_fields : PositionUpdate → List Field
position_update_fields r =
    column (text "id") (value (string r.id))
    ∷ column (text "is_terminated") (value (bool r.is_terminated))
    ∷ column (text "position_end_height") (value (int64 r.position_end_height))
    ∷ column (text "withdraw_receiver_address") (text_pointer r.withdraw_receiver_address)
    ∷ []

unfoldable pub withdraw_request_fields : PublicWithdrawRequestsInsert → List Field
withdraw_request_fields r =
    column (text "amount") (value (string r.amount))
    ∷ column (text "block_number") (value (int64 r.block_number))
    ∷ column (text "contract_address") (value (string r.contract_address))
    ∷ column (text "created_at") (text_pointer r.created_at)
    ∷ column (text "id") (text_pointer r.id)
    ∷ column (text "owner_address") (value (string r.owner_address))
    ∷ column (text "receiver_address") (value (string r.receiver_address))
    ∷ column (text "withdraw_id") (value (int64 r.withdraw_id))
    ∷ []

unfoldable pub rate_update_fields : PublicRateUpdatesInsert → List Field
rate_update_fields r =
    column (text "block_number") (value (int64 r.block_number))
    ∷ column (text "block_timestamp") (value (string r.block_timestamp))
    ∷ column (text "contract_address") (value (string r.contract_address))
    ∷ column (text "id") (text_pointer r.id)
    ∷ column (text "rate") (value (string r.rate))
    ∷ []

unfoldable pub events_update_fields : PublicEventsUpdate → List Field
events_update_fields r =
    column (text "block_hash") (text_pointer r.block_hash)
    ∷ column (text "block_number") (int64_pointer r.block_number)
    ∷ column (text "contract_address") (text_pointer r.contract_address)
    ∷ column (text "created_at") (text_pointer r.created_at)
    ∷ column (text "event_name") (text_pointer r.event_name)
    ∷ column (text "id") (text_pointer r.id)
    ∷ column (text "is_processed") (bool_pointer r.is_processed)
    ∷ column (text "last_updated_at") (text_pointer r.last_updated_at)
    ∷ column (text "log_index") (int64_pointer r.log_index)
    ∷ column (text "raw_data") (interface r.raw_data)
    ∷ column (text "transaction_hash") (text_pointer r.transaction_hash)
    ∷ []

insert_items : List PositionInsert → Items
insert_items [] = nil
insert_items (r ∷ rs) = cons (Any.struct (position_insert_fields r)) (insert_items rs)

update_items : List PositionUpdate → Items
update_items [] = nil
update_items (r ∷ rs) = cons (Any.struct (position_update_fields r)) (update_items rs)

-- `op.data`
unfoldable pub any_of : Payload → Any
unfolding insert_items update_items
any_of (position_inserts rs) = slice (insert_items rs)
any_of (position_updates rs) = slice (update_items rs)
any_of (withdraw_request r) = Any.struct (withdraw_request_fields r)
any_of (rate_update r) = Any.struct (rate_update_fields r)

-- Of several rows in one operation only the first is written: the statement is that of the first row
-- alone, for an insert and for an update, whatever rows stand behind it.
pub build_first_row_only :
    (table : Text) (keys : List Text) (r : PositionInsert) (rs : List PositionInsert)
    (u : PositionUpdate) (us : List PositionUpdate)
    → (build_insert table (any_of (position_inserts (r ∷ rs)))
        ≡ build_insert table (any_of (position_inserts (r ∷ []))))
      × (build_update table (any_of (position_updates (u ∷ us))) keys
          ≡ build_update table (any_of (position_updates (u ∷ []))) keys)
unfolding build_insert build_update any_of fields_of
build_first_row_only table keys r rs u us = (refl, refl)
