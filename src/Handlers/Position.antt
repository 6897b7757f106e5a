-- ===== src/Handlers/Position.antt =====
-- The `Handle` methods of DepositHandler, TransferHandler, WithdrawHandler and RateUpdateHandler, with
-- the two small transformers (withdraw-request-transformer.go and rate_update_transformer.go).
use vault_indexer.Prelude.{
  Text, ℕ, ℤ, pos, negsuc, to_int64, to_uint64, Option, none, some, List, [], ◌∷◌, ◌++◌, Result, ok,
  err, ◌>>=◌, text, to_lower, set_string, leb_ℤ, ltb_ℤ, ◌&&◌, if◌then◌else◌, ◌^◌, ◌-◌,
}
use vault_indexer.Database.{
  PositionInsert, PositionUpdate, PublicWithdrawRequestsInsert, PublicRateUpdatesInsert,
}
use vault_indexer.Database.Events.{PublicEventsSelect}
use vault_indexer.Database.Operations.{
  DbOperation, DatabaseOperations, position_inserts, position_updates, withdraw_request,
  rate_update,
}
use vault_indexer.Positions.{ProcessPosition, Changes}
use vault_indexer.Positions.Fetch.{Client, transfer, withdraw, deposit}
use vault_indexer.Handlers.{EventData}
use vault_indexer.Handlers.Extract.{
  DepositData, extract_deposit, TransferData, extract_transfer, WithdrawData, extract_withdraw,
  extract_rate_update,
}

abbrev pub no_operations : DatabaseOperations
no_operations = record { inserts = []; updates = [] }

abbrev pub positions_table : Text
positions_table = text "positions"

-- `if len(inserts) > 0 { … }`, and so for the updates.
abbrev pub insert_operations : List PositionInsert → List DbOperation
insert_operations [] = []
insert_operations (r ∷ rs) =
    record { table = positions_table; payload = position_inserts (r ∷ rs) } ∷ []

abbrev pub update_operations : List PositionUpdate → List DbOperation
update_operations [] = []
update_operations (r ∷ rs) =
    record { table = positions_table; payload = position_updates (r ∷ rs) } ∷ []

-- The operations of what the position transformer returns, or its error.
abbrev pub position_operations : Changes → Option Text → Result DatabaseOperations
position_operations c (some e) = err e
position_operations c none =
    ok (record { inserts = insert_operations c.inserts; updates = update_operations c.updates })

unfoldable deposit_args : PublicEventsSelect → DepositData → ProcessPosition
deposit_args event d = record {
  receiver_address = [];
  sender_address = to_lower d.sender;
  contract_address = to_lower event.contract_address;
  amount_shares = d.amount_shares;
  block_number = to_uint64 event.block_number;
}

unfoldable pub handle_deposit : Client → PublicEventsSelect → EventData → Result DatabaseOperations
unfolding deposit_args
handle_deposit db event d = do
  data' ← extract_deposit d
  let c = deposit db (deposit_args event data')
  position_operations c c.error

unfoldable pub transfer_args : PublicEventsSelect → TransferData → ProcessPosition
transfer_args event d = record {
  receiver_address = to_lower d.to;
  sender_address = to_lower d.from;
  contract_address = to_lower event.contract_address;
  amount_shares = d.amount;
  block_number = to_uint64 event.block_number;
}

unfoldable pub handle_transfer : Client → PublicEventsSelect → EventData → Result DatabaseOperations
unfolding transfer_args
handle_transfer db event d = do
  data' ← extract_transfer d
  let c = transfer db (transfer_args event data')
  position_operations c c.error

in_int64 : Option ℤ → Result ℤ
in_int64 none = err (text "strconv.ParseInt: invalid syntax")
in_int64 (some z) =
    if ltb_ℤ z (pos (2 ^ 63)) && leb_ℤ (negsuc (2 ^ 63 - 1)) z
    then ok z
    else err (text "strconv.ParseInt: value out of range")

-- `strconv.ParseInt(s, 10, 64)`
unfoldable pub parse_int : Text → Result ℤ
unfolding in_int64
parse_int s = in_int64 (set_string s)

pub record ProcessWithdrawRequest : Type 0 where
  pub owner_address : Text
  pub receiver_address : Text
  pub amount : Text
  pub withdraw_id : ℤ
  pub block_number : ℕ
  pub contract_address : Text

-- WithdrawRequestTransformer.Transform, which never fails.
unfoldable transform_withdraw_request : ProcessWithdrawRequest → PublicWithdrawRequestsInsert
transform_withdraw_request args = record {
  amount = args.amount;
  block_number = to_int64 args.block_number;
  contract_address = args.contract_address;
  created_at = none;
  id = none;
  owner_address = args.owner_address;
  receiver_address = args.receiver_address;
  withdraw_id = args.withdraw_id;
}

unfoldable withdraw_args : PublicEventsSelect → WithdrawData → ProcessPosition
withdraw_args event d = record {
  receiver_address = to_lower d.receiver;
  sender_address = to_lower d.owner;
  contract_address = to_lower event.contract_address;
  amount_shares = d.amount;
  block_number = to_uint64 event.block_number;
}

unfoldable request_args : PublicEventsSelect → WithdrawData → ℤ → ProcessWithdrawRequest
request_args event d withdraw_id = record {
  owner_address = d.owner;
  receiver_address = d.receiver;
  amount = d.amount;
  withdraw_id = withdraw_id;
  block_number = to_uint64 event.block_number;
  contract_address = event.contract_address;
}

unfoldable pub handle_withdraw : Client → PublicEventsSelect → EventData → Result DatabaseOperations
unfolding withdraw_args request_args transform_withdraw_request
handle_withdraw db event d = do
  data' ← extract_withdraw d
  withdraw_id ← parse_int data'.withdraw_id
  let c = withdraw db (withdraw_args event data')
  operations ← position_operations c c.error
  let request = transform_withdraw_request (request_args event data' withdraw_id)
  ok (record operations {
    inserts =
        operations.inserts
        ++ record { table = text "withdraw_requests"; payload = withdraw_request request } ∷ [];
  })

-- The chain client's header time of a block, and the standard library's RFC 3339 format of a UTC time.
pub record Headers : Type 0 where
  pub header_time : ℤ → Result ℕ
  pub format_utc : ℤ → Text

pub record ProcessRateUpdate : Type 0 where
  pub contract_address : Text
  pub rate : Text
  pub block_number : ℤ

-- RateUpdateTransformer.Transform
unfoldable pub transform_rate_update : Headers → ProcessRateUpdate → Result PublicRateUpdatesInsert
transform_rate_update chain args = do
  block_timestamp ← chain.header_time args.block_number
  ok (record {
    block_number = args.block_number;
    block_timestamp = chain.format_utc (to_int64 block_timestamp);
    contract_address = args.contract_address;
    id = none;
    rate = args.rate;
  })

unfoldable pub handle_rate_update :
    Headers → PublicEventsSelect → EventData → Result DatabaseOperations
handle_rate_update chain event d = do
  data' ← extract_rate_update d
  row ← transform_rate_update chain (record {
    contract_address = to_lower event.contract_address;
    rate = data'.rate;
    block_number = event.block_number;
  })
  ok (record {
    inserts = record { table = text "rate_updates"; payload = rate_update row } ∷ [];
    updates = [];
  })
