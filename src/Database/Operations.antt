-- ===== src/Database/Operations.antt =====
-- The operations that a handler asks for (go-indexer/database/composite-types.go). `Data any` is one
-- of the four values that the handlers put there.
use vault_indexer.Prelude.{Text, List}
use vault_indexer.Database.{
  PositionInsert, PositionUpdate, PublicWithdrawRequestsInsert, PublicRateUpdatesInsert,
}

pub data Payload : Type 0 where
  position_inserts : List PositionInsert → Payload
  position_updates : List PositionUpdate → Payload
  withdraw_request : PublicWithdrawRequestsInsert → Payload
  rate_update : PublicRateUpdatesInsert → Payload

pub record DbOperation : Type 0 where
  pub table : Text
  pub payload : Payload

pub record DatabaseOperations : Type 0 where
  pub inserts : List DbOperation
  pub updates : List DbOperation
