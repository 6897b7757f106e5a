-- ===== src/Database.antt =====
-- The row and column types of go-indexer/database: types.go (the rows as the database client reads,
-- inserts and updates them), processed-types.go (what is written) and composite-types.go (the
-- operations that a handler asks for).
pub mod Events
pub mod Operations
use vault_indexer.Prelude.{Text, ℤ, Bool, Option, none, some}

-- A pointer field that the code dereferences or leaves out is an `Option`; `none` is nil.
pub record PublicPositionsSelect : Type 0 where
  pub amount_shares : Text
  pub contract_address : Text
  pub created_at : Text
  pub id : Text
  pub is_terminated : Bool
  pub owner_address : Text
  pub position_end_height : Option ℤ
  pub position_index_id : ℤ
  pub position_start_height : ℤ
  pub withdraw_receiver_address : Option Text

pub record PublicPositionsInsert : Type 0 where
  pub amount_shares : Text
  pub contract_address : Text
  pub created_at : Option Text
  pub id : Option Text
  pub is_terminated : Option Bool
  pub owner_address : Text
  pub position_end_height : Option ℤ
  pub position_index_id : ℤ
  pub position_start_height : ℤ
  pub withdraw_receiver_address : Option Text

pub record PublicPositionsUpdate : Type 0 where
  pub amount_shares : Option Text
  pub contract_address : Option Text
  pub created_at : Option Text
  pub id : Option Text
  pub is_terminated : Option Bool
  pub owner_address : Option Text
  pub position_end_height : Option ℤ
  pub position_index_id : Option ℤ
  pub position_start_height : Option ℤ
  pub withdraw_receiver_address : Option Text

pub record PublicWithdrawRequestsSelect : Type 0 where
  pub amount : Text
  pub block_number : ℤ
  pub contract_address : Text
  pub created_at : Text
  pub id : Text
  pub owner_address : Text
  pub receiver_address : Text
  pub withdraw_id : ℤ

pub record PublicWithdrawRequestsInsert : Type 0 where
  pub amount : Text
  pub block_number : ℤ
  pub contract_address : Text
  pub created_at : Option Text
  pub id : Option Text
  pub owner_address : Text
  pub receiver_address : Text
  pub withdraw_id : ℤ

pub record PublicRateUpdatesSelect : Type 0 where
  pub block_number : ℤ
  pub block_timestamp : Text
  pub contract_address : Text
  pub id : Text
  pub rate : Text

pub record PublicRateUpdatesInsert : Type 0 where
  pub block_number : ℤ
  pub block_timestamp : Text
  pub contract_address : Text
  pub id : Option Text
  pub rate : Text

pub record PositionUpdate : Type 0 where
  pub id : Text
  pub is_terminated : Bool
  pub position_end_height : ℤ
  pub withdraw_receiver_address : Option Text

pub record PositionInsert : Type 0 where
  pub position_index_id : ℤ
  pub owner_address : Text
  pub contract_address : Text
  pub amount_shares : Text
  pub position_start_height : ℤ
  pub withdraw_receiver_address : Option Text

-- The three pointers are dereferenced: `none` is the panic that a nil one causes.
unfoldable pub to_position_update : PublicPositionsUpdate → Option PositionUpdate
to_position_update u = elim u.id [
  | none ↦ none
  | some i ↦ elim u.is_terminated [
    | none ↦ none
    | some t ↦ elim u.position_end_height [
      | none ↦ none
      | some h ↦ some (record {
        id = i;
        is_terminated = t;
        position_end_height = h;
        withdraw_receiver_address = u.withdraw_receiver_address;
      })
    ]
  ]
]

unfoldable pub to_position_insert : PublicPositionsInsert → PositionInsert
to_position_insert u = record {
  position_index_id = u.position_index_id;
  owner_address = u.owner_address;
  contract_address = u.contract_address;
  amount_shares = u.amount_shares;
  position_start_height = u.position_start_height;
  withdraw_receiver_address = none;
}
