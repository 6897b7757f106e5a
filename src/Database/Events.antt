-- ===== src/Database/Events.antt =====
-- The rows of the events and block_finality tables (go-indexer/database/types.go), and the upsert of
-- the latter (processed-types.go).
use vault_indexer.Prelude.{Text, ℤ, Bool, Option, none, some}

-- An `interface{}` by the types that the code tells apart; of another one, its name is kept.
pub data RawData : Type 0 where
  string : Text → RawData
  bytes : Text → RawData
  other : Text → RawData

pub record PublicEventsSelect : Type 0 where
  pub block_hash : Text
  pub block_number : ℤ
  pub contract_address : Text
  pub created_at : Option Text
  pub event_name : Text
  pub id : Text
  pub is_processed : Option Bool
  pub last_updated_at : Option Text
  pub log_index : ℤ
  pub raw_data : RawData
  pub transaction_hash : Text

pub record PublicEventsInsert : Type 0 where
  pub block_hash : Text
  pub block_number : ℤ
  pub contract_address : Text
  pub created_at : Option Text
  pub event_name : Text
  pub id : Option Text
  pub is_processed : Option Bool
  pub last_updated_at : Option Text
  pub log_index : ℤ
  pub raw_data : RawData
  pub transaction_hash : Text

pub record PublicEventsUpdate : Type 0 where
  pub block_hash : Option Text
  pub block_number : Option ℤ
  pub contract_address : Option Text
  pub created_at : Option Text
  pub event_name : Option Text
  pub id : Option Text
  pub is_processed : Option Bool
  pub last_updated_at : Option Text
  pub log_index : Option ℤ
  pub raw_data : Option RawData
  pub transaction_hash : Option Text

pub record PublicBlockFinalitySelect : Type 0 where
  pub block_tag : Text
  pub last_validated_block_number : ℤ

pub record PublicBlockFinalityUpdate : Type 0 where
  pub block_tag : Option Text
  pub last_validated_block_number : Option ℤ

pub record BlockFinalityUpsert : Type 0 where
  pub last_validated_block_number : ℤ
  pub block_tag : Text

-- `none` is the panic on a nil pointer.
unfoldable pub to_block_finality_upsert : PublicBlockFinalityUpdate → Option BlockFinalityUpsert
to_block_finality_upsert u = elim u.last_validated_block_number [
  | none ↦ none
  | some n ↦ elim u.block_tag [
    | none ↦ none
    | some t ↦ some (record { last_validated_block_number = n; block_tag = t })
  ]
]
