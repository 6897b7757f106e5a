-- ===== src/Handlers/Extract.antt =====
-- The `extract` methods of the four handlers.
use vault_indexer.Prelude.{Text, Result, ok, ◌>>=◌, text}
use vault_indexer.Handlers.{EventData, get_string, get_number}

pub record DepositData : Type 0 where
  pub sender : Text
  pub owner : Text
  pub amount_shares : Text

unfoldable pub extract_deposit : EventData → Result DepositData
extract_deposit d = do
  owner ← get_string (text "owner") (text "owner not found in withdraw event") d
  sender ← get_string (text "sender") (text "sender not found in withdraw event") d
  shares ← get_number (text "shares") (text "shares not found in withdraw event") d
  ok (record { sender = sender; owner = owner; amount_shares = shares })

pub record TransferData : Type 0 where
  pub from : Text
  pub to : Text
  pub amount : Text

unfoldable pub extract_transfer : EventData → Result TransferData
extract_transfer d = do
  to ← get_string (text "to") (text "to not found in transfer event") d
  from ← get_string (text "from") (text "from not found in transfer event") d
  value ← get_number (text "value") (text "value not found in transfer event") d
  ok (record { from = from; to = to; amount = value })

pub record WithdrawData : Type 0 where
  pub owner : Text
  pub receiver : Text
  pub amount : Text
  pub withdraw_id : Text

unfoldable pub extract_withdraw : EventData → Result WithdrawData
extract_withdraw d = do
  owner ← get_string (text "owner") (text "owner not found in withdraw event") d
  receiver ← get_string (text "receiver") (text "receiver not found in withdraw event") d
  shares ← get_number (text "shares") (text "shares not found in withdraw event") d
  id ← get_number (text "id") (text "id not found in withdraw event") d
  ok (record { owner = owner; receiver = receiver; amount = shares; withdraw_id = id })

pub record RateUpdateData : Type 0 where
  pub rate : Text

unfoldable pub extract_rate_update : EventData → Result RateUpdateData
extract_rate_update d = do
  rate ← get_number (text "newRate") (text "newRate not found in rate update event") d
  ok (record { rate = rate })
