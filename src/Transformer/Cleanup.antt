-- ===== src/Transformer/Cleanup.antt =====
-- The cleanup after a reorg: `handleCleanupFromBlock` (go-indexer/indexer/transformer.go) and the
-- statements that the CleanupFromBlock of each transformer names (go-indexer/transformers).
pub mod Consistent
pub mod Reopened
use vault_indexer.Prelude.{
  ◌++◌, Text, ℕ, ◌+◌, ◌-◌, ◌≤◌, ◌<◌, ◌≡◌, refl, ℤ, pos, ltb_ℤ, leb_ℤ, Bool, true, false, not,
  Option, none, some, List, [], ◌∷◌, ◌++◌, map, Result, ok, err, ◌>>=◌, arith, if◌then◌else◌, ap,
  ◌∙◌, text, keep, All, keep-All, keep-of_All, map-All, map-of_All, ◌≤ℤ◌, ◌<ℤ◌,
}
use vault_indexer.Database.{
  PublicPositionsSelect, PublicWithdrawRequestsSelect, PublicRateUpdatesSelect, PositionUpdate,
}
use vault_indexer.Database.Events.{PublicEventsSelect}

pub record Tables : Type 0 where
  pub withdraw_requests : List PublicWithdrawRequestsSelect
  pub rate_updates : List PublicRateUpdatesSelect
  pub positions : List PublicPositionsSelect
  pub events : List PublicEventsSelect

-- DELETE FROM withdraw_requests WHERE block_number > $1;
-- DELETE FROM rate_updates WHERE block_number > $1;
-- DELETE FROM positions WHERE position_start_height > $1;
-- UPDATE positions SET is_terminated = false, position_end_height = null,
--   withdraw_receiver_address = null where position_end_height > $1;
-- DELETE FROM events WHERE block_number >= $1
pub data Sql : Type 0 where
  delete_withdraw_requests : Sql
  delete_rate_updates : Sql
  delete_positions : Sql
  reopen_positions : Sql
  delete_events : Sql

-- A comparison with a null height is not true.
abbrev pub ends_after : ℤ → Option ℤ → Bool
ends_after n none = false
ends_after n (some h) = ltb_ℤ n h

abbrev pub reopen : ℤ → PublicPositionsSelect → PublicPositionsSelect
reopen n p =
    if ends_after n p.position_end_height
    then record {
      amount_shares = p.amount_shares;
      contract_address = p.contract_address;
      created_at = p.created_at;
      id = p.id;
      is_terminated = false;
      owner_address = p.owner_address;
      position_end_height = none;
      position_index_id = p.position_index_id;
      position_start_height = p.position_start_height;
      withdraw_receiver_address = none;
    }
    else p

-- The statement on the tables, with the block number for `$1`.
unfoldable pub run_sql : Sql → ℤ → Tables → Tables
run_sql delete_withdraw_requests n t = record {
  withdraw_requests = keep (λ r. leb_ℤ r.block_number n) t.withdraw_requests;
  rate_updates = t.rate_updates;
  positions = t.positions;
  events = t.events;
}
run_sql delete_rate_updates n t = record {
  withdraw_requests = t.withdraw_requests;
  rate_updates = keep (λ r. leb_ℤ r.block_number n) t.rate_updates;
  positions = t.positions;
  events = t.events;
}
run_sql delete_positions n t = record {
  withdraw_requests = t.withdraw_requests;
  rate_updates = t.rate_updates;
  positions = keep (λ p. leb_ℤ p.position_start_height n) t.positions;
  events = t.events;
}
run_sql reopen_positions n t = record {
  withdraw_requests = t.withdraw_requests;
  rate_updates = t.rate_updates;
  positions = map (reopen n) t.positions;
  events = t.events;
}
run_sql delete_events n t = record {
  withdraw_requests = t.withdraw_requests;
  rate_updates = t.rate_updates;
  positions = t.positions;
  events = keep (λ e. ltb_ℤ e.block_number n) t.events;
}

-- CleanupFromBlock of each transformer.
abbrev withdraw_request_statements : List Sql
withdraw_request_statements = delete_withdraw_requests ∷ []

abbrev rate_update_statements : List Sql
rate_update_statements = delete_rate_updates ∷ []

abbrev position_statements : List Sql
position_statements = delete_positions ∷ reopen_positions ∷ []

abbrev pub cleanup_statements : List Sql
cleanup_statements = withdraw_request_statements ++ rate_update_statements ++ position_statements

-- What the database answers: the error of a call, if it has one.
pub record Database : Type 0 where
  pub begin : Option Text
  pub exec : Sql → Option Text
  pub commit : Option Text

abbrev pub or_error {ℓ} : {A : Type ℓ} → Option Text → A → Result A
or_error none a = ok a
or_error (some e) a = err e

module _ (db : Database) where
  unfoldable pub exec_all : List Sql → ℤ → Tables → Result Tables
  unfolding run_sql
  exec_all [] n tx = ok tx
  exec_all (s ∷ ss) n tx = or_error (db.exec s) (run_sql s n tx) >>= exec_all ss n

  -- The tables that are committed then; those from before stay where it returns an error, since every
  -- error before the commit rolls the transaction back.
  unfoldable pub handle_cleanup_from_block : Bool → ℤ → Tables → Result Tables
  unfolding exec_all
  handle_cleanup_from_block false n t =
      err (text "transformer is not halted, cannot safely do reorg cleanup")
  handle_cleanup_from_block true n t = do
    tx ← or_error db.begin t
    cleaned ← exec_all cleanup_statements n tx
    done ← exec_all (delete_events ∷ []) n cleaned
    or_error db.commit done
