-- ===== src/DataCheck.antt =====
-- The data check (go-indexer/scripts/data-check.go): the rows of each table and contract in a local database
-- are compared with those in the remote one.
pub mod Columns
pub mod Compare
pub mod Environment
pub mod Script
pub mod Success
pub mod Run
mod Tests
use vault_indexer.Prelude.{
  Text, ℕ, suc, ◌==◌, ℤ, pos, eqb_ℤ, Bool, true, false, not, ◌&&◌, ◌||◌, Option, none, some, List,
  [], ◌∷◌, ◌++◌, length, Result, ok, err, ◌>>=◌, text, eq_text, if◌then◌else◌,
}
use vault_indexer.Database.{
  PublicPositionsSelect, PublicWithdrawRequestsSelect, PublicRateUpdatesSelect,
}
use vault_indexer.Database.Events.{PublicEventsSelect, RawData}

-- The tables of the comparators.
pub data Table : Type 0 where
  events_table rate_updates_table withdraw_requests_table positions_table : Table

-- What a ScanRowsFn returns, as `any`.
pub data Rows : Type 0 where
  events : List PublicEventsSelect → Rows
  rate_updates : List PublicRateUpdatesSelect → Rows
  withdraw_requests : List PublicWithdrawRequestsSelect → Rows
  positions : List PublicPositionsSelect → Rows

-- The errors of a CompareFn, by what their texts tell: rows of another type, the two counts, or the index of
-- the first pair that differs.
pub data Difference : Type 0 where
  input_types : Difference
  row_count : ℕ → ℕ → Difference
  mismatch : ℕ → Difference

-- The loop over the indices of two slices of one length.
unfoldable pub compare_loop {ℓ} :
    {A : Type ℓ} → (A → A → Bool) → ℕ → List A → List A → Option Difference
compare_loop same i [] rs = none
compare_loop same i (l ∷ ls) [] = none
compare_loop same i (l ∷ ls) (r ∷ rs) =
    let rest = compare_loop same (suc i) ls rs in if same l r then rest else some (mismatch i)

abbrev pub compare_slices {ℓ} : {A : Type ℓ} → (A → A → Bool) → List A → List A → Option Difference
compare_slices same l r =
    if not (length l == length r)
    then some (row_count (length l) (length r))
    else compare_loop same 0 l r

abbrev pub same_event : PublicEventsSelect → PublicEventsSelect → Bool
same_event l r =
    eqb_ℤ l.block_number r.block_number
    && eq_text l.event_name r.event_name
    && eqb_ℤ l.log_index r.log_index
    && eq_text l.transaction_hash r.transaction_hash

abbrev pub same_rate_update : PublicRateUpdatesSelect → PublicRateUpdatesSelect → Bool
same_rate_update l r = eq_text l.rate r.rate && eqb_ℤ l.block_number r.block_number

abbrev pub same_withdraw_request :
    PublicWithdrawRequestsSelect → PublicWithdrawRequestsSelect → Bool
same_withdraw_request l r =
    eq_text l.amount r.amount
    && eqb_ℤ l.block_number r.block_number
    && eq_text l.receiver_address r.receiver_address
    && eqb_ℤ l.withdraw_id r.withdraw_id

-- compareInt64Ptr and compareStringPtr
abbrev pub compare_ptr {ℓ} : {A : Type ℓ} → (A → A → Bool) → Option A → Option A → Bool
compare_ptr same none none = true
compare_ptr same none (some b) = false
compare_ptr same (some a) none = false
compare_ptr same (some a) (some b) = same a b

abbrev pub eq_bool : Bool → Bool → Bool
eq_bool true b = b
eq_bool false b = not b

abbrev pub same_position : PublicPositionsSelect → PublicPositionsSelect → Bool
same_position l r =
    eq_text l.amount_shares r.amount_shares
    && eq_bool l.is_terminated r.is_terminated
    && eq_text l.owner_address r.owner_address
    && compare_ptr eqb_ℤ l.position_end_height r.position_end_height
    && eqb_ℤ l.position_index_id r.position_index_id
    && eqb_ℤ l.position_start_height r.position_start_height
    && compare_ptr eq_text l.withdraw_receiver_address r.withdraw_receiver_address

unfoldable pub compare_events : Rows → Rows → Option Difference
compare_events (events l) (events r) = compare_slices same_event l r
compare_events _ _ = some input_types

unfoldable pub compare_rate_updates : Rows → Rows → Option Difference
compare_rate_updates (rate_updates l) (rate_updates r) = compare_slices same_rate_update l r
compare_rate_updates _ _ = some input_types

unfoldable pub compare_withdraw_requests : Rows → Rows → Option Difference
compare_withdraw_requests (withdraw_requests l) (withdraw_requests r) =
    compare_slices same_withdraw_request l r
compare_withdraw_requests _ _ = some input_types

unfoldable pub compare_positions : Rows → Rows → Option Difference
compare_positions (positions l) (positions r) = compare_slices same_position l r
compare_positions _ _ = some input_types

-- The CompareFn of a table.
abbrev pub compare_fn : Table → Rows → Rows → Option Difference
compare_fn events_table = compare_events
compare_fn rate_updates_table = compare_rate_updates
compare_fn withdraw_requests_table = compare_withdraw_requests
compare_fn positions_table = compare_positions
