-- ===== src/Positions/Fetch.antt =====
-- PositionTransformer's methods that read the positions table: GetMostRecentPosition,
-- getMaxPositionIndexId, and Transfer, Withdraw and Deposit, which compute from what these find.
pub mod Answers
pub mod Latest
pub mod Highest
pub mod Forgotten
pub mod Unique
mod Tests
use vault_indexer.Prelude.{
  Text, ℤ, pos, Bool, true, false, ◌||◌, not, Option, none, some, List, [], ◌∷◌, Result, ok, err,
  ◌>>=◌, text, eq_text, contains, if◌then◌else◌,
}
use vault_indexer.Database.{PublicPositionsSelect}
use vault_indexer.Query.{Query, Filter, Reply, failed, malformed, body}
use vault_indexer.Positions.{
  ProcessPosition, Changes, zero_address, compute_transfer, compute_withdraw, compute_deposit,
}

-- The database client, on a query for rows and on one with `Single()`, as the tables stand during the
-- call; and go-ethereum's test of an address.
pub record Client : Type 0 where
  pub execute : Query → Reply (List PublicPositionsSelect)
  pub execute_single : Query → Reply PublicPositionsSelect
  pub is_hex_address : Text → Bool

abbrev pub positions : Text
positions = text "positions"

-- `Eq("owner_address", …).Eq("contract_address", …).Order("position_index_id", descending).Limit(1)`
abbrev pub latest_query : Text → Text → Query
latest_query address contract_address = record {
  table = positions;
  columns = text "*";
  filters =
      Filter.eq (text "owner_address") address
      ∷ Filter.eq (text "contract_address") contract_address
      ∷ [];
  order = some (text "position_index_id", false);
  limit = some 1;
  single = false;
}

first_live : List PublicPositionsSelect → Option PublicPositionsSelect
first_live [] = none
first_live (p ∷ ps) = if p.is_terminated then none else some p

-- An error of the request is not returned: it counts as no position.
most_recent : Reply (List PublicPositionsSelect) → Result (Option PublicPositionsSelect)
unfolding first_live
most_recent (failed e) = ok none
most_recent (malformed e) = err e
most_recent (body ps) = ok (first_live ps)

unfoldable pub get_most_recent_position :
    Client → Text → Text → Result (Option PublicPositionsSelect)
unfolding most_recent
get_most_recent_position db address contract_address =
    if eq_text address [] || (eq_text address zero_address || not (db.is_hex_address address))
    then ok none
    else most_recent (db.execute (latest_query address contract_address))

abbrev pub max_query : Text → Query
max_query contract_address = record {
  table = positions;
  columns = text "position_index_id";
  filters = Filter.eq (text "contract_address") contract_address ∷ [];
  order = some (text "position_index_id", false);
  limit = some 1;
  single = true;
}

-- The answer to a query without rows.
unfoldable pub is_no_rows : Text → Bool
is_no_rows e = contains e (text "no rows") || contains e (text "PGRST116")

max_index : Reply PublicPositionsSelect → Result ℤ
max_index (failed e) = if is_no_rows e then ok (pos 0) else err e
max_index (malformed e) = err e
max_index (body p) = ok p.position_index_id

unfoldable pub get_max_position_index_id : Client → Text → Result ℤ
unfolding max_index
get_max_position_index_id db contract_address =
    max_index (db.execute_single (max_query contract_address))

abbrev no_changes : Changes
no_changes = record { inserts = []; updates = []; error = none }

-- `return nil, nil, err` where a read fails.
abbrev pub or_failure : Result Changes → Changes
or_failure (ok c) = c
or_failure (err e) = record { inserts = []; updates = []; error = some e }

-- A mint and a burn are left to Deposit and Withdraw.
unfoldable pub transfer : Client → ProcessPosition → Changes
transfer db args =
    if eq_text args.sender_address zero_address
    then no_changes
    else if eq_text args.receiver_address zero_address
    then no_changes
    else or_failure (do
      sender ← get_most_recent_position db args.sender_address args.contract_address
      receiver ← get_most_recent_position db args.receiver_address args.contract_address
      max_index ← get_max_position_index_id db args.contract_address
      ok (compute_transfer args sender receiver max_index))

unfoldable pub withdraw : Client → ProcessPosition → Changes
withdraw db args = or_failure (do
  sender ← get_most_recent_position db args.sender_address args.contract_address
  max_index ← get_max_position_index_id db args.contract_address
  ok (compute_withdraw args sender max_index))

unfoldable pub deposit : Client → ProcessPosition → Changes
deposit db args = or_failure (do
  sender ← get_most_recent_position db args.sender_address args.contract_address
  max_index ← get_max_position_index_id db args.contract_address
  ok (compute_deposit args sender max_index))
