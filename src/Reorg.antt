-- ===== src/Reorg.antt =====
-- The search for the block to go back to after a reorg: `findLastConsistentBlock` and
-- `getNearestIngestedEvent` (go-indexer/indexer/reorg-handler.go), and CheckCanonicalBlock
-- (go-indexer/indexer/utils.go).
pub mod Search
pub mod Nearest
pub mod Halt
pub mod Handler
mod Tests
use vault_indexer.Prelude.{
  Text, ℕ, zero, suc, ℤ, Bool, true, false, Option, none, some, List, [], ◌∷◌, ◌++◌, Result, ok,
  err, ◌>>=◌, text, print_ℤ, eqb_ℤ, dec_int64,
}
use vault_indexer.Database.Events.{PublicEventsSelect}
use vault_indexer.Query.{Query, Filter, Reply, failed, malformed, body}

-- The answer of the chain client to HeaderByHash: the number of the block, `ethereum.NotFound`, or
-- another error.
pub data Header : Type 0 where
  found : ℤ → Header
  not_found : Header
  unavailable : Text → Header

-- The chain client, and the database client on the events table, as they answer during the search.
pub record Sources : Type 0 where
  pub header_by_hash : Text → Header
  pub execute : Query → Reply (List PublicEventsSelect)

canonical : ℤ → Header → Result Bool
canonical block_number (found number) = ok (eqb_ℤ block_number number)
canonical block_number not_found = ok false
canonical block_number (unavailable e) = err e

unfoldable pub check_canonical_block : Sources → ℤ → Text → Result Bool
unfolding canonical
check_canonical_block sources block_number block_hash =
    canonical block_number (sources.header_by_hash block_hash)

-- `Lte("block_number", …).Limit(1).Order("block_number", descending)`
abbrev pub nearest_query : ℤ → Query
nearest_query block_number = record {
  table = text "events";
  columns = text "block_number, block_hash";
  filters = Filter.lte (text "block_number") (print_ℤ block_number) ∷ [];
  order = some (text "block_number", false);
  limit = some 1;
  single = false;
}

abbrev pub first_event : Reply (List PublicEventsSelect) → Result (Option PublicEventsSelect)
first_event (Reply.failed e) = err e
first_event (malformed e) = err e
first_event (body []) = ok none
first_event (body (e ∷ es)) = ok (some e)

unfoldable pub get_nearest_ingested_event : Sources → ℤ → Result (Option PublicEventsSelect)
get_nearest_ingested_event sources block_number =
    first_event (sources.execute (nearest_query block_number))

-- The block, if it is canonical, and else the rest of the search.
abbrev pub judge : ℤ → Result Bool → Option (Result ℤ) → Option (Result ℤ)
judge block_number (err e) rest = some (err e)
judge block_number (ok true) rest = some (ok block_number)
judge block_number (ok false) rest = rest

module _ (sources : Sources) where
  -- One round of the loop on the event that was found.
  abbrev pub round :
      ℤ → Result (Option PublicEventsSelect) → (ℤ → Option (Result ℤ)) → Option (Result ℤ)
  round from_block (err e) rest = some (err e)
  round from_block (ok none) rest =
      some (err (text "no nearest ingested event found for block " ++ print_ℤ from_block))
  round from_block (ok (some e)) rest =
      judge e.block_number (check_canonical_block sources e.block_number e.block_hash)
        (rest (dec_int64 e.block_number))

  -- The rounds of the loop; `none` if there are more than the fuel allows.
  unfoldable pub search : ℕ → ℤ → Option (Result ℤ)
  search zero from_block = none
  search (suc f) from_block =
      round from_block (get_nearest_ingested_event sources from_block) (search f)

  unfoldable pub find_last_consistent_block : ℕ → ℤ → Option (Result ℤ)
  find_last_consistent_block f reorg_detected_block = search f (dec_int64 reorg_detected_block)
