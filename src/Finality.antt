-- ===== src/Finality.antt =====
-- The FinalityProcessor (go-indexer/indexer/finality-processor.go): one turn of its loop for each block
-- tag, in which the next event behind the last validated block is checked against the chain.
pub mod Next
pub mod Ascending
pub mod Loop
pub mod Monotone
mod Tests
use vault_indexer.Prelude.{
  Text, ℤ, pos, Bool, true, false, Option, none, some, List, [], ◌∷◌, Result, ok, err, ◌>>=◌, text,
  print_ℤ, ltb_ℤ, if◌then◌else◌,
}
use vault_indexer.Database.Events.{
  PublicEventsSelect, PublicBlockFinalitySelect, PublicBlockFinalityUpdate, BlockFinalityUpsert,
  to_block_finality_upsert,
}
use vault_indexer.Query.{Query, Filter, Reply, failed, malformed, body}
use vault_indexer.Reorg.{Sources, check_canonical_block, first_event}

pub record ReorgEvent : Type 0 where
  pub block_number : ℤ
  pub block_hash : Text
  pub block_tag : Text

-- What a turn calls: the number of the block with a tag, the two reads of the database with the chain's
-- headers, and the upsert of a tag's row, which may fail.
pub record Calls : Type 0 where
  pub header_by_tag : Text → Result ℤ
  pub sources : Sources
  pub block_finality : Query → Reply (List PublicBlockFinalitySelect)
  pub upsert : BlockFinalityUpsert → Option Text

abbrev finality_query : Text → Query
finality_query block_tag = record {
  table = text "block_finality";
  columns = text "last_validated_block_number";
  filters = Filter.eq (text "block_tag") block_tag ∷ [];
  order = none;
  limit = none;
  single = false;
}

abbrev last_validated : Reply (List PublicBlockFinalitySelect) → Result ℤ
last_validated (failed e) = err e
last_validated (malformed e) = err e
last_validated (body []) = ok (pos 0)
last_validated (body (r ∷ rs)) = ok r.last_validated_block_number

unfoldable pub get_last_validated_block_number : Calls → Text → Result ℤ
get_last_validated_block_number calls block_tag =
    last_validated (calls.block_finality (finality_query block_tag))

-- `Gt("block_number", …).Limit(1).Order("block_number", ascending)`
abbrev pub next_query : ℤ → Query
next_query block_number = record {
  table = text "events";
  columns = text "id,block_number, block_hash";
  filters = Filter.gt (text "block_number") (print_ℤ block_number) ∷ [];
  order = some (text "block_number", true);
  limit = some 1;
  single = false;
}

unfoldable pub get_next_event_to_validate : Calls → ℤ → Result (Option PublicEventsSelect)
get_next_event_to_validate calls block_number =
    first_event (calls.sources.execute (next_query block_number))

-- How a turn ends: it waits for the next one, the row of a tag was written, or the event is reported.
pub data Verdict : Type 0 where
  waits : Verdict
  validated : BlockFinalityUpsert → Verdict
  reorg : ReorgEvent → Verdict

written : BlockFinalityUpsert → Option Text → Result Verdict
written row none = ok (validated row)
written row (some e) = err e

-- updateLastValidatedBlockNumber; the error of a nil pointer is a panic that cannot come.
unfoldable pub update_last_validated_block_number : Calls → Text → ℤ → Result Verdict
unfolding to_block_finality_upsert written
update_last_validated_block_number calls block_tag block_number =
    let row =
      to_block_finality_upsert
        (record { block_tag = some block_tag; last_validated_block_number = some block_number }) in
    elim row [ none ↦ err (text "nil pointer dereference") | some r ↦ written r (calls.upsert r) ]

abbrev pub settle : Calls → Text → PublicEventsSelect → Bool → Result Verdict
settle calls block_tag e true = update_last_validated_block_number calls block_tag e.block_number
settle calls block_tag e false = ok (
    reorg
      (record { block_number = e.block_number; block_hash = e.block_hash; block_tag = block_tag }))

-- The turn on the next event, if there is one.
abbrev pub validate : Calls → Text → ℤ → Option PublicEventsSelect → Result Verdict
validate calls block_tag last none = ok waits
validate calls block_tag last (some e) =
    if ltb_ℤ e.block_number last
    then ok waits
    else (check_canonical_block calls.sources e.block_number e.block_hash
        >>= settle calls block_tag e)

-- One turn for one tag. An error stops the processor. The number of the chain's block with the tag is
-- fetched, and used for nothing but the log.
unfoldable pub validate_tag : Calls → Text → Result Verdict
validate_tag calls block_tag = do
  current_block_number ← calls.header_by_tag block_tag
  last ← get_last_validated_block_number calls block_tag
  event ← get_next_event_to_validate calls last
  validate calls block_tag last event
