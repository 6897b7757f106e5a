-- ===== src/Ingestion/Last.antt =====
-- What getLastIndexedBlock (go-indexer/indexer/load-historical-events.go) returns, from what the database answers to
-- the query that it builds.
use vault_indexer.Prelude.{
  Text, ℤ, ◌≤ℤ◌, ◌≡◌, refl, ap, ◌∙◌, Option, none, some, List, [], ◌∷◌, All, All_of, Any, Result,
  ok, err, inl, inr, sym, contains, text,
}
use vault_indexer.Database.Events.{PublicEventsSelect}
use vault_indexer.Extractor.{AbiEvent}
use vault_indexer.Query.{Reply, failed, malformed, body}
use vault_indexer.Query.Answers.{Selected}
use vault_indexer.Query.First.{no_row, first_row}
use vault_indexer.Query.Events.{
  event_text, event_integer, block_column, contract_column, name_column, AllShown, EventReplies,
}
use vault_indexer.Ingestion.{Sources, last_query, last_indexed, get_last_indexed_block}

abbrev OfBoth : Text → Text → PublicEventsSelect → Type 0
OfBoth contract name e = (e.contract_address ≡ contract) × (e.event_name ≡ name)

-- Nothing, and the table has no event of the contract and the name; or the block of one, and none has a
-- higher block.
abbrev LastBlock : List PublicEventsSelect → Text → Text → Option ℤ → Type 0
LastBlock table contract name none = All (λ q. ¬ (OfBoth contract name q)) table
LastBlock table contract name (some n) =
    Any (λ q. OfBoth contract name q × (q.block_number ≡ n)) table
    × All (λ q. OfBoth contract name q → q.block_number ≤ℤ n) table

abbrev pub Outcome :
    List PublicEventsSelect
    → Text
    → Text
    → Reply (List PublicEventsSelect)
    → Result (Option ℤ)
    → Type 0
Outcome table contract name (failed e) result = result ≡ err e
Outcome table contract name (malformed e) result = result ≡ err e
Outcome table contract name (body es) result =
    (found : Option ℤ) × (result ≡ ok found) × LastBlock table contract name found

module _ (contract name : Text) where
  selects :
      (e : PublicEventsSelect)
      → OfBoth contract name e
      → Selected event_text event_integer (last_query contract name) e
  selects e (a, b) = (contract_column e ∙ ap some a, (name_column e ∙ ap some b, tt))

  selected :
      (e : PublicEventsSelect)
      → Selected event_text event_integer (last_query contract name) e
      → OfBoth contract name e
  selected e (a, (b, u)) = (let c = contract_column e in cc, let c = name_column e in cc)

  at_event :
      (e : PublicEventsSelect) (table : List PublicEventsSelect)
      → Any (λ q. q ≡ e) table
      → OfBoth contract name e
      → Any (λ q. OfBoth contract name q × (q.block_number ≡ e.block_number)) table
  at_event e [] a h = a
  at_event e (q ∷ table) (inl same) h = inl (
    (ap (λ r. r.contract_address) same ∙ h.0, ap (λ r. r.event_name) same ∙ h.1),
    ap (λ r. r.block_number) same,
  )
  at_event e (q ∷ table) (inr a) h = inr (at_event e table a h)

  shown :
      (r e : PublicEventsSelect)
      → AllShown (last_query contract name).columns (r ∷ []) (e ∷ [])
      → r.block_number ≡ e.block_number
  unfolding contains text
  shown r e (h, u) = h.0 refl

  last_indexed-Outcome :
      (table : List PublicEventsSelect) (reply : Reply (List PublicEventsSelect))
      → EventReplies (last_query contract name) table reply
      → Outcome table contract name reply (last_indexed reply)
  last_indexed-Outcome table (failed e) h = refl
  last_indexed-Outcome table (malformed e) h = refl
  last_indexed-Outcome table (body []) ([], h, s) = (
    none,
    refl,
    All_of (λ q k m. k (selects q m)) table (no_row event_text event_integer _ _ _ _ _ _ table h),
  )
  last_indexed-Outcome table (body []) (r ∷ rs, h, s) = absurd s
  last_indexed-Outcome table (body (e ∷ es)) ([], h, s) = absurd s
  last_indexed-Outcome table (body (e ∷ es)) (r ∷ rs, h, (s, ss)) =
      let (there, match, below) =
        first_row event_text event_integer _ _ _ _ _ _ (λ q. q.block_number) block_column table rs r
          h in
      (
        some r.block_number,
        ap (λ n. ok (some n)) (sym (shown r e (s, tt))),
        (at_event r table there (selected r match), All_of (λ q k m. k (selects q m)) table below),
      )

-- getLastIndexedBlock returns the highest block of the table's events of the contract and the name, and nothing
-- exactly if the table has none of them. A request that fails and an answer that does not unmarshal are its
-- errors.
-- The database answers the query that the code builds with the rows that satisfy its filters, in its
-- order and up to its limit.
pub get_last_indexed_block_correct :
    (sources : Sources) (contract : Text) (event : AbiEvent) (table : List PublicEventsSelect)
    → EventReplies
        (last_query contract event.name)
        table
        (sources.execute (last_query contract event.name))
    → Outcome table contract event.name
        (sources.execute (last_query contract event.name))
        (get_last_indexed_block sources contract event)
unfolding get_last_indexed_block
get_last_indexed_block_correct sources contract event table h =
    last_indexed-Outcome contract event.name table
      (sources.execute (last_query contract event.name)) h
