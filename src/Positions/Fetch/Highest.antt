-- ===== src/Positions/Fetch/Highest.antt =====
-- What getMaxPositionIndexId (go-indexer/transformers/position-transformer.go) returns, from what the database
-- answers to the query that it builds.
use vault_indexer.Prelude.{Text, ℤ, pos, ◌≤ℤ◌, ◌≡◌, false, List, All, Any, Result, ok, err, ◌⊎◌}
use vault_indexer.Database.{PublicPositionsSelect}
use vault_indexer.Query.{Reply, failed, malformed, body}
use vault_indexer.Positions.Fetch.{is_no_rows}

-- The index of a row of the contract, and no row of it has a higher one.
abbrev IsHighest : List PublicPositionsSelect → Text → ℤ → Type 0
IsHighest table contract n =
    Any (λ q. (q.contract_address ≡ contract) × (q.position_index_id ≡ n)) table
    × All (λ q. q.contract_address ≡ contract → q.position_index_id ≤ℤ n) table

-- The result by the reply.
abbrev pub Returned :
    List PublicPositionsSelect → Text → Reply PublicPositionsSelect → Result ℤ → Type 0
Returned table contract (body p) result = (n : ℤ) × (result ≡ ok n) × IsHighest table contract n
Returned table contract (failed e) result =
    ((result ≡ ok (pos 0)) × All (λ q. ¬ (q.contract_address ≡ contract)) table)
    ⊎ ((is_no_rows e ≡ false) × (result ≡ err e))
Returned table contract (malformed e) result = result ≡ err e
