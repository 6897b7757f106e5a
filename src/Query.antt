-- ===== src/Query.antt =====
-- What the code asks of the database client (supabase-go, postgrest-go), which is not part of the
-- repository: a query as the chain of calls builds it, and how its `Execute` and the unmarshalling
-- of its answer end.
pub mod Answers
pub mod First
pub mod Events
use vault_indexer.Prelude.{Text, ℕ, Bool, Option, List}

-- `Eq`, `Gt` and `Lte`, with the column and the value as they are passed.
pub data Filter : Type 0 where
  eq gt lte : Text → Text → Filter

-- `From(table).Select(columns, "", false)…`; `order` is the column and `Ascending`.
pub record Query : Type 0 where
  pub table : Text
  pub columns : Text
  pub filters : List Filter
  pub order : Option (Text × Bool)
  pub limit : Option ℕ
  pub single : Bool

-- An error of the request, a body that does not unmarshal, or the rows.
pub data Reply (A : Type 0) : Type 0 where
  failed malformed : Text → Reply A
  body : A → Reply A
