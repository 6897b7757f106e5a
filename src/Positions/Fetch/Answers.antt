-- ===== src/Positions/Fetch/Answers.antt =====
-- What the database answers to a query on the positions table, by the columns that
-- go-indexer/transformers/position-transformer.go filters and orders by.
use vault_indexer.Prelude.{
  Text, ℤ, ◌≡◌, Bool, true, Option, none, some, List, [], ◌∷◌, text, eq_text, if◌then◌else◌,
}
use vault_indexer.Database.{PublicPositionsSelect}
use vault_indexer.Query.Answers.{AnswersOf, RepliesOf}
use vault_indexer.Query.{Query, Reply, failed, malformed, body}

-- A column by its name.
unfoldable pub text_column : Text → PublicPositionsSelect → Option Text
text_column name p =
    if eq_text name (text "owner_address")
    then some p.owner_address
    else if eq_text name (text "contract_address")
    then some p.contract_address
    else none

unfoldable pub integer_column : Text → PublicPositionsSelect → Option ℤ
integer_column name p =
    if eq_text name (text "position_index_id") then some p.position_index_id else none

abbrev pub Answers : Query → List PublicPositionsSelect → List PublicPositionsSelect → Type 0
Answers = AnswersOf text_column integer_column

abbrev pub Replies :
    Query → List PublicPositionsSelect → Reply (List PublicPositionsSelect) → Type 0
Replies = RepliesOf text_column integer_column

-- The reply to a query with `Single()`, whose row has the columns that were selected, the index among them. A
-- table without such a row is reported by an error with one of the texts of `no_rows`.
abbrev pub RepliesSingle :
    (Text → Bool) → Query → List PublicPositionsSelect → Reply PublicPositionsSelect → Type 0
RepliesSingle no_rows q table (failed e) = no_rows e ≡ true → Answers q table []
RepliesSingle no_rows q table (malformed e) = Unit {0}
RepliesSingle no_rows q table (body p) =
    (r : PublicPositionsSelect) × Answers q table (r ∷ [])
    × (p.position_index_id ≡ r.position_index_id)
