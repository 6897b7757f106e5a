-- ===== src/Query/Events.antt =====
-- The columns of the events table that the indexer filters and orders by, by their names, and what an answer
-- shows of its rows.
use vault_indexer.Prelude.{
  Text, ℤ, ◌≡◌, refl, true, Option, none, some, List, [], ◌∷◌, text, eq_text, contains,
  if◌then◌else◌,
}
use vault_indexer.Query.{Query, Reply, failed, malformed, body}
use vault_indexer.Query.Answers.{AnswersOf}
use vault_indexer.Database.Events.{PublicEventsSelect}

unfoldable pub event_text : Text → PublicEventsSelect → Option Text
event_text name e =
    if eq_text name (text "contract_address")
    then some e.contract_address
    else if eq_text name (text "event_name")
    then some e.event_name
    else none

unfoldable pub event_integer : Text → PublicEventsSelect → Option ℤ
event_integer name e = if eq_text name (text "block_number") then some e.block_number else none

pub block_column :
    (e : PublicEventsSelect) → event_integer (text "block_number") e ≡ some e.block_number
unfolding event_integer eq_text text
block_column e = refl

pub contract_column :
    (e : PublicEventsSelect) → event_text (text "contract_address") e ≡ some e.contract_address
unfolding event_text eq_text text
contract_column e = refl

pub name_column : (e : PublicEventsSelect) → event_text (text "event_name") e ≡ some e.event_name
unfolding event_text eq_text text
name_column e = refl

-- What is unmarshalled of a row, of the columns that are read: those that the query selects.
abbrev Shown : Text → PublicEventsSelect → PublicEventsSelect → Type 0
Shown columns r e =
    (contains columns (text "block_number") ≡ true → r.block_number ≡ e.block_number)
    × (contains columns (text "block_hash") ≡ true → r.block_hash ≡ e.block_hash)
    × (contains columns (text "id") ≡ true → r.id ≡ e.id)

abbrev pub AllShown : Text → List PublicEventsSelect → List PublicEventsSelect → Type 0
AllShown columns [] [] = Unit {0}
AllShown columns [] (e ∷ es) = ⊥
AllShown columns (r ∷ rs) [] = ⊥
AllShown columns (r ∷ rs) (e ∷ es) = Shown columns r e × AllShown columns rs es

-- A request may fail, and its answer may not unmarshal.
abbrev pub EventReplies : Query → List PublicEventsSelect → Reply (List PublicEventsSelect) → Type 0
EventReplies q table (failed e) = Unit {0}
EventReplies q table (malformed e) = Unit {0}
EventReplies q table (body es) =
    (rs : List PublicEventsSelect) × AnswersOf event_text event_integer q table rs
    × AllShown q.columns rs es
