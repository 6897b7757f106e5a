-- ===== src/Positions/Fetch/Latest.antt =====
-- What GetMostRecentPosition (go-indexer/transformers/position-transformer.go) finds, from what the database
-- answers to the query that it builds.
use vault_indexer.Prelude.{
  Text, ◌≤ℤ◌, ◌≡◌, refl, ap, ◌∙◌, true, false, Option, none, some, List, [], ◌∷◌, All, All_of, Any,
  Result, ok, err, eq_text, text, Bool-cases, inl, inr, ◌⊎◌,
}
use vault_indexer.Database.{PublicPositionsSelect}
use vault_indexer.Query.{Reply, failed, malformed, body}
use vault_indexer.Positions.{zero_address}
use vault_indexer.Positions.Fetch.{Client, latest_query, get_most_recent_position, most_recent}
use vault_indexer.Query.Answers.{Selected}
use vault_indexer.Query.First.{no_row, first_row}
use vault_indexer.Positions.Fetch.Answers.{text_column, integer_column, Answers, Replies}

-- The row is the owner's, in the contract.
abbrev Matches : Text → Text → PublicPositionsSelect → Type 0
Matches owner contract p = (p.owner_address ≡ owner) × (p.contract_address ≡ contract)

-- The row is one of the table and the owner's, and none of the owner's has a higher index.
abbrev pub IsLatest : List PublicPositionsSelect → Text → Text → PublicPositionsSelect → Type 0
IsLatest table owner contract p =
    Any (λ q. q ≡ p) table
    × Matches owner contract p
    × All (λ q. Matches owner contract q → q.position_index_id ≤ℤ p.position_index_id) table

-- The address is one that is looked up.
pub record IsOwner (db : Client) (owner : Text) : Type 0 where
  pub given : eq_text owner [] ≡ false
  pub account : eq_text owner zero_address ≡ false
  pub hex : db.is_hex_address owner ≡ true

-- What was found is the owner's latest row, and live; nothing was found if the owner has no row or the
-- latest is terminated.
abbrev pub Found : List PublicPositionsSelect → Text → Text → Option PublicPositionsSelect → Type 0
Found table owner contract none =
    All (λ q. ¬ (Matches owner contract q)) table
    ⊎ ((p : PublicPositionsSelect) × IsLatest table owner contract p × (p.is_terminated ≡ true))
Found table owner contract (some p) = IsLatest table owner contract p × (p.is_terminated ≡ false)

-- The result by the reply: a request that fails counts as no position.
abbrev pub Outcome :
    List PublicPositionsSelect
    → Text
    → Text
    → Reply (List PublicPositionsSelect)
    → Result (Option PublicPositionsSelect)
    → Type 0
Outcome table owner contract (failed e) result = result ≡ ok none
Outcome table owner contract (malformed e) result = result ≡ err e
Outcome table owner contract (body ps) result =
    (found : Option PublicPositionsSelect) × (result ≡ ok found) × Found table owner contract found

owner_column :
    (p : PublicPositionsSelect) → text_column (text "owner_address") p ≡ some p.owner_address
unfolding text_column eq_text text
owner_column p = refl

pub contract_column :
    (p : PublicPositionsSelect) → text_column (text "contract_address") p ≡ some p.contract_address
unfolding text_column eq_text text
contract_column p = refl

pub index_column :
    (p : PublicPositionsSelect)
    → integer_column (text "position_index_id") p ≡ some p.position_index_id
unfolding integer_column eq_text text
index_column p = refl

module _ (owner contract : Text) where
  matches :
      (p : PublicPositionsSelect)
      → Selected text_column integer_column (latest_query owner contract) p
      → Matches owner contract p
  matches p (a, (b, u)) = (let h = owner_column p in cc, let h = contract_column p in cc)

  selects :
      (p : PublicPositionsSelect)
      → Matches owner contract p
      → Selected text_column integer_column (latest_query owner contract) p
  selects p (a, b) = (owner_column p ∙ ap some a, (contract_column p ∙ ap some b, tt))

  no_match :
      (table : List PublicPositionsSelect)
      → Answers (latest_query owner contract) table []
      → All (λ q. ¬ (Matches owner contract q)) table
  no_match table a =
      All_of (λ r h m. h (selects r m)) table
        (no_row text_column integer_column _ _ _ _ _ _ table a)

  -- The first row of the answer is the owner's latest row.
  first-IsLatest :
      (table ps : List PublicPositionsSelect) (p : PublicPositionsSelect)
      → Answers (latest_query owner contract) table (p ∷ ps)
      → IsLatest table owner contract p
  first-IsLatest table ps p a =
      let (there, match, above) =
        first_row text_column integer_column _ _ _ _ _ _ (λ q. q.position_index_id) index_column
          table ps p a in
      (there, matches p match, All_of (λ r h m. h (selects r m)) table above)

  most_recent-Outcome :
      (table : List PublicPositionsSelect) (reply : Reply (List PublicPositionsSelect))
      → Replies (latest_query owner contract) table reply
      → Outcome table owner contract reply (most_recent reply)
  unfolding most_recent
  most_recent-Outcome table (failed e) h = refl
  most_recent-Outcome table (malformed e) h = refl
  most_recent-Outcome table (body []) h = (none, refl, inl (no_match table h))
  most_recent-Outcome table (body (p ∷ ps)) h = elim (Bool-cases p.is_terminated) [
    | inl over ↦ (none, rw over refl, inr (p, first-IsLatest table ps p h, over))
    | inr live ↦ (some p, rw live refl, (first-IsLatest table ps p h, live))
  ]

  pub get_most_recent_position-Found :
      (db : Client) (table ps : List PublicPositionsSelect)
      → IsOwner db owner
      → db.execute (latest_query owner contract) ≡ body ps
      → Answers (latest_query owner contract) table ps
      → (found : Option PublicPositionsSelect) × (get_most_recent_position db owner contract
          ≡ ok found)
        × Found table owner contract found
  unfolding get_most_recent_position
  get_most_recent_position-Found db table ps o e h =
      rw (o.given, o.account, o.hex, e) (most_recent-Outcome table (body ps) h)

  -- For an address that is looked up, GetMostRecentPosition returns the owner's row with the highest index
  -- in the contract if that row is live, and nothing if it is terminated or there is none. A request that
  -- fails gives nothing as well, and only an answer that does not unmarshal is an error.
  -- The database answers the query that the code builds with the rows that satisfy its filters, in its
  -- order and up to its limit.
  pub get_most_recent_position_correct :
      (db : Client) (table : List PublicPositionsSelect)
      → IsOwner db owner
      → Replies (latest_query owner contract) table (db.execute (latest_query owner contract))
      → Outcome table owner contract
          (db.execute (latest_query owner contract))
          (get_most_recent_position db owner contract)
  unfolding get_most_recent_position
  get_most_recent_position_correct db table o h =
      rw (o.given, o.account, o.hex)
        (most_recent-Outcome table (db.execute (latest_query owner contract)) h)
