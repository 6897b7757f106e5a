-- ===== src/Positions/Fetch/Tests.antt =====
-- The reads on a table with two rows of one owner, and with a request that fails.
use vault_indexer.Prelude.{
  ◌≡◌, refl, pos, true, none, List, [], ◌∷◌, All, inl, inr, ℤ, ◌≤ℤ◌, ok, text, some, eq_text, arith,
}
use vault_indexer.Database.{PublicPositionsSelect}
use vault_indexer.Query.{failed, body}
use vault_indexer.Positions.Tests.{row, forty, alice, vault}
use vault_indexer.Positions.Numbering.{NumberedFrom}
use vault_indexer.Positions.Fetch.{
  Client, latest_query, get_most_recent_position, deposit, transfer, withdraw,
}
use vault_indexer.Positions.Fetch.Answers.{text_column, integer_column, Answers}
use vault_indexer.Positions.Fetch.Latest.{IsOwner, Outcome, get_most_recent_position_correct}
use vault_indexer.Positions.Fetch.Forgotten.{alone, stored, failed_deposit-forgets}
use vault_indexer.Positions.Fetch.Unique.{IsNew, rows-IsNew}

abbrev p1 : PublicPositionsSelect
p1 = row (text "p1") alice 100

abbrev table : List PublicPositionsSelect
table = p1 ∷ []

abbrev db : Client
db = record {
  execute = λ q. body (p1 ∷ []);
  execute_single = λ q. body p1;
  is_hex_address = λ a. true;
}

-- A client that answers `Single()` alone.
abbrev broken : Client
broken = record {
  execute = λ q. failed (text "timeout");
  execute_single = λ q. body p1;
  is_hex_address = λ a. true;
}

alice-IsOwner : IsOwner db alice
unfolding eq_text text
alice-IsOwner = record { given = refl; account = refl; hex = refl }

alice-IsOwner-broken : IsOwner broken alice
unfolding eq_text text
alice-IsOwner-broken = record { given = refl; account = refl; hex = refl }

-- The answer on that table is its row.
answer : Answers (latest_query alice vault) table (p1 ∷ [])
unfolding text_column eq_text text
answer = record {
  selected = ((inl refl, (refl, (refl, tt))), tt);
  ordered = (tt, tt);
  within = tt;
  complete = ((λ s. inl (inl refl)), tt);
}

get_most_recent_position_correct_example :
    Outcome table alice vault (body (p1 ∷ [])) (get_most_recent_position db alice vault)
get_most_recent_position_correct_example =
    get_most_recent_position_correct alice vault db table alice-IsOwner answer

abbrev new_row : PublicPositionsSelect
new_row = stored (text "p2") [] (alone forty 3)

-- After the deposit, the client answers with the row that it has opened.
abbrev later : Client
later = record {
  execute = λ q. body (new_row ∷ []);
  execute_single = λ q. body new_row;
  is_hex_address = λ a. true;
}

alice-IsOwner-later : IsOwner later alice
unfolding eq_text text
alice-IsOwner-later = record { given = refl; account = refl; hex = refl }

lower : (a b : ℤ) → some (pos 4) ≡ some a → some (pos 3) ≡ some b → b ≤ℤ a
lower a b p q = let e : a ≡ pos 4 = cc in let e' : b ≡ pos 3 = cc in rw (e, e') (omega arith)

answer_later : Answers (latest_query alice vault) (new_row ∷ table) (new_row ∷ [])
unfolding text_column integer_column eq_text text
answer_later = record {
  selected = ((inl refl, (refl, (refl, tt))), tt);
  ordered = (tt, tt);
  within = tt;
  complete = ((λ s. inl (inl refl)), ((λ s. inr (tt, (lower, tt))), tt));
}

failed_deposit-forgets_example :
    (deposit broken forty ≡ record { inserts = alone forty 3 ∷ []; updates = []; error = none })
    × (get_most_recent_position later alice vault ≡ ok (some new_row))
failed_deposit-forgets_example =
    failed_deposit-forgets broken later forty (text "timeout") (text "p2") [] 3 table (new_row ∷ [])
      (omega arith) (omega arith) alice-IsOwner-broken refl (refl, ((λ c. omega arith), tt))
      alice-IsOwner-later refl answer_later

rows-IsNew_example :
    (All (IsNew table vault) (transfer db forty).inserts
      × NumberedFrom 4 (transfer db forty).inserts)
    × (All (IsNew table vault) (withdraw db forty).inserts
        × NumberedFrom 4 (withdraw db forty).inserts)
    × (All (IsNew table vault) (deposit db forty).inserts
        × NumberedFrom 4 (deposit db forty).inserts)
rows-IsNew_example = rows-IsNew db forty table 3 (omega arith) (refl, ((λ c. omega arith), tt))
