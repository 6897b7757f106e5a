-- ===== src/Positions/Fetch/Forgotten.antt =====
-- A deposit (`Deposit` of go-indexer/transformers/position-transformer.go) whose look-up fails, and what is
-- found of the owner after it.
use vault_indexer.Prelude.{
  Text, ℕ, ◌+◌, ◌<◌, ◌^◌, pos, ◌≤ℤ◌, ◌≡◌, refl, ap, subst, ◌∙◌, sym, false, Option, none, some,
  List, [], ◌∷◌, All, Any, ok, arith, inl, inr, inc_int64_lem,
}
use vault_indexer.Database.{PublicPositionsSelect, PositionInsert}
use vault_indexer.Query.{failed, body}
use vault_indexer.Positions.{ProcessPosition, first_position, compute_deposit}
use vault_indexer.Positions.Amounts.{to_int64_lem}
use vault_indexer.Positions.Fetch.{
  Client, latest_query, max_query, get_most_recent_position, most_recent, deposit,
}
use vault_indexer.Positions.Fetch.Answers.{Answers}
use vault_indexer.Positions.Fetch.Latest.{IsLatest, IsOwner, Found, get_most_recent_position-Found}
use vault_indexer.Positions.Fetch.Unique.{IsMaxOf, bounded, found_max}

-- A row for the deposited amount and no more, under the index after `m`.
abbrev pub alone : ProcessPosition → ℕ → PositionInsert
alone args m = record {
  position_index_id = pos (m + 1);
  owner_address = args.sender_address;
  contract_address = args.contract_address;
  amount_shares = args.amount_shares;
  position_start_height = pos args.block_number;
  withdraw_receiver_address = none;
}

-- The row that the table then has; the database gives it its id and its time.
abbrev pub stored : Text → Text → PositionInsert → PublicPositionsSelect
stored id created_at r = record {
  amount_shares = r.amount_shares;
  contract_address = r.contract_address;
  created_at = created_at;
  id = id;
  is_terminated = false;
  owner_address = r.owner_address;
  position_end_height = none;
  position_index_id = r.position_index_id;
  position_start_height = r.position_start_height;
  withdraw_receiver_address = r.withdraw_receiver_address;
}

-- A row of the contract in a table whose indices are `m` at most is not the latest where one is above.
below_absurd :
    (contract : Text) (m : ℕ) (p : PublicPositionsSelect) (table : List PublicPositionsSelect)
    → All (λ q. q.contract_address ≡ contract → q.position_index_id ≤ℤ pos m) table
    → Any (λ q. q ≡ p) table
    → p.contract_address ≡ contract
    → pos (m + 1) ≤ℤ p.position_index_id
    → ⊥
below_absurd contract m p [] h a c top = a
below_absurd contract m p (q ∷ table) (h, hs) (inl e) c top =
    let l : p.position_index_id ≤ℤ pos m =
      subst (λ r. r.contract_address ≡ contract → r.position_index_id ≤ℤ pos m) e h c in
    omega (arith, l, top)
below_absurd contract m p (q ∷ table) (h, hs) (inr a) c top =
    below_absurd contract m p table hs a c top

module _ (args : ProcessPosition) (m : ℕ) (id created_at : Text)
    (table : List PublicPositionsSelect)
    (highest : All
      (λ q. q.contract_address ≡ args.contract_address → q.position_index_id ≤ℤ pos m)
      table) where
  abbrev row : PublicPositionsSelect
  row = stored id created_at (alone args m)

  row_latest :
      (p : PublicPositionsSelect)
      → IsLatest (row ∷ table) args.sender_address args.contract_address p
      → row ≡ p
  row_latest p (inl e, match, above) = e
  row_latest p (inr a, match, above) =
      absurd (below_absurd args.contract_address m p table highest a match.1 (above.0 (refl, refl)))

  only_row :
      (found : Option PublicPositionsSelect)
      → Found (row ∷ table) args.sender_address args.contract_address found
      → found ≡ some row
  only_row none (inl n) = absurd (n.0 (refl, refl))
  only_row none (inr (p, latest, over)) =
      let e = ap (λ q. q.is_terminated) (row_latest p latest) in absurd (ground arith)
  only_row (some p) (latest, live) = ap some (sym (row_latest p latest))

deposit-alone :
    (db : Client) (args : ProcessPosition) (e : Text) (m : ℕ) (table : List PublicPositionsSelect)
    → m + 2 < 2 ^ 63
    → args.block_number < 2 ^ 63
    → IsOwner db args.sender_address
    → db.execute (latest_query args.sender_address args.contract_address) ≡ failed e
    → IsMaxOf table args.contract_address m (db.execute_single (max_query args.contract_address))
    → deposit db args ≡ record { inserts = alone args m ∷ []; updates = []; error = none }
unfolding deposit compute_deposit first_position get_most_recent_position most_recent
deposit-alone db args e m table room block o failure top =
    rw
      (
        o.given,
        o.account,
        o.hex,
        failure,
        found_max db args table m room top,
        inc_int64_lem m (omega arith),
        to_int64_lem args.block_number block,
      )
      refl

-- A deposit whose look-up fails opens a row for the deposited amount alone, under an index above all
-- rows of the contract, and closes none, whatever rows the owner has. From then on the look-up of the owner, if
-- its request succeeds, finds that row: the shares of the rows before it are no longer counted.
pub failed_deposit-forgets :
    (db later : Client) (args : ProcessPosition) (e id created_at : Text) (m : ℕ)
    (table ps : List PublicPositionsSelect)
    → m + 2 < 2 ^ 63
    → args.block_number < 2 ^ 63
    → IsOwner db args.sender_address
    → db.execute (latest_query args.sender_address args.contract_address) ≡ failed e
    → IsMaxOf table args.contract_address m (db.execute_single (max_query args.contract_address))
    → IsOwner later args.sender_address
    → later.execute (latest_query args.sender_address args.contract_address) ≡ body ps
    → Answers
        (latest_query args.sender_address args.contract_address)
        (stored id created_at (alone args m) ∷ table)
        ps
    → (deposit db args ≡ record { inserts = alone args m ∷ []; updates = []; error = none })
      × (get_most_recent_position later args.sender_address args.contract_address
          ≡ ok (some (stored id created_at (alone args m))))
failed_deposit-forgets db later args e id created_at m table ps room block o failure top o' reply
      a =
    let owner = args.sender_address in
    let contract = args.contract_address in
    let after = stored id created_at (alone args m) ∷ table in
    let (found, result, h) =
      get_most_recent_position-Found owner contract later after ps o' reply a in
    let is_row = only_row args m id created_at table (bounded table contract m _ top) found h in
    (deposit-alone db args e m table room block o failure top, result ∙ ap ok is_row)
