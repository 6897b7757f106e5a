-- ===== src/Positions/Fetch/Unique.antt =====
-- The index of a row that is written, against the unique index of the positions table on the contract
-- and the row's index (supabase/migrations/20250527235330_create_tables.sql).
use vault_indexer.Prelude.{
  Text, ℕ, ◌+◌, ◌<◌, ◌^◌, pos, ◌≤ℤ◌, ◌<ℤ◌, ◌≡◌, refl, true, Option, List, [], ◌∷◌, All, Result, ok,
  err, ◌>>=◌, eq_text, Bool-cases, inl, inr, arith,
}
use vault_indexer.Database.{PublicPositionsSelect, PositionInsert}
use vault_indexer.Query.{Reply, body, failed}
use vault_indexer.Positions.{
  ProcessPosition, zero_address, compute_transfer, compute_withdraw, compute_deposit,
}
use vault_indexer.Positions.Numbering.{
  NumberedFrom, compute_transfer-NumberedFrom, compute_withdraw-NumberedFrom,
  compute_deposit-NumberedFrom,
}
use vault_indexer.Positions.Fetch.{
  Client, max_query, is_no_rows, max_index, get_most_recent_position, get_max_position_index_id,
  transfer, withdraw, deposit, or_failure,
}

-- The reply to the query for the contract's highest index: the row with it, or the answer of a table
-- without rows of the contract, for which the code takes 0.
abbrev pub IsMaxOf : List PublicPositionsSelect → Text → ℕ → Reply PublicPositionsSelect → Type 0
IsMaxOf table contract m (body p) =
    (p.position_index_id ≡ pos m)
    × All (λ q. q.contract_address ≡ contract → q.position_index_id ≤ℤ pos m) table
IsMaxOf table contract m (failed e) =
    (is_no_rows e ≡ true) × (m ≡ 0) × All (λ q. ¬ (q.contract_address ≡ contract)) table
IsMaxOf table contract m (Reply.malformed e) = ⊥

-- No row of the contract in the table has the row's index or a higher one.
abbrev pub IsNew : List PublicPositionsSelect → Text → PositionInsert → Type 0
IsNew table contract r =
    All (λ q. q.contract_address ≡ contract → q.position_index_id <ℤ r.position_index_id) table

max_index-IsMaxOf :
    (table : List PublicPositionsSelect) (contract : Text) (m : ℕ)
    (reply : Reply PublicPositionsSelect)
    → IsMaxOf table contract m reply
    → max_index reply ≡ ok (pos m)
unfolding max_index
max_index-IsMaxOf table contract m (body p) h = rw h.0 refl
max_index-IsMaxOf table contract m (failed e) h = rw (h.0, h.1) refl
max_index-IsMaxOf table contract m (Reply.malformed e) h = absurd h

pub bounded :
    (table : List PublicPositionsSelect) (contract : Text) (m : ℕ)
    (reply : Reply PublicPositionsSelect)
    → IsMaxOf table contract m reply
    → All (λ q. q.contract_address ≡ contract → q.position_index_id ≤ℤ pos m) table
bounded table contract m (body p) h = h.1
bounded table contract m (failed e) h = never table h.2
  where
    never :
        (rows : List PublicPositionsSelect)
        → All (λ q. ¬ (q.contract_address ≡ contract)) rows
        → All (λ q. q.contract_address ≡ contract → q.position_index_id ≤ℤ pos m) rows
    never [] n = tt
    never (q ∷ rows) n = (λ e. absurd (n.0 e), never rows n.1)
bounded table contract m (Reply.malformed e) h = absurd h

one-IsNew :
    (table : List PublicPositionsSelect) (contract : Text) (m k : ℕ) (r : PositionInsert)
    → m < k
    → r.position_index_id ≡ pos k
    → All (λ q. q.contract_address ≡ contract → q.position_index_id ≤ℤ pos m) table
    → IsNew table contract r
one-IsNew [] contract m k r l e h = tt
one-IsNew (q ∷ table) contract m k r l e h =
    (λ c. rw e (omega (arith, h.0 c)), one-IsNew table contract m k r l e h.1)

all-IsNew :
    (table : List PublicPositionsSelect) (contract : Text) (m k : ℕ) (rs : List PositionInsert)
    → m < k
    → NumberedFrom k rs
    → All (λ q. q.contract_address ≡ contract → q.position_index_id ≤ℤ pos m) table
    → All (IsNew table contract) rs
all-IsNew table contract m k [] l n h = tt
all-IsNew table contract m k (r ∷ rs) l n h = (
  one-IsNew table contract m k r l n.0 h,
  all-IsNew table contract m (k + 1) rs (omega arith) n.1 h,
)

module _ (db : Client) (args : ProcessPosition) (table : List PublicPositionsSelect) (m : ℕ)
    (room : m + 2 < 2 ^ 63)
    (h : IsMaxOf table args.contract_address m
      (db.execute_single (max_query args.contract_address))) where
  pub found_max : get_max_position_index_id db args.contract_address ≡ ok (pos m)
  unfolding get_max_position_index_id
  found_max = max_index-IsMaxOf table args.contract_address m _ h

  transfer-NumberedFrom : NumberedFrom (m + 1) (transfer db args).inserts
  unfolding transfer
  transfer-NumberedFrom = elim (Bool-cases (eq_text args.sender_address zero_address)) [
    | inl mint ↦ rw mint tt
    | inr account ↦ elim (Bool-cases (eq_text args.receiver_address zero_address)) [
      | inl burn ↦ rw (account, burn) tt
      | inr both ↦
          rw (account, both, found_max)
            (read (get_most_recent_position db args.sender_address args.contract_address)
              (get_most_recent_position db args.receiver_address args.contract_address))
    ]
  ]
    where
      read :
          (s r : Result (Option PublicPositionsSelect))
          → NumberedFrom
              (m + 1)
              (or_failure (
                s >>= λ sender.
                r >>= λ receiver. ok (compute_transfer args sender receiver (pos m)))).inserts
      read (err e) r = tt
      read (ok s) (err e) = tt
      read (ok s) (ok r) = compute_transfer-NumberedFrom args s r m room

  withdraw-NumberedFrom : NumberedFrom (m + 1) (withdraw db args).inserts
  unfolding withdraw
  withdraw-NumberedFrom =
      rw found_max (read (get_most_recent_position db args.sender_address args.contract_address))
    where
      read :
          (s : Result (Option PublicPositionsSelect))
          → NumberedFrom
              (m + 1)
              (or_failure (s >>= λ sender. ok (compute_withdraw args sender (pos m)))).inserts
      read (err e) = tt
      read (ok s) = compute_withdraw-NumberedFrom args s m room

  deposit-NumberedFrom : NumberedFrom (m + 1) (deposit db args).inserts
  unfolding deposit
  deposit-NumberedFrom =
      rw found_max (read (get_most_recent_position db args.sender_address args.contract_address))
    where
      read :
          (s : Result (Option PublicPositionsSelect))
          → NumberedFrom
              (m + 1)
              (or_failure (s >>= λ sender. ok (compute_deposit args sender (pos m)))).inserts
      read (err e) = tt
      read (ok s) = compute_deposit-NumberedFrom args s m room

  -- Whatever is found, every row that a transfer, a withdrawal or a deposit opens has an index above
  -- all rows of its contract in the table, and the rows of one event are numbered one by one.
  pub rows-IsNew :
      (All (IsNew table args.contract_address) (transfer db args).inserts
        × NumberedFrom (m + 1) (transfer db args).inserts)
      × (All (IsNew table args.contract_address) (withdraw db args).inserts
          × NumberedFrom (m + 1) (withdraw db args).inserts)
      × (All (IsNew table args.contract_address) (deposit db args).inserts
          × NumberedFrom (m + 1) (deposit db args).inserts)
  rows-IsNew =
      (new _ transfer-NumberedFrom, new _ withdraw-NumberedFrom, new _ deposit-NumberedFrom)
    where
      new :
          (rs : List PositionInsert)
          → NumberedFrom (m + 1) rs
          → All (IsNew table args.contract_address) rs × NumberedFrom (m + 1) rs
      new rs n = (
        all-IsNew table args.contract_address m (m + 1) rs (omega arith) n
            (bounded table args.contract_address m _ h),
        n,
      )
