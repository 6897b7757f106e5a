-- ===== src/Positions/Update.antt =====
-- UpdatePosition on a position that is found: the row that it closes and the row that it opens.
use vault_indexer.Prelude.{
  Text, ℕ, ◌+◌, ◌-◌, ◌^◌, ◌≤◌, ◌<◌, ◌≡◌, pos, Bool, Option, none, some, ok, arith, ◌==◌,
  if◌then◌else◌, print_ℕ, inc_int64_lem,
}
use vault_indexer.Database.{PublicPositionsSelect, PositionInsert, PositionUpdate}
use vault_indexer.Positions.{UpdatePositionInput, update_position}
use vault_indexer.Positions.Amounts.{
  Reads, moved, compute_new_amount_shares_decimal, eq_text-print_zero, end_height_lem, to_int64_lem,
}

-- The row with which an owner holds `n` shares from block `b` on.
abbrev pub opened : Text → Text → ℕ → ℕ → ℕ → PositionInsert
opened owner contract index n b = record {
  position_index_id = pos index;
  owner_address = owner;
  contract_address = contract;
  amount_shares = print_ℕ n;
  position_start_height = pos b;
  withdraw_receiver_address = none;
}

-- The update that ends a row at the block before `b`.
abbrev pub closed : Text → Bool → ℕ → Option Text → PositionUpdate
closed id terminated b receiver = record {
  id = id;
  is_terminated = terminated;
  position_end_height = pos (b - 1);
  withdraw_receiver_address = receiver;
}

abbrev pub opened_if : Text → Text → ℕ → ℕ → ℕ → Option PositionInsert
opened_if owner contract m n b = if n == 0 then none else some (opened owner contract (m + 1) n b)

abbrev next_index : ℕ → ℕ → ℕ
next_index m n = if n == 0 then m else m + 1

-- The block numbers and position indices that a chain reaches, for which int64 does not wrap.
pub record InRange (b m : ℕ) : Type 0 where
  pub started : 1 ≤ b
  pub block : b < 2 ^ 63
  pub index : m + 1 < 2 ^ 63

-- The position is closed at the block before, and terminated exactly when no share is left;
-- otherwise a row with the new amount is opened under the next index.
pub update_position_correct :
    (input : UpdatePositionInput) (p : PublicPositionsSelect) (a x m : ℕ)
    → input.current_position ≡ some p
    → Reads p.amount_shares a
    → Reads input.amount_shares x
    → InRange input.block_number m
    → let n = moved input.is_addition a x in
      let b = input.block_number in
      update_position input (pos m)
      ≡ ok (
        opened_if input.address p.contract_address m n b,
        some (closed p.id (n == 0) b input.withdraw_receiver_address),
        pos (next_index m n),
      )
unfolding update_position
update_position_correct input p a x m e ha hx r =
    let n = moved input.is_addition a x in
    ground (
      arith,
      compute_new_amount_shares_decimal p input.amount_shares input.is_addition a x ha hx,
      eq_text-print_zero n,
      end_height_lem input.block_number,
      to_int64_lem input.block_number,
      inc_int64_lem m,
    )
