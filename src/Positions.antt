-- ===== src/Positions.antt =====
-- PositionTransformer (go-indexer/transformers/position-transformer.go): the pure part, which
-- computes the rows to insert and to update from the positions that were found.
pub mod Amounts
pub mod Update
pub mod Transfer
pub mod Conservation
pub mod Numbering
pub mod Fetch
pub mod Tests
use vault_indexer.Prelude.{
  Text, ℕ, ◌+◌, ◌-◌, ◌%◌, ◌^◌, ℤ, pos, ◌+ℤ◌, ◌-ℤ◌, ltb_ℤ, to_int64, inc_int64, Bool, true, false,
  ◌&&◌, not, Option, none, some, List, [], ◌∷◌, ◌++◌, Result, ok, err, ◌>>=◌, text, eq_text,
  set_string, print_ℤ, if◌then◌else◌,
}
use vault_indexer.Database.{
  PublicPositionsSelect, PositionInsert, PositionUpdate, to_position_insert, to_position_update,
}

abbrev pub zero_address : Text
zero_address = text "0x0000000000000000000000000000000000000000"

abbrev pub err_position_not_found : Text
err_position_not_found = text "position not found"

pub record ProcessPosition : Type 0 where
  pub receiver_address : Text
  pub sender_address : Text
  pub contract_address : Text
  pub amount_shares : Text
  pub block_number : ℕ

-- What a handler is returned: the rows gathered so far, also beside an error.
pub record Changes : Type 0 where
  pub inserts : List PositionInsert
  pub updates : List PositionUpdate
  pub error : Option Text

-- The new amount, with the error if one of the texts is no decimal.
unfoldable pub compute_new_amount_shares :
    Option PublicPositionsSelect → Text → Bool → Text × Option Text
compute_new_amount_shares none new_amount_shares is_addition = (new_amount_shares, none)
compute_new_amount_shares (some p) new_amount_shares is_addition =
    elim (set_string p.amount_shares) [
      | none ↦ (text "0", some (text "failed to parse current position amount"))
      | some current ↦ elim (set_string new_amount_shares) [
        | none ↦ (p.amount_shares, some (text "failed to parse new amount"))
        | some new ↦
            let difference = current -ℤ new in
            let clamped = if ltb_ℤ difference (pos 0) then pos 0 else difference in
            (print_ℤ (if is_addition then current +ℤ new else clamped), none)
      ]
    ]

pub record UpdatePositionInput : Type 0 where
  pub current_position : Option PublicPositionsSelect
  pub address : Text
  pub amount_shares : Text
  pub block_number : ℕ
  pub is_addition : Bool
  pub withdraw_receiver_address : Option Text
  pub position_index_id : ℤ

-- `int64(BlockNumber - 1)`, the subtraction on uint64.
unfoldable pub end_height : ℕ → ℤ
end_height block_number = to_int64 ((block_number + (2 ^ 64 - 1)) % 2 ^ 64)

-- The insert, if one is made, with `maxPositionIndexId` after it.
new_insert : UpdatePositionInput → PublicPositionsSelect → Text → ℤ → Option PositionInsert × ℤ
unfolding to_position_insert
new_insert input p amount max_index = if eq_text amount (text "0") then (none, max_index) else (
  some (
      to_position_insert (record {
        amount_shares = amount;
        contract_address = p.contract_address;
        created_at = none;
        id = none;
        is_terminated = none;
        owner_address = input.address;
        position_end_height = none;
        position_index_id = inc_int64 max_index;
        position_start_height = to_int64 input.block_number;
        withdraw_receiver_address = none;
      })),
  inc_int64 max_index,
)

-- `ToPositionUpdate` of the update; an error with this text is its panic on a nil pointer.
new_update : UpdatePositionInput → PublicPositionsSelect → Text → Result PositionUpdate
unfolding to_position_update
new_update input p amount =
    let update = to_position_update (record {
      amount_shares = none;
      contract_address = none;
      created_at = none;
      id = some p.id;
      is_terminated = some (eq_text amount (text "0"));
      owner_address = none;
      position_end_height = some (end_height input.block_number);
      position_index_id = none;
      position_start_height = none;
      withdraw_receiver_address = input.withdraw_receiver_address;
    }) in
    elim update [ none ↦ err (text "nil pointer dereference") | some u ↦ ok u ]

update_current :
    UpdatePositionInput
    → PublicPositionsSelect
    → ℤ
    → Result (Option PositionInsert × Option PositionUpdate × ℤ)
unfolding new_insert new_update
update_current input p max_index =
    let (amount, failure) =
      compute_new_amount_shares (some p) input.amount_shares input.is_addition in
    elim failure [
      | some e ↦ err e
      | none ↦
          let (insert, index) = new_insert input p amount max_index in
          new_update input p amount >>= λ update. ok (insert, some update, index)
    ]

-- UpdatePosition: the insert, the update, and the counter behind the pointer.
unfoldable pub update_position :
    UpdatePositionInput → ℤ → Result (Option PositionInsert × Option PositionUpdate × ℤ)
unfolding update_current
update_position input max_index = elim input.current_position [
  | none ↦ ok (none, none, max_index)
  | some p ↦ update_current input p max_index
]

abbrev pub append_some {ℓ} : {A : Type ℓ} → List A → Option A → List A
append_some xs none = xs
append_some xs (some x) = xs ++ x ∷ []

-- The row of an owner who has no live position yet.
unfoldable pub first_position : ProcessPosition → Text → ℤ → PositionInsert
unfolding to_position_insert
first_position args owner index = to_position_insert (record {
  amount_shares = args.amount_shares;
  contract_address = args.contract_address;
  created_at = none;
  id = none;
  is_terminated = none;
  owner_address = owner;
  position_end_height = none;
  position_index_id = index;
  position_start_height = to_int64 args.block_number;
  withdraw_receiver_address = none;
})

-- The arguments of UpdatePosition for the account that shares come to, and for the one they leave.
abbrev pub credit : ProcessPosition → Text → Option PublicPositionsSelect → UpdatePositionInput
credit args owner position = record {
  current_position = position;
  address = owner;
  amount_shares = args.amount_shares;
  block_number = args.block_number;
  is_addition = true;
  withdraw_receiver_address = none;
  position_index_id = pos 0;
}

abbrev pub debit :
    ProcessPosition → Option PublicPositionsSelect → Option Text → UpdatePositionInput
debit args position receiver = record {
  current_position = position;
  address = args.sender_address;
  amount_shares = args.amount_shares;
  block_number = args.block_number;
  is_addition = false;
  withdraw_receiver_address = receiver;
  position_index_id = pos 0;
}

-- What UpdatePosition returns is appended to `inserts` and `updates`; an error leaves them.
gather :
    List PositionInsert
    → List PositionUpdate
    → ℤ
    → Result (Option PositionInsert × Option PositionUpdate × ℤ)
    → Changes × ℤ
gather inserts updates index (err e) =
    (record { inserts = inserts; updates = updates; error = some e }, index)
gather inserts updates index (ok (insert, update, index')) = (
  record {
    inserts = append_some inserts insert;
    updates = append_some updates update;
    error = none;
  },
  index',
)

-- An update of one side of an event; the counter goes on to the next side.
update_side : UpdatePositionInput → List PositionInsert → List PositionUpdate → ℤ → Changes × ℤ
unfolding gather
update_side input inserts updates index = gather inserts updates index (update_position input index)

abbrev pub lives : Option PublicPositionsSelect → Bool
lives none = false
lives (some p) = not p.is_terminated

-- The receiver's half of ComputeTransfer.
unfoldable pub transfer_receiver : ProcessPosition → Option PublicPositionsSelect → ℤ → Changes × ℤ
unfolding update_side first_position
transfer_receiver args receiver max_index =
    if lives receiver
    then update_side (credit args args.receiver_address receiver) [] [] max_index
    else (
      record {
        inserts = first_position args args.receiver_address (inc_int64 max_index) ∷ [];
        updates = [];
        error = none;
      },
      inc_int64 max_index,
    )

abbrev pub missing : Option PublicPositionsSelect → Bool
missing none = true
missing (some p) = false

-- The sender's half, after the receiver's: `c` and `index` are what that has left.
unfoldable pub transfer_sender :
    ProcessPosition → Option PublicPositionsSelect → Changes → ℤ → Changes
unfolding update_side
transfer_sender args sender c index =
    let is_transfer =
      not (eq_text args.sender_address zero_address)
      && not (eq_text args.receiver_address zero_address) in
    if is_transfer && missing sender
    then record c { error = some err_position_not_found }
    else (update_side (debit args sender none) c.inserts c.updates index).0

abbrev pub unless_failed : Option Text → Changes → Changes → Changes
unless_failed (some e) before after = before
unless_failed none before after = after

-- An error on the receiver's side ends the call.
and_then_sender : ProcessPosition → Option PublicPositionsSelect → Changes × ℤ → Changes
and_then_sender args sender (c, index) =
    unless_failed c.error c (transfer_sender args sender c index)

unfoldable pub compute_transfer :
    ProcessPosition → Option PublicPositionsSelect → Option PublicPositionsSelect → ℤ → Changes
unfolding and_then_sender
compute_transfer args sender receiver max_index =
    and_then_sender args sender (transfer_receiver args receiver max_index)

unfoldable pub compute_withdraw : ProcessPosition → Option PublicPositionsSelect → ℤ → Changes
unfolding update_side
compute_withdraw args sender max_index =
    (update_side (debit args sender (some args.receiver_address)) [] [] max_index).0

unfoldable pub compute_deposit : ProcessPosition → Option PublicPositionsSelect → ℤ → Changes
unfolding update_side first_position
compute_deposit args existing max_index = elim existing [
  | none ↦ record {
    inserts = first_position args args.sender_address (inc_int64 max_index) ∷ [];
    updates = [];
    error = none;
  }
  | some p ↦ (update_side (credit args args.sender_address (some p)) [] [] max_index).0
]
