-- ===== src/Positions/Tests.antt =====
-- The computations on the positions of two holders, and on amounts that are no decimals.
use vault_indexer.Prelude.{
  ◌≡◌, refl, pos, false, none, some, [], ◌∷◌, text, print_ℕ, set_string, eq_text, scan_digits,
  arith, Text, ℕ,
}
use vault_indexer.Database.{PublicPositionsSelect}
use vault_indexer.Positions.{ProcessPosition, compute_transfer, append_some}
use vault_indexer.Positions.Amounts.{Reads}
use vault_indexer.Positions.Update.{opened, closed, opened_if, InRange}
use vault_indexer.Positions.Transfer.{HasShares, IsTransfer, compute_transfer_correct}
use vault_indexer.Positions.Conservation.{total, compute_transfer_conserves}

abbrev pub alice : Text
alice = text "0xa11ce"

abbrev pub bob : Text
bob = text "0xb0b"

abbrev pub vault : Text
vault = text "0xva"

abbrev pub row : Text → Text → ℕ → PublicPositionsSelect
row id owner shares = record {
  amount_shares = print_ℕ shares;
  contract_address = vault;
  created_at = [];
  id = id;
  is_terminated = false;
  owner_address = owner;
  position_end_height = none;
  position_index_id = pos 3;
  position_start_height = pos 5;
  withdraw_receiver_address = none;
}

abbrev pub alice_row : PublicPositionsSelect
alice_row = row (text "p1") alice 100

abbrev pub bob_row : PublicPositionsSelect
bob_row = row (text "p2") bob 50

-- Alice sends Bob forty shares in block 20.
abbrev pub forty : ProcessPosition
forty = record {
  receiver_address = bob;
  sender_address = alice;
  contract_address = vault;
  amount_shares = text "40";
  block_number = 20;
}

abbrev hundred_and_forty : ProcessPosition
hundred_and_forty = record {
  receiver_address = bob;
  sender_address = alice;
  contract_address = vault;
  amount_shares = text "140";
  block_number = 20;
}

pub forty-Reads : Reads (text "40") 40
unfolding set_string text scan_digits
forty-Reads = refl

hundred_and_forty-Reads : Reads (text "140") 140
unfolding set_string text scan_digits
hundred_and_forty-Reads = refl

hundred-Reads : Reads (print_ℕ 100) 100
unfolding set_string print_ℕ scan_digits
hundred-Reads = refl

fifty-Reads : Reads (print_ℕ 50) 50
unfolding set_string print_ℕ scan_digits
fifty-Reads = refl

pub forty-IsTransfer : IsTransfer forty
unfolding eq_text text
forty-IsTransfer = record { from_account = refl; to_account = refl }

hundred_and_forty-IsTransfer : IsTransfer hundred_and_forty
unfolding eq_text text
hundred_and_forty-IsTransfer = record { from_account = refl; to_account = refl }

pub alice-HasShares : HasShares alice_row 100
alice-HasShares = record { live = refl; shares = hundred-Reads }

pub bob-HasShares : HasShares bob_row 50
bob-HasShares = record { live = refl; shares = fifty-Reads }

pub in_range : InRange 20 8
in_range = record { started = omega arith; block = omega arith; index = omega arith }

compute_transfer_correct_example :
    compute_transfer forty (some alice_row) (some bob_row) (pos 7) ≡ record {
      inserts = append_some (opened bob vault 8 90 20 ∷ []) (opened_if alice vault 8 60 20);
      updates = closed (text "p2") false 20 none ∷ closed (text "p1") false 20 none ∷ [];
      error = none;
    }
compute_transfer_correct_example =
    compute_transfer_correct forty 40 7 forty-Reads in_range alice_row bob_row 100 50
      forty-IsTransfer alice-HasShares bob-HasShares (omega arith)

compute_transfer_conserves_example :
    total (compute_transfer forty (some alice_row) (some bob_row) (pos 7)).inserts ≡ 150
compute_transfer_conserves_example =
    compute_transfer_conserves forty 40 7 forty-Reads in_range forty-IsTransfer alice_row bob_row
      100 50 alice-HasShares bob-HasShares (omega arith) (omega arith)
