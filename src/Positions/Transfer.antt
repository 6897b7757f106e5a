-- ===== src/Positions/Transfer.antt =====
-- ComputeTransfer, ComputeWithdraw and ComputeDeposit on positions that are found.
use vault_indexer.Prelude.{
  ap, ◌∙◌, Text, ℕ, ◌+◌, ◌-◌, ◌<◌, ◌≡◌, refl, ℤ, pos, false, Option, none, some, [], ◌∷◌, ◌++◌,
  arith, ◌==◌, eq_text, inc_int64_lem,
}
use vault_indexer.Database.{PublicPositionsSelect, PositionInsert}
use vault_indexer.Positions.{
  Changes, credit, debit, ProcessPosition, append_some, zero_address, first_position, update_side,
  transfer_receiver, transfer_sender, and_then_sender, compute_transfer, compute_withdraw,
  compute_deposit, err_position_not_found,
}
use vault_indexer.Positions.Amounts.{Reads, to_int64_lem}
use vault_indexer.Positions.Update.{opened, closed, opened_if, InRange, update_position_correct}

-- A position that was found, live, with `n` shares.
pub record HasShares (p : PublicPositionsSelect) (n : ℕ) : Type 0 where
  pub live : p.is_terminated ≡ false
  pub shares : Reads p.amount_shares n

-- Both addresses of an event are those of accounts.
pub record IsTransfer (args : ProcessPosition) : Type 0 where
  pub from_account : eq_text args.sender_address zero_address ≡ false
  pub to_account : eq_text args.receiver_address zero_address ≡ false

-- A receiver without a position, or with one that holds a positive amount.
abbrev ReceiverHas : Option PublicPositionsSelect → ℕ → Type 0
ReceiverHas none c = Unit
ReceiverHas (some t) c = HasShares t c × (0 < c)

module _ (args : ProcessPosition) (x m : ℕ) (hx : Reads args.amount_shares x)
    (r : InRange args.block_number (m + 1)) where
  abbrev block : ℕ
  block = args.block_number

  transfer_receiver_live :
      (t : PublicPositionsSelect) (c : ℕ)
      → HasShares t c
      → 0 < c
      → transfer_receiver args (some t) (pos m) ≡ (
        record {
          inserts = opened args.receiver_address t.contract_address (m + 1) (c + x) block ∷ [];
          updates = closed t.id false block none ∷ [];
          error = none;
        },
        pos (m + 1),
      )
  unfolding transfer_receiver
  transfer_receiver_live t c ht h =
      let e : (c + x == 0) ≡ false = ground arith in
      let u =
        update_position_correct (credit args args.receiver_address (some t)) t c x m refl ht.shares
          hx (omega arith) in
      simp ht.live (rw (u, update_side, e) refl)

  transfer_receiver_new : transfer_receiver args none (pos m) ≡ (
    record {
      inserts = first_position args args.receiver_address (pos (m + 1)) ∷ [];
      updates = [];
      error = none;
    },
    pos (m + 1),
  )
  unfolding transfer_receiver
  transfer_receiver_new = rw (inc_int64_lem m (omega arith)) refl

  -- The first row of an owner: the amount of the event itself, as the text that came.
  abbrev first_row : Text → PositionInsert
  first_row owner = record {
    position_index_id = pos (m + 1);
    owner_address = owner;
    contract_address = args.contract_address;
    amount_shares = args.amount_shares;
    position_start_height = pos block;
    withdraw_receiver_address = none;
  }

  first_position_lem : (owner : Text) → first_position args owner (pos (m + 1)) ≡ first_row owner
  unfolding first_position
  first_position_lem owner = rw (to_int64_lem block r.block) refl

  not_found :
      (before : Changes)
      → IsTransfer args
      → (transfer_sender args none before (pos (m + 1))).error ≡ some err_position_not_found
  unfolding transfer_sender
  not_found before i = rw (i.from_account, i.to_account) refl

  transfer_sender_found :
      (s : PublicPositionsSelect) (a : ℕ) (before : Changes)
      → IsTransfer args
      → HasShares s a
      → transfer_sender args (some s) before (pos (m + 1)) ≡ record {
        inserts =
            append_some before.inserts
              (opened_if args.sender_address s.contract_address (m + 1) (a - x) block);
        updates = before.updates ++ closed s.id (a - x == 0) block none ∷ [];
        error = none;
      }
  unfolding transfer_sender
  transfer_sender_found s a before i hs =
      let u =
        update_position_correct (debit args (some s) none) s a x (m + 1) refl hs.shares hx r in
      rw (i.from_account, i.to_account, u, update_side) refl

  -- The receiver's row is opened with the sum under the next index, and the sender's with what is
  -- left, if anything is, under the one after; both old rows end at the block before.
  pub compute_transfer_correct :
      (s t : PublicPositionsSelect) (a c : ℕ)
      → IsTransfer args
      → HasShares s a
      → HasShares t c
      → 0 < c
      → compute_transfer args (some s) (some t) (pos m) ≡ record {
        inserts =
            append_some
              (opened args.receiver_address t.contract_address (m + 1) (c + x) block ∷ [])
              (opened_if args.sender_address s.contract_address (m + 1) (a - x) block);
        updates = closed t.id false block none ∷ closed s.id (a - x == 0) block none ∷ [];
        error = none;
      }
  unfolding compute_transfer
  compute_transfer_correct s t a c i hs ht h =
      ap (and_then_sender args (some s)) (transfer_receiver_live t c ht h)
      ∙ transfer_sender_found s a _ i hs

  -- A receiver without a live position gets a first row for the amount; the sender's side is as above.
  compute_transfer_first :
      (s : PublicPositionsSelect) (a : ℕ)
      → IsTransfer args
      → HasShares s a
      → compute_transfer args (some s) none (pos m) ≡ record {
        inserts =
            append_some
              (first_row args.receiver_address ∷ [])
              (opened_if args.sender_address s.contract_address (m + 1) (a - x) block);
        updates = closed s.id (a - x == 0) block none ∷ [];
        error = none;
      }
  unfolding compute_transfer
  compute_transfer_first s a i hs =
      ap (and_then_sender args (some s))
        (transfer_receiver_new ∙ ap before (first_position_lem args.receiver_address))
      ∙ transfer_sender_found s a _ i hs
    where
      before : PositionInsert → Changes × ℤ
      before row = (record { inserts = row ∷ []; updates = []; error = none }, pos (m + 1))

  -- A transfer from an account without a position ends in ErrPositionNotFound, whoever receives it.
  compute_transfer_missing :
      (receiver : Option PublicPositionsSelect) (c : ℕ)
      → IsTransfer args
      → ReceiverHas receiver c
      → (compute_transfer args none receiver (pos m)).error ≡ some err_position_not_found
  unfolding compute_transfer
  compute_transfer_missing none c i h =
      ap (λ q. (and_then_sender args none q).error) transfer_receiver_new ∙ not_found _ i
  compute_transfer_missing (some t) c i h =
      ap (λ q. (and_then_sender args none q).error) (transfer_receiver_live t c h.0 h.1)
      ∙ not_found _ i

  -- The amount that is withdrawn leaves the position, and the update names who receives it.
  compute_withdraw_correct :
      (s : PublicPositionsSelect) (a : ℕ)
      → HasShares s a
      → compute_withdraw args (some s) (pos m) ≡ record {
        inserts = append_some [] (opened_if args.sender_address s.contract_address m (a - x) block);
        updates = closed s.id (a - x == 0) block (some args.receiver_address) ∷ [];
        error = none;
      }
  unfolding compute_withdraw
  compute_withdraw_correct s a hs =
      let u =
        update_position_correct (debit args (some s) (some args.receiver_address)) s a x m refl
          hs.shares hx (omega arith) in
      rw (u, update_side, compute_withdraw) refl

  -- A deposit opens a row with the sum, or a first row for the amount alone.
  compute_deposit_correct :
      (existing : Option PublicPositionsSelect) (c : ℕ)
      → ReceiverHas existing c
      → compute_deposit args existing (pos m) ≡ elim existing [
        | none ↦ record { inserts = first_row args.sender_address ∷ []; updates = []; error = none }
        | some t ↦ record {
          inserts = opened args.sender_address t.contract_address (m + 1) (c + x) block ∷ [];
          updates = closed t.id false block none ∷ [];
          error = none;
        }
      ]
  unfolding compute_deposit
  compute_deposit_correct none c h =
      rw (inc_int64_lem m (omega arith), first_position_lem args.sender_address) refl
  compute_deposit_correct (some t) c h =
      let e : (c + x == 0) ≡ false = ground arith in
      let u =
        update_position_correct (credit args args.sender_address (some t)) t c x m refl h.0.shares
          hx (omega arith) in
      rw (u, update_side, compute_deposit, e) refl
