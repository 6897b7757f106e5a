-- ===== src/Transformer/Statements.antt =====
-- What the operations of an event write.
use mathlib.Core.Path.{fun_ext}
use vault_indexer.Prelude.{
  ℕ, ◌+◌, ◌-◌, ◌<◌, ◌≡◌, refl, pos, true, false, none, some, List, [], ◌∷◌, ◌>>=◌, ap, ◌∙◌, arith,
  ◌==◌,
}
use vault_indexer.Database.{PublicPositionsSelect, PositionInsert, PositionUpdate}
use vault_indexer.Database.Events.{PublicEventsSelect}
use vault_indexer.Database.Operations.{DatabaseOperations}
use vault_indexer.SqlBuilder.Rows.{build_first_row_only}
use vault_indexer.Positions.{ProcessPosition, compute_transfer}
use vault_indexer.Positions.Amounts.{Reads}
use vault_indexer.Positions.Update.{InRange, opened, closed}
use vault_indexer.Positions.Transfer.{HasShares, IsTransfer, compute_transfer_correct}
use vault_indexer.Handlers.Position.{insert_operations, update_operations, positions_table}
use vault_indexer.Transformer.{Store, run_operations, run_inserts, run_updates, id_key}

-- The operations of a handler for these rows.
abbrev pub rows_of : List PositionInsert → List PositionUpdate → DatabaseOperations
rows_of inserts updates = record {
  inserts = insert_operations inserts;
  updates = update_operations updates;
}

-- A row to stand where the lemma on the other kind of row wants one.
abbrev any_insert : PositionInsert
any_insert = opened [] [] 0 0 0

abbrev any_update : PositionUpdate
any_update = closed [] true 0 none

-- A part of the sender's shares moves: all four rows are computed.
compute_transfer_of_part :
    (args : ProcessPosition) (x m : ℕ) (s t : PublicPositionsSelect) (a c : ℕ)
    → Reads args.amount_shares x
    → InRange args.block_number (m + 1)
    → IsTransfer args
    → HasShares s a
    → HasShares t c
    → 0 < c
    → x < a
    → let b = args.block_number in
      compute_transfer args (some s) (some t) (pos m) ≡ record {
        inserts =
            opened args.receiver_address t.contract_address (m + 1) (c + x) b
            ∷ opened args.sender_address s.contract_address (m + 1 + 1) (a - x) b
            ∷ [];
        updates = closed t.id false b none ∷ closed s.id false b none ∷ [];
        error = none;
      }
compute_transfer_of_part args x m s t a c hx r i hs ht h part =
    let z : (a - x == 0) ≡ false = ground arith in
    compute_transfer_correct args x m hx r s t a c i hs ht h ∙ rw z refl

module _ (store : Store) (event : PublicEventsSelect) where
  open store use {Tx}

  insert_first :
      (r : PositionInsert) (rs : List PositionInsert) (tx : Tx)
      → run_inserts store (insert_operations (r ∷ rs)) tx
        ≡ run_inserts store (insert_operations (r ∷ [])) tx
  unfolding run_inserts
  insert_first r rs tx =
      ap (λ q. (q >>= λ s. store.exec s tx) >>= run_inserts store [])
        (build_first_row_only positions_table id_key r rs any_update []).0

  update_first :
      (u : PositionUpdate) (us : List PositionUpdate) (tx : Tx)
      → run_updates store (update_operations (u ∷ us)) tx
        ≡ run_updates store (update_operations (u ∷ [])) tx
  unfolding run_updates
  update_first u us tx =
      ap (λ q. (q >>= λ s. store.exec s tx) >>= run_updates store [])
        (build_first_row_only positions_table id_key any_insert [] u us).1

  -- The operations of several rows write what those of the first insert and the first update write.
  run_operations_first :
      (r : PositionInsert) (rs : List PositionInsert) (u : PositionUpdate)
      (us : List PositionUpdate) (tx : Tx)
      → run_operations store event (rows_of (r ∷ rs) (u ∷ us)) tx
        ≡ run_operations store event (rows_of (r ∷ []) (u ∷ [])) tx
  unfolding run_operations
  run_operations_first r rs u us tx = rw (insert_first r rs tx) (
      ap (λ k. run_inserts store (insert_operations (r ∷ [])) tx >>= k)
        (fun_ext λ t. rw (update_first u us t) refl))

  -- A covered transfer of a part of a position to another holder writes the receiver's half alone: the
  -- receiver's new row is inserted and the old one closed, and neither the sender's new row nor the end
  -- of the old one is written, though both are computed.
  pub transfer_writes_receiver_only :
      (args : ProcessPosition) (x m : ℕ) (s t : PublicPositionsSelect) (a c : ℕ) (tx : Tx)
      → Reads args.amount_shares x
      → InRange args.block_number (m + 1)
      → IsTransfer args
      → HasShares s a
      → HasShares t c
      → 0 < c
      → x < a
      → let b = args.block_number in
        let computed = compute_transfer args (some s) (some t) (pos m) in
        let received = opened args.receiver_address t.contract_address (m + 1) (c + x) b in
        let left = opened args.sender_address s.contract_address (m + 1 + 1) (a - x) b in
        (computed.inserts ≡ received ∷ left ∷ [])
        × (computed.updates ≡ closed t.id false b none ∷ closed s.id false b none ∷ [])
        × (run_operations store event (rows_of computed.inserts computed.updates) tx
            ≡ run_operations store event
                (rows_of (received ∷ []) (closed t.id false b none ∷ []))
                tx)
  transfer_writes_receiver_only args x m s t a c tx hx r i hs ht h part =
      let e = compute_transfer_of_part args x m s t a c hx r i hs ht h part in
      (
        ap (λ q. q.inserts) e,
        ap (λ q. q.updates) e,
        ap (λ q. run_operations store event (rows_of q.inserts q.updates) tx) e
            ∙ run_operations_first _ _ _ _ tx,
      )
