-- ===== src/Positions/Numbering.antt =====
-- The indices of the rows that are opened, on every branch.
use vault_indexer.Prelude.{
  Text, ℕ, ◌+◌, ◌^◌, ◌≤◌, ◌<◌, ◌≡◌, refl, ℤ, pos, Bool, true, false, Option, none, some, List, [],
  ◌∷◌, ◌++◌, length, arith, if◌then◌else◌, inc_int64_lem, Bool-cases, inl, inr, ap, ok, err, Result,
  eq_text, text, ◌&&◌, not,
}
use vault_indexer.Database.{PublicPositionsSelect, PositionInsert, PositionUpdate}
use vault_indexer.Positions.{
  ProcessPosition, Changes, compute_transfer, compute_deposit, compute_withdraw,
  UpdatePositionInput, update_position, update_side, gather, transfer_receiver, transfer_sender,
  and_then_sender, unless_failed, lives, missing, credit, debit, zero_address,
}

abbrev pub NumberedFrom : ℕ → List PositionInsert → Type 0
NumberedFrom k [] = Unit
NumberedFrom k (r ∷ rs) = (r.position_index_id ≡ pos k) × NumberedFrom (k + 1) rs

-- What UpdatePosition does to the counter: it takes the next index exactly when it opens a row.
abbrev Counts : ℕ → Result (Option PositionInsert × Option PositionUpdate × ℤ) → Type 0
Counts k (err e) = Unit
Counts k (ok (none, u, j)) = j ≡ pos k
Counts k (ok (some r, u, j)) = (r.position_index_id ≡ pos (k + 1)) × (j ≡ pos (k + 1))

update_position-Counts :
    (input : UpdatePositionInput) (k : ℕ)
    → k + 1 < 2 ^ 63
    → Counts k (update_position input (pos k))
unfolding update_position
update_position-Counts input k h = ground (arith, inc_int64_lem k)

-- Rows numbered from `m + 1`, with the counter at the last of them.
abbrev Fresh : ℕ → Changes × ℤ → Type 0
Fresh m (c, index) =
    (k : ℕ) × (index ≡ pos (m + k))
    × (k ≤ 1)
    × NumberedFrom (m + 1) c.inserts
    × (length c.inserts ≡ k)

NumberedFrom-concat :
    (k j : ℕ) (xs : List PositionInsert) (r : PositionInsert)
    → NumberedFrom k xs
    → k + length xs ≡ j
    → r.position_index_id ≡ pos j
    → NumberedFrom k (xs ++ r ∷ [])
NumberedFrom-concat k j [] r h e p = (rw p (ap pos (omega arith)), tt)
NumberedFrom-concat k j (x ∷ xs) r h e p =
    (h.0, NumberedFrom-concat (k + 1) j xs r h.1 (omega arith) p)

gather-NumberedFrom :
    (m k : ℕ) (inserts : List PositionInsert) (updates : List PositionUpdate)
    (res : Result (Option PositionInsert × Option PositionUpdate × ℤ))
    → NumberedFrom (m + 1) inserts
    → length inserts ≡ k
    → Counts (m + k) res
    → NumberedFrom (m + 1) (gather inserts updates (pos (m + k)) res).0.inserts
unfolding gather
gather-NumberedFrom m k inserts updates (err e) h l c = h
gather-NumberedFrom m k inserts updates (ok (none, u, j)) h l c = h
gather-NumberedFrom m k inserts updates (ok (some r, u, j)) h l c =
    NumberedFrom-concat (m + 1) (m + k + 1) inserts r h (omega arith) c.0

transfer_receiver-Fresh :
    (args : ProcessPosition) (receiver : Option PublicPositionsSelect) (m : ℕ)
    → m + 2 < 2 ^ 63
    → Fresh m (transfer_receiver args receiver (pos m))
unfolding transfer_receiver
transfer_receiver-Fresh args receiver m h = elim (Bool-cases (lives receiver)) [
  | inl live ↦ rw live (
      gathered (update_position (credit args args.receiver_address receiver) (pos m))
        (update_position-Counts _ m (omega arith)))
  | inr dead ↦ rw (dead, inc_int64_lem m (omega arith)) (1, refl, omega arith, (refl, tt), refl)
]
  where
    gathered :
        (res : Result (Option PositionInsert × Option PositionUpdate × ℤ))
        → Counts m res
        → Fresh m (gather [] [] (pos m) res)
    gathered (err e) c = (0, ap pos (omega arith), omega arith, tt, refl)
    gathered (ok (none, u, j)) c = (0, rw c (ap pos (omega arith)), omega arith, tt, refl)
    gathered (ok (some r, u, j)) c = (1, c.1, omega arith, (c.0, tt), refl)

transfer_sender-NumberedFrom :
    (args : ProcessPosition) (sender : Option PublicPositionsSelect) (c : Changes) (m : ℕ)
    (index : ℤ)
    → m + 2 < 2 ^ 63
    → Fresh m (c, index)
    → NumberedFrom (m + 1) (transfer_sender args sender c index).inserts
unfolding transfer_sender
transfer_sender-NumberedFrom args sender c m index h (k, e, le, n, l) = rw e (
    choose (
      (not (eq_text args.sender_address zero_address)
        && not (eq_text args.receiver_address zero_address))
      && missing sender))
  where
    choose :
        (b : Bool)
        → NumberedFrom
            (m + 1)
            (if b
              then record c { error = some (text "position not found") }
              else (update_side
                  (debit args sender none)
                  c.inserts
                  c.updates
                  (pos (m + k))).0).inserts
    choose true = n
    choose false =
        gather-NumberedFrom m k c.inserts c.updates _ n l
          (update_position-Counts _ (m + k) (omega arith))

unless_failed-NumberedFrom :
    (m : ℕ) (e : Option Text) (before after : Changes)
    → NumberedFrom (m + 1) before.inserts
    → NumberedFrom (m + 1) after.inserts
    → NumberedFrom (m + 1) (unless_failed e before after).inserts
unless_failed-NumberedFrom m none before after p q = q
unless_failed-NumberedFrom m (some e) before after p q = p

gather_one-NumberedFrom :
    (m : ℕ) (res : Result (Option PositionInsert × Option PositionUpdate × ℤ))
    → Counts m res
    → NumberedFrom (m + 1) (gather [] [] (pos m) res).0.inserts
unfolding gather
gather_one-NumberedFrom m (err e) c = tt
gather_one-NumberedFrom m (ok (none, u, j)) c = tt
gather_one-NumberedFrom m (ok (some r, u, j)) c = (c.0, tt)

-- Whatever is found, and whether the call ends in an error, the rows of a transfer are numbered one
-- by one from the index after the highest.
pub compute_transfer-NumberedFrom :
    (args : ProcessPosition) (sender receiver : Option PublicPositionsSelect) (m : ℕ)
    → m + 2 < 2 ^ 63
    → NumberedFrom (m + 1) (compute_transfer args sender receiver (pos m)).inserts
unfolding compute_transfer
compute_transfer-NumberedFrom args sender receiver m h =
    both (transfer_receiver args receiver (pos m)) (transfer_receiver-Fresh args receiver m h)
  where
    both :
        (q : Changes × ℤ) → Fresh m q → NumberedFrom (m + 1) (and_then_sender args sender q).inserts
    both (c, index) fresh =
        unless_failed-NumberedFrom m c.error c _ fresh.3
          (transfer_sender-NumberedFrom args sender c m index h fresh)

-- So are the rows of a withdrawal and of a deposit.
pub compute_withdraw-NumberedFrom :
    (args : ProcessPosition) (sender : Option PublicPositionsSelect) (m : ℕ)
    → m + 2 < 2 ^ 63
    → NumberedFrom (m + 1) (compute_withdraw args sender (pos m)).inserts
unfolding compute_withdraw
compute_withdraw-NumberedFrom args sender m h =
    gather_one-NumberedFrom m _ (update_position-Counts _ m (omega arith))

pub compute_deposit-NumberedFrom :
    (args : ProcessPosition) (existing : Option PublicPositionsSelect) (m : ℕ)
    → m + 2 < 2 ^ 63
    → NumberedFrom (m + 1) (compute_deposit args existing (pos m)).inserts
unfolding compute_deposit
compute_deposit-NumberedFrom args none m h = rw (inc_int64_lem m (omega arith)) (refl, tt)
compute_deposit-NumberedFrom args (some p) m h =
    gather_one-NumberedFrom m _ (update_position-Counts _ m (omega arith))
