-- ===== src/Positions/Conservation.antt =====
-- The shares in the rows that ComputeTransfer opens, against those in the rows that it closes.
use vault_indexer.Prelude.{
  Text, ℕ, ◌+◌, ◌-◌, ◌≤◌, ◌<◌, ◌≡◌, refl, ℤ, pos, negsuc, Option, none, some, List, [], ◌∷◌, arith,
  ◌==◌, print_ℕ, set_string, set_string-print_ℕ, Bool-cases, inl, inr, ap, ◌∙◌,
}
use vault_indexer.Database.{PublicPositionsSelect, PositionInsert}
use vault_indexer.Positions.{ProcessPosition, compute_transfer, append_some}
use vault_indexer.Positions.Amounts.{Reads}
use vault_indexer.Positions.Update.{InRange, opened_if}
use vault_indexer.Positions.Transfer.{HasShares, IsTransfer, compute_transfer_correct}

-- The number that an amount stands for; 0 where it is no decimal.
abbrev number_of : Option ℤ → ℕ
number_of none = 0
number_of (some (pos n)) = n
number_of (some (negsuc n)) = 0

abbrev shares_of : Text → ℕ
shares_of s = number_of (set_string s)

abbrev pub total : List PositionInsert → ℕ
total [] = 0
total (r ∷ rs) = shares_of r.amount_shares + total rs

total-opened :
    (row : PositionInsert) (owner contract : Text) (k c n b : ℕ)
    → row.amount_shares ≡ print_ℕ c
    → total (append_some (row ∷ []) (opened_if owner contract k n b)) ≡ c + n
total-opened row owner contract k c n b e = elim (Bool-cases (n == 0)) [
  | inl z ↦ rw (z, e, set_string-print_ℕ c) (ground arith)
  | inr z ↦ rw (z, e, set_string-print_ℕ c, set_string-print_ℕ n) (omega arith)
]

module _ (args : ProcessPosition) (x m : ℕ) (hx : Reads args.amount_shares x)
    (r : InRange args.block_number (m + 1)) (i : IsTransfer args) where
  -- A covered transfer between two holders conserves the shares: the opened rows hold what the
  -- closed rows held.
  pub compute_transfer_conserves :
      (s t : PublicPositionsSelect) (a c : ℕ)
      → HasShares s a
      → HasShares t c
      → 0 < c
      → x ≤ a
      → total (compute_transfer args (some s) (some t) (pos m)).inserts ≡ a + c
  compute_transfer_conserves s t a c hs ht h covered =
      ap (λ q. total q.inserts) (compute_transfer_correct args x m hx r s t a c i hs ht h)
      ∙ total-opened _ _ _ _ (c + x) (a - x) _ refl
      ∙ omega arith

  -- An uncovered one does not: the sender's amount stops at zero, and the receiver still gets `x`.
  compute_transfer_uncovered :
      (s t : PublicPositionsSelect) (a c : ℕ)
      → HasShares s a
      → HasShares t c
      → 0 < c
      → a < x
      → total (compute_transfer args (some s) (some t) (pos m)).inserts ≡ c + x
  compute_transfer_uncovered s t a c hs ht h uncovered =
      ap (λ q. total q.inserts) (compute_transfer_correct args x m hx r s t a c i hs ht h)
      ∙ total-opened _ _ _ _ (c + x) (a - x) _ refl
      ∙ omega arith
