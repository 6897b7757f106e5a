-- ===== src/Transformer/Cleanup/Reopened.antt =====
-- Which closed positions the cleanup after a reorg opens again.
use vault_indexer.Prelude.{
  Text, ℕ, ◌+◌, ◌-◌, ◌≤◌, ◌<◌, ◌≡◌, pos, lt→ltb_ℤ, Bool, false, Option, none, some, arith, sym,
}
use vault_indexer.Database.{PublicPositionsSelect, PositionUpdate}
use vault_indexer.Positions.Update.{closed}
use vault_indexer.Transformer.Cleanup.{reopen}
use vault_indexer.Transformer.Cleanup.Consistent.{reopen-of_EndsBy}

-- The row after the update that ends it.
abbrev pub with_update : PositionUpdate → PublicPositionsSelect → PublicPositionsSelect
with_update u p = record {
  amount_shares = p.amount_shares;
  contract_address = p.contract_address;
  created_at = p.created_at;
  id = p.id;
  is_terminated = u.is_terminated;
  owner_address = p.owner_address;
  position_end_height = some u.position_end_height;
  position_index_id = p.position_index_id;
  position_start_height = p.position_start_height;
  withdraw_receiver_address = u.withdraw_receiver_address;
}

-- A live position as it is before it is ended.
pub record IsOpen (p : PublicPositionsSelect) : Type 0 where
  pub live : p.is_terminated ≡ false
  pub endless : p.position_end_height ≡ none
  pub unsent : p.withdraw_receiver_address ≡ none

as_open :
    (p : PublicPositionsSelect)
    → IsOpen p
    → record {
      amount_shares = p.amount_shares;
      contract_address = p.contract_address;
      created_at = p.created_at;
      id = p.id;
      is_terminated = false;
      owner_address = p.owner_address;
      position_end_height = none;
      position_index_id = p.position_index_id;
      position_start_height = p.position_start_height;
      withdraw_receiver_address = none;
    }
      ≡ p
as_open p o = λ i. record {
  amount_shares = p.amount_shares;
  contract_address = p.contract_address;
  created_at = p.created_at;
  id = p.id;
  is_terminated = sym o.live i;
  owner_address = p.owner_address;
  position_end_height = sym o.endless i;
  position_index_id = p.position_index_id;
  position_start_height = p.position_start_height;
  withdraw_receiver_address = sym o.unsent i;
}

-- A position that an event of block `b` ended is opened again by a cleanup to block `n` if `b` is
-- after `n + 1`; an event of block `n + 1` is deleted as well, but the position stays ended.
pub cleanup_reopens :
    (n b : ℕ) (p : PublicPositionsSelect) (terminated : Bool) (receiver : Option Text)
    → IsOpen p
    → let ended = with_update (closed p.id terminated b receiver) p in
      (n + 1 < b → reopen (pos n) ended ≡ p) × (b ≤ n + 1 → reopen (pos n) ended ≡ ended)
cleanup_reopens n b p terminated receiver o = (
  (λ h. let e = lt→ltb_ℤ (pos n) (pos (b - 1)) (omega arith) in rw e (as_open p o)),
  (λ h. reopen-of_EndsBy (pos n) (with_update (closed p.id terminated b receiver) p) (omega arith)),
)
