-- ===== src/Handlers/Transfers.antt =====
-- A transfer event from its raw data to the operations that are asked for.
use vault_indexer.Prelude.{
  Text, ℕ, ◌+◌, ◌-◌, ◌^◌, ◌<◌, ◌==◌, ◌≡◌, refl, ap, ◌∙◌, pos, to_uint64, false, none, some, [], ◌∷◌,
  ok, ◌>>=◌, text, eq_text, to_lower, Result, err, if◌then◌else◌, print_ℕ, set_string-print_ℕ,
  arith,
}
use vault_indexer.Float.{float64_exact}
use vault_indexer.Database.{PublicPositionsSelect}
use vault_indexer.Database.Events.{PublicEventsSelect}
use vault_indexer.Database.Operations.{DatabaseOperations}
use vault_indexer.Positions.{ProcessPosition, append_some, compute_transfer}
use vault_indexer.Positions.Update.{opened, closed, opened_if, InRange}
use vault_indexer.Positions.Transfer.{HasShares, IsTransfer, compute_transfer_correct}
use vault_indexer.Positions.Fetch.{
  Client, transfer, get_most_recent_position, get_max_position_index_id,
}
use vault_indexer.Handlers.{EventData, string, number, lookup, get_string, get_number}
use vault_indexer.Handlers.Extract.{extract_transfer, TransferData}
use vault_indexer.Handlers.Position.{
  Headers, transfer_args, handle_transfer, position_operations, insert_operations,
  update_operations, handle_deposit, handle_withdraw, handle_rate_update, no_operations,
}
use vault_indexer.Handlers.Controller.{Codec, parse_event_data, dispatch, handle}

-- The arguments of a transfer of `n` shares in block `b`.
abbrev pub moved_shares : PublicEventsSelect → Text → Text → ℕ → ℕ → ProcessPosition
moved_shares event from to n b = record {
  receiver_address = to_lower to;
  sender_address = to_lower from;
  contract_address = to_lower event.contract_address;
  amount_shares = print_ℕ n;
  block_number = b;
}

-- An event named Transfer, with `n` shares in its data, in block `b`.
pub record TransferEvent (codec : Codec) (event : PublicEventsSelect) (from to : Text) (n b : ℕ)
    : Type 0 where
  pub event_data : EventData
  pub parses : parse_event_data codec event.raw_data ≡ ok event_data
  pub name : event.event_name ≡ text "Transfer"
  pub sender : lookup (text "from") event_data ≡ some (string from)
  pub receiver : lookup (text "to") event_data ≡ some (string to)
  pub value : lookup (text "value") event_data ≡ some (number n)
  pub exact : n < 2 ^ 53
  pub in_block : event.block_number ≡ pos b

-- What the reads of a transfer's positions find.
pub record Holders (db : Client) (args : ProcessPosition) (s t : PublicPositionsSelect) (a c m : ℕ)
    : Type 0 where
  pub sender : get_most_recent_position db args.sender_address args.contract_address ≡ ok (some s)
  pub receiver :
      get_most_recent_position db args.receiver_address args.contract_address ≡ ok (some t)
  pub highest : get_max_position_index_id db args.contract_address ≡ ok (pos m)
  pub sent : HasShares s a
  pub kept : HasShares t c
  pub positive : 0 < c

small_block : (b : ℕ) → b < 2 ^ 63 → to_uint64 (pos b) ≡ b
unfolding to_uint64
small_block b h = ground arith

args_of :
    (codec : Codec) (event : PublicEventsSelect) (from to : Text) (n b : ℕ)
    → (e : TransferEvent codec event from to n b) → b < 2 ^ 63
    → (extract_transfer e.event_data >>= λ d. ok (transfer_args event d))
      ≡ ok (moved_shares event from to n b)
unfolding extract_transfer get_string get_number transfer_args
args_of codec event from to n b e h =
    rw (e.receiver, e.sender, e.value, e.in_block, small_block b h, float64_exact n e.exact) refl

transferred :
    (db : Client) (args : ProcessPosition) (s t : PublicPositionsSelect) (a c m : ℕ)
    → IsTransfer args
    → Holders db args s t a c m
    → transfer db args ≡ compute_transfer args (some s) (some t) (pos m)
unfolding transfer
transferred db args s t a c m i h =
    rw (i.from_account, i.to_account, h.sender, h.receiver, h.highest) refl

dispatch_transfer :
    (db : Client) (chain : Headers) (event : PublicEventsSelect) (d : EventData)
    → event.event_name ≡ text "Transfer"
    → dispatch db chain event d ≡ handle_transfer db event d
unfolding dispatch eq_text text
dispatch_transfer db chain event d e = ap choose e
  where
    choose : Text → Result DatabaseOperations
    choose name =
        if eq_text name (text "Deposit")
        then handle_deposit db event d
        else if eq_text name (text "Transfer")
        then handle_transfer db event d
        else if eq_text name (text "WithdrawRequested")
        then handle_withdraw db event d
        else if eq_text name (text "RateUpdated")
        then handle_rate_update chain event d
        else ok no_operations

-- The operations of the transfer with these arguments.
abbrev operations_for : Client → ProcessPosition → Result DatabaseOperations
operations_for db args = let c = transfer db args in position_operations c c.error

handle_by_args :
    (db : Client) (event : PublicEventsSelect) (d : EventData) (args : ProcessPosition)
    → (extract_transfer d >>= λ x. ok (transfer_args event x)) ≡ ok args
    → handle_transfer db event d ≡ operations_for db args
unfolding handle_transfer
handle_by_args db event d args h = apart (extract_transfer d) ∙ ap (λ r. r >>= operations_for db) h
  where
    apart :
        (r : Result TransferData)
        → (r >>= λ x. operations_for db (transfer_args event x))
          ≡ ((r >>= λ x. ok (transfer_args event x)) >>= operations_for db)
    apart (ok x) = refl
    apart (err e) = refl

-- A transfer of fewer than 2 ^ 53 shares between two holders, in a block that a chain reaches: the raw
-- data is parsed, and the
-- handler asks for the rows of both holders, with the addresses in lower case. The receiver's row is
-- opened with the sum and the sender's with what is left, if anything is, and both old rows are closed.
pub handle_transfer_correct :
    (codec : Codec) (db : Client) (chain : Headers) (event : PublicEventsSelect) (from to : Text)
    (n b : ℕ) (s t : PublicPositionsSelect) (a c m : ℕ)
    → TransferEvent codec event from to n b
    → InRange b (m + 1)
    → IsTransfer (moved_shares event from to n b)
    → Holders db (moved_shares event from to n b) s t a c m
    → handle codec db chain event
      ≡ ok (record {
        inserts = insert_operations (
            append_some
              (opened (to_lower to) t.contract_address (m + 1) (c + n) b ∷ [])
              (opened_if (to_lower from) s.contract_address (m + 1) (a - n) b));
        updates =
            update_operations (closed t.id false b none ∷ closed s.id (a - n == 0) b none ∷ []);
      })
unfolding handle
handle_transfer_correct codec db chain event from to n b s t a c m e r i h =
    let args = moved_shares event from to n b in
    ap (λ d. d >>= dispatch db chain event) e.parses
    ∙ dispatch_transfer db chain event e.event_data e.name
    ∙ handle_by_args db event e.event_data args (args_of codec event from to n b e r.block)
    ∙ ap (λ k. position_operations k k.error)
        (transferred db args s t a c m i h
          ∙ compute_transfer_correct args n m (set_string-print_ℕ n) r s t a c i h.sent h.kept
              h.positive)
