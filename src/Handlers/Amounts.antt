-- ===== src/Handlers/Amounts.antt =====
-- What the handlers make of an event's fields, and what they ask for.
use vault_indexer.Prelude.{
  Text, ℕ, ◌%◌, ◌^◌, ◌≤◌, ◌<◌, ◌≡◌, refl, ◌≢◌, some, ok, text, print_ℕ, print_ℕ_inj, ap,
}
use vault_indexer.Float.{float64, float64_exact, float64_odd}
use vault_indexer.Database.Events.{PublicEventsSelect}
use vault_indexer.Positions.Fetch.{Client}
use vault_indexer.Handlers.{EventData, string, number, lookup, get_string, get_number}
use vault_indexer.Handlers.Extract.{extract_deposit, TransferData, extract_transfer}
use vault_indexer.Handlers.Position.{handle_deposit}

-- The amount of a transfer is exact below 2 ^ 53; an odd amount from there on is not the one that is
-- recorded.
pub extract_transfer_amount :
    (d : EventData) (from to : Text) (n : ℕ)
    → lookup (text "to") d ≡ some (string to)
    → lookup (text "from") d ≡ some (string from)
    → lookup (text "value") d ≡ some (number n)
    → (r : TransferData) × (extract_transfer d ≡ ok r)
      × (r.from ≡ from)
      × (r.to ≡ to)
      × (n < 2 ^ 53 → r.amount ≡ print_ℕ n)
      × (2 ^ 53 ≤ n → n % 2 ≡ 1 → r.amount ≢ print_ℕ n)
unfolding extract_transfer get_string get_number
extract_transfer_amount d from to n ht hf hv = (
  record { from = from; to = to; amount = print_ℕ (float64 n) },
  rw (ht, hf, hv) refl,
  refl,
  refl,
  λ small. ap print_ℕ (float64_exact n small),
  λ large odd e. float64_odd n large odd (print_ℕ_inj (float64 n) n e),
)

-- A deposit is credited to the sender: the owner, to whom the vault's shares go, must be there, and
-- makes no difference.
handle_deposit_ignores_owner :
    (db : Client) (event : PublicEventsSelect) (d d' : EventData)
    (sender owner owner' amount : Text)
    → extract_deposit d ≡ ok (record { sender = sender; owner = owner; amount_shares = amount })
    → extract_deposit d' ≡ ok (record { sender = sender; owner = owner'; amount_shares = amount })
    → handle_deposit db event d ≡ handle_deposit db event d'
unfolding handle_deposit
handle_deposit_ignores_owner db event d d' sender owner owner' amount h h' = rw (h, h') refl
