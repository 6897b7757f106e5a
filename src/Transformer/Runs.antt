-- ===== src/Transformer/Runs.antt =====
-- What the Transformer's loop (`Start` of go-indexer/indexer/transformer.go) may do to the tables, by a count
-- of errors in place of the fields that handleError keeps.
use vault_indexer.Prelude.{
  Text, ℕ, suc, ◌≤◌, ◌<◌, ◌≡◌, refl, ap, Bool, true, false, Option, none, some, List, [], ◌∷◌, ◌++◌,
  Result, ok, err,
}
use vault_indexer.Database.Events.{PublicEventsSelect}
use vault_indexer.Handlers.Position.{Headers}
use vault_indexer.Handlers.Controller.{Codec}
use vault_indexer.Transformer.{Store}
use vault_indexer.Transformer.Batch.{Applied, Ended}
use vault_indexer.Transformer.Loop.{Round, queries, scan_events}

abbrev scanned : List PublicEventsSelect → List (Result PublicEventsSelect)
scanned [] = []
scanned (event ∷ events) = ok event ∷ scanned events

-- The events are those of the rows before the first that does not scan, with its error if there is one.
abbrev pub Scanned :
    List (Result PublicEventsSelect) → List PublicEventsSelect → Option Text → Type 0
Scanned rows events none = rows ≡ scanned events
Scanned rows events (some e) =
    (rest : List (Result PublicEventsSelect)) × (rows ≡ scanned events ++ err e ∷ rest)

-- The errors after the scan.
abbrev pub count : Option Text → ℕ → ℕ
count none k = k
count (some e) k = suc k

-- Rounds that start after `k` errors in a row, and end with these tables, and stopped or not. No error
-- ends such a row but the one that reaches the limit; only a batch that succeeds does.
pub data Runs (store : Store) (codec : Codec) (chain : Headers) (limit : ℕ)
    : ℕ → store.State → List Round → store.State → Bool → Type 0 where
  stops :
      {k : ℕ} {s : store.State} {rounds : List Round}
      → limit ≤ k
      → Runs store codec chain limit k s rounds s true
  no_rounds : {k : ℕ} {s : store.State} → k < limit → Runs store codec chain limit k s [] s false
  left :
      {k : ℕ} {s : store.State} {rounds : List Round}
      → k < limit
      → Runs store codec chain limit k s (Round.leaves ∷ rounds) s false
  query_fails :
      {k i j : ℕ} {s t : store.State} {rounds : List Round} {b : Bool} {e : Text}
      → k < limit
      → Runs store codec chain limit (suc k) s rounds t b
      → Runs store codec chain limit k s (queries (err e) i j ∷ rounds) t b
  no_event :
      {k i j : ℕ} {s t : store.State} {rounds : List Round} {b : Bool}
      {rows : List (Result PublicEventsSelect)} (scan : Option Text)
      → k < limit
      → Scanned rows [] scan
      → Runs store codec chain limit (count scan k) s rounds t b
      → Runs store codec chain limit k s (queries (ok rows) i j ∷ rounds) t b
  scan_stops :
      {k i j : ℕ} {s : store.State} {rounds : List Round} {rows : List (Result PublicEventsSelect)}
      (events : List PublicEventsSelect) (scan : Option Text)
      → k < limit
      → Scanned rows events scan
      → limit ≤ count scan k
      → Runs store codec chain limit k s (queries (ok rows) i j ∷ rounds) s true
  batch_succeeds :
      {k i j : ℕ} {s t u : store.State} {rounds : List Round} {b : Bool}
      {rows : List (Result PublicEventsSelect)} {event : PublicEventsSelect}
      (events : List PublicEventsSelect) (scan : Option Text)
      → k < limit
      → Scanned rows (event ∷ events) scan
      → count scan k < limit
      → Applied store codec chain s (event ∷ events) t
      → Runs store codec chain limit 0 t rounds u b
      → Runs store codec chain limit k s (queries (ok rows) i j ∷ rounds) u b
  batch_fails :
      {k i j : ℕ} {s t u : store.State} {rounds : List Round} {b : Bool}
      {rows : List (Result PublicEventsSelect)} {event : PublicEventsSelect} {e : Text}
      (events : List PublicEventsSelect) (scan : Option Text)
      → k < limit
      → Scanned rows (event ∷ events) scan
      → count scan k < limit
      → Ended store codec chain s (event ∷ events) (t, some e)
      → Runs store codec chain limit (suc (count scan k)) t rounds u b
      → Runs store codec chain limit k s (queries (ok rows) i j ∷ rounds) u b

scan_from :
    (event : PublicEventsSelect) (rows : List (Result PublicEventsSelect))
    (events : List PublicEventsSelect) (scan : Option Text)
    → Scanned rows events scan
    → Scanned (ok event ∷ rows) (event ∷ events) scan
scan_from event rows events none h = ap (◌∷◌ (ok event)) h
scan_from event rows events (some e) (rest, h) = (rest, ap (◌∷◌ (ok event)) h)

pub scan_events-Scanned :
    (rows : List (Result PublicEventsSelect))
    → Scanned rows (scan_events rows).0 (scan_events rows).1
unfolding scan_events
scan_events-Scanned [] = refl
scan_events-Scanned (err e ∷ rows) = (rows, refl)
scan_events-Scanned (ok event ∷ rows) =
    scan_from event rows (scan_events rows).0 (scan_events rows).1 (scan_events-Scanned rows)
