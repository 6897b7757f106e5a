-- ===== src/Transformer/Loop.antt =====
-- The Transformer's loop (`Start` of go-indexer/indexer/transformer.go): the query for events that are not
-- processed, the scan of its rows, and the batch, with the errors that Retry counts.
use vault_indexer.Prelude.{
  Text, ℕ, Bool, true, false, Option, none, some, List, [], ◌∷◌, Result, ok, err, text,
  if◌then◌else◌,
}
use vault_indexer.Database.Events.{PublicEventsSelect}
use vault_indexer.Handlers.Position.{Headers}
use vault_indexer.Handlers.Controller.{Codec}
use vault_indexer.Transformer.{Store, process_batch}
use vault_indexer.Transformer.Retry.{Retries, idle, succeeded, failed, turn}

-- The answer to the query, whose rows are scanned one by one; its text keeps the order of the chain, and
-- at most 100 rows.
abbrev Answer : Type 0
Answer = Result (List (Result PublicEventsSelect))

-- A round: the halt token or the end of the context is received, or the query is made; the jitters are of
-- the waits after an error of the query or a scan, and of the batch.
pub data Round : Type 0 where
  leaves : Round
  queries : Answer → ℕ → ℕ → Round

-- The loop over the rows. An error closes them, so that `Next` ends the loop: the rows before it are kept.
unfoldable pub scan_events :
    List (Result PublicEventsSelect) → List PublicEventsSelect × Option Text
scan_events [] = ([], none)
scan_events (err e ∷ rows) = ([], some e)
scan_events (ok event ∷ rows) = (event ∷ (scan_events rows).0, (scan_events rows).1)

abbrev pub after_scan : Option Text → ℕ → Retries → Retries
after_scan none jitter t = t
after_scan (some e) jitter t = turn (failed e jitter) t

module _ (store : Store) (codec : Codec) (chain : Headers) where
  open store use {State}

  -- BeginTx fails on a cancelled context.
  abbrev batch_unless_stopped : Bool → List PublicEventsSelect → State → State × Option Text
  batch_unless_stopped true events s = (s, some (text "context canceled"))
  batch_unless_stopped false events s = process_batch store codec chain events s

  abbrev pub after_batch : ℕ → Retries → State × Option Text → State × Retries
  after_batch jitter t (s, none) = (s, turn succeeded t)
  after_batch jitter t (s, some e) = (s, turn (failed e jitter) t)

  abbrev pub on_events : List PublicEventsSelect → ℕ → State → Retries → State × Retries
  on_events [] jitter s t = (s, turn idle t)
  on_events (event ∷ events) jitter s t =
      after_batch jitter t (batch_unless_stopped t.stopped (event ∷ events) s)

  abbrev pub on_answer : Answer → ℕ → ℕ → State → Retries → State × Retries
  on_answer (err e) jitter jitter' s t = (s, turn (failed e jitter) t)
  on_answer (ok rows) jitter jitter' s t =
      on_events (scan_events rows).0 jitter' s (after_scan (scan_events rows).1 jitter t)

  -- The rounds until one leaves, or the transformer has stopped.
  unfoldable pub loop : List Round → State → Retries → State × Retries
  loop [] s t = (s, t)
  loop (leaves ∷ rounds) s t = (s, t)
  loop (queries answer jitter jitter' ∷ rounds) s t =
      let r = on_answer answer jitter jitter' s t in
      let rest = loop rounds r.0 r.1 in if t.stopped then (s, t) else rest
