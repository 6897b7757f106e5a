-- ===== src/Transformer/Batch.antt =====
-- Each event of a batch is applied whole or not at all, and in order.
use vault_indexer.Prelude.{
  Text, ◌≡◌, refl, Option, none, some, List, [], ◌∷◌, ◌++◌, Result, ok, err, ap,
}
use vault_indexer.Database.Events.{PublicEventsSelect}
use vault_indexer.Handlers.Position.{Headers}
use vault_indexer.Handlers.Controller.{Codec}
use vault_indexer.Transformer.{Store, process_event, process_batch, continue_batch}

-- Every event of the list went through, one after the other, and led from one state to the other.
pub data Applied (store : Store) (codec : Codec) (chain : Headers)
    : store.State → List PublicEventsSelect → store.State → Type 0 where
  done : {s : store.State} → Applied store codec chain s [] s
  step :
      {s t u : store.State} {event : PublicEventsSelect} {events : List PublicEventsSelect}
      → process_event store codec chain event s ≡ ok t
      → Applied store codec chain t events u
      → Applied store codec chain s (event ∷ events) u

module _ (store : Store) (codec : Codec) (chain : Headers) where
  open store use {State}

  -- How a batch ends: all its events were applied; or those before one event were, and that one failed
  -- on the tables that they left, with the error that is returned.
  abbrev pub Ended : State → List PublicEventsSelect → State × Option Text → Type 0
  Ended s events (s', none) = Applied store codec chain s events s'
  Ended s events (s', some e) =
      (before : List PublicEventsSelect) × (event : PublicEventsSelect) × (rest : List
        PublicEventsSelect)
      × (events ≡ before ++ event ∷ rest)
      × Applied store codec chain s before s'
      × (process_event store codec chain event s' ≡ err e)

  Ended-step :
      (s t : State) (event : PublicEventsSelect) (events : List PublicEventsSelect)
      (r : State × Option Text)
      → process_event store codec chain event s ≡ ok t
      → Ended t events r
      → Ended s (event ∷ events) r
  Ended-step s t event events (s', none) p h = step p h
  Ended-step s t event events (s', some e) p h =
      (event ∷ h.0, h.1, h.2, ap (◌∷◌ event) h.3, step p h.4, h.5)

  Ended-continue :
      (s : State) (event : PublicEventsSelect) (events : List PublicEventsSelect) (r : Result State)
      → process_event store codec chain event s ≡ r
      → ((t : State) → Ended t events (process_batch store codec chain events t))
      → Ended s
          (event ∷ events)
          (continue_batch store codec chain r s (process_batch store codec chain events))
  Ended-continue s event events (ok t) p ih = Ended-step s t event events _ p (ih t)
  Ended-continue s event events (err e) p ih = ([], event, events, refl, done, p)

  -- processBatch applies the events in order, each whole or not at all, and stops at the first that
  -- fails: what is committed is what the events before it did.
  pub process_batch_atomic :
      (events : List PublicEventsSelect) (s : State)
      → Ended s events (process_batch store codec chain events s)
  unfolding process_batch
  process_batch_atomic [] s = done
  process_batch_atomic (event ∷ events) s =
      Ended-continue s event events (process_event store codec chain event s) refl
        (process_batch_atomic events)
