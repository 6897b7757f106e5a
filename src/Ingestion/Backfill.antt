-- ===== src/Ingestion/Backfill.antt =====
-- What the backfill puts into the queue: every log of the chain from the last indexed block on, and no other.
use vault_indexer.Prelude.{
  Text, ℕ, ℤ, pos, to_int64, ◌≤ℤ◌, ◌≡◌, ◌↔◌, refl, subst, ap, Option, none, some, List, [], ◌∷◌,
  map, All, Any, Contains, Result, ok, err, ok-injective, bind-ok, text, inl, inr, arith,
}
use vault_indexer.Config.{ContractConfig}
use vault_indexer.Database.Events.{PublicEventsSelect}
use vault_indexer.Extractor.{AbiEvent, Log, EventIngestionInsert}
use vault_indexer.Query.{Reply, body, failed, malformed}
use vault_indexer.Queue.{EventLog}
use vault_indexer.Ingestion.{
  FilterQuery, Sources, backfill, get_last_indexed_block, first_block, event_query, event_log, told,
}

-- The topics of a log fit a query's: an empty alternative fits any topic.
abbrev pub TopicsFit : List (List Text) → List Text → Type 0
TopicsFit [] topics = Unit
TopicsFit (ids ∷ query) [] = ⊥
TopicsFit ([] ∷ query) (t ∷ topics) = TopicsFit query topics
TopicsFit ((id ∷ ids) ∷ query) (t ∷ topics) = Contains (id ∷ ids) t × TopicsFit query topics

abbrev pub FromFits : Option ℤ → ℕ → Type 0
FromFits none n = Unit
FromFits (some z) n = z ≤ℤ pos n

abbrev pub ToFits : Option ℤ → ℕ → Type 0
ToFits none n = Unit
ToFits (some z) n = pos n ≤ℤ z

-- A log is of a contract and an event.
abbrev pub Emitted : Sources → ContractConfig → AbiEvent → Log → Type 0
Emitted sources contract event log =
    (log.address ≡ sources.hex_to_address contract.address)
    × TopicsFit ((sources.event_id event ∷ []) ∷ []) log.topics

-- FilterLogs answers with the logs of the chain that fit the query, or with an error.
abbrev pub Filters : Sources → List Log → Type 0
Filters sources chain =
    (q : FilterQuery) (logs : List Log)
    → sources.filter_logs q ≡ ok logs
    → (log : Log)
    → Contains logs log ↔ (
        Contains chain log
        × Contains q.addresses log.address
        × TopicsFit q.topics log.topics
        × FromFits q.from_block log.block_number
        × ToFits q.to_block log.block_number)

abbrev pub OfPair : Text → Text → EventIngestionInsert → Type 0
OfPair contract_address event_name r =
    (r.contract_address ≡ contract_address) × (r.event_name ≡ event_name)

-- The reply to the query for the last event of a contract and a name: an error, no row if the table has none
-- of them, or one with the highest block.
abbrev pub IsLast :
    List EventIngestionInsert → Text → Text → Reply (List PublicEventsSelect) → Type 0
IsLast rows a n (failed e) = Unit
IsLast rows a n (malformed e) = Unit
IsLast rows a n (body []) = All (λ r. ¬ (OfPair a n r)) rows
IsLast rows a n (body (e ∷ es)) =
    Any (λ r. OfPair a n r × (r.block_number ≡ e.block_number)) rows
    × All (λ r. OfPair a n r → r.block_number ≤ℤ e.block_number) rows

module _ (sources : Sources) (chain : List Log) (filters : Filters sources chain)
    (current_block : ℕ) (contract : ContractConfig) (event : AbiEvent) where
  -- The logs that one backfill is about, from a block on.
  abbrev pub Wanted : Option ℤ → Log → Type 0
  Wanted last log =
      Contains chain log
      × Emitted sources contract event log
      × (first_block contract last ≤ℤ pos log.block_number)
      × (pos log.block_number ≤ℤ to_int64 current_block)

  -- What a backfill inserts.
  pub record Backfilled (last : Option ℤ) (es : List EventLog) : Type 0 where
    pub complete :
        (log : Log) → Wanted last log → Contains es (event_log sources contract event log)
    pub sound :
        (e : EventLog)
        → Contains es e
        → (log : Log) × Wanted last log × (e ≡ event_log sources contract event log)

  of_map :
      (logs : List Log) (e : EventLog)
      → Contains (map (event_log sources contract event) logs) e
      → (log : Log) × Contains logs log × (e ≡ event_log sources contract event log)
  of_map [] e m = elim m [ ]
  of_map (log ∷ logs) e (inl h) = (log, inl refl, h)
  of_map (log ∷ logs) e (inr m) = let (l, c, h) = of_map logs e m in (l, inr c, h)

  one_address :
      (a : Text)
      → Contains (sources.hex_to_address contract.address ∷ []) a
      → a ≡ sources.hex_to_address contract.address
  one_address a (inl h) = h
  one_address a (inr m) = elim m [ ]

  log-Contains :
      (log : Log) (logs : List Log)
      → Contains logs log
      → Contains
          (map (event_log sources contract event) logs)
          (event_log sources contract event log)
  log-Contains log [] m = elim m [ ]
  log-Contains log (l ∷ ls) (inl q) = inl (ap (event_log sources contract event) q)
  log-Contains log (l ∷ ls) (inr m) = inr (log-Contains log ls m)

  of_logs :
      (last : Option ℤ) (logs : List Log)
      → sources.filter_logs (
          event_query sources contract event
            (some (first_block contract last))
            (some (to_int64 current_block)))
        ≡ ok logs
      → Backfilled last (map (event_log sources contract event) logs)
  of_logs last logs h = record {
    complete =
        λ log w. log-Contains log logs ((filters _ logs h log).1 (w.0, inl w.1.0, w.1.1, w.2, w.3));
    sound = λ e m.
        let (log, c, q) = of_map logs e m in
        let (there, a, t, f, u) = (filters _ logs h log).0 c in
        (log, (there, (one_address log.address a, t), f, u), q);
  }

  told-ok {ℓ} :
      {A : Type ℓ} (message : Text) (r : Result A) (a : A)
      → told message contract event r ≡ ok a
      → r ≡ ok a
  told-ok message (ok b) a h = h
  told-ok message (err e) a h = absurd (ground arith)

  -- A backfill that succeeds inserts exactly the logs of the contract and the event that the chain has from
  -- the last indexed block on, or the contract's first block if none is indexed, up to the current block.
  pub backfill_correct :
      (es : List EventLog)
      → backfill sources current_block contract event ≡ ok es
      → (last : Option ℤ) × (get_last_indexed_block sources contract.address event ≡ ok last)
        × Backfilled last es
  unfolding backfill
  backfill_correct es h =
      let (last, l, next) =
        bind-ok
          (told (text "failed to get last indexed block: ") contract event
            (get_last_indexed_block sources contract.address event))
          _ es h in
      let (logs, f, end) =
        bind-ok
          (told (text "failed to get historical events: ") contract event (
            sources.filter_logs (
              event_query sources contract event (some (first_block contract last))
                (some (to_int64 current_block)))))
          _ es next in
      (
        last,
        told-ok _ _ last l,
        subst (Backfilled last) (ok-injective _ es end) (of_logs last logs (told-ok _ _ logs f)),
      )
