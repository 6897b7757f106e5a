-- ===== src/Ingestion/Complete.antt =====
-- After the backfill no event is missed, provided that none was missed before it; what was missed stays so.
use vault_indexer.Prelude.{
  ℕ, ℤ, pos, to_int64, ◌≤ℤ◌, ◌<ℤ◌, leb_ℤ, leb_ℤ→le, ◌≡◌, sym, subst, ap, ◌∙◌, Bool, false, Option,
  none, some, List, [], ◌∷◌, All, Any, Any-map, Contains, ok, ok-injective, Bool-cases, inl, inr,
  ◌⊎◌, arith,
}
use vault_indexer.Config.{ContractConfig}
use vault_indexer.Database.Events.{PublicEventsSelect}
use vault_indexer.Extractor.{AbiEvent, Log, EventIngestionInsert}
use vault_indexer.Query.{Reply, body, failed, malformed}
use vault_indexer.Queue.{EventLog}
use vault_indexer.Queue.Held.{Held}
use vault_indexer.Ingestion.{
  Sources, backfill, get_last_indexed_block, last_indexed, last_query, event_log, run_jobs,
}
use vault_indexer.Ingestion.Backfill.{
  Filters, Emitted, OfPair, IsLast, Wanted, Backfilled, backfill_correct,
}
use vault_indexer.Ingestion.Queued.{run_jobs-Held_own}

abbrev block_or : ℤ → Option ℤ → ℤ
block_or d none = d
block_or d (some n) = n

le_trans_ℤ : (a b c : ℤ) → a ≤ℤ b → b ≤ℤ c → a ≤ℤ c
le_trans_ℤ a b c h k = omega arith

not_le : (n p : ℤ) → leb_ℤ n p ≡ false → p <ℤ n
not_le n p h = ground arith

-- The table has the row of a log.
abbrev pub Ingested : List EventIngestionInsert → ContractConfig → AbiEvent → Log → Type 0
Ingested rows contract event log =
    Any
      (λ r.
        OfPair contract.address event.name r
        × (r.block_number ≡ pos log.block_number)
        × (r.log_index ≡ pos log.index))
      rows

module _ (sources : Sources) (chain : List Log) (filters : Filters sources chain)
    (current_block : ℕ) (rows : List EventIngestionInsert) (contract : ContractConfig)
    (event : AbiEvent)
    (is_last : IsLast rows contract.address event.name
      (sources.execute (last_query contract.address event.name))) where
  -- The chain has the log, in a block that the contract is followed in.
  abbrev pub Followed : Log → Type 0
  Followed log =
      Contains chain log
      × Emitted sources contract event log
      × (to_int64 contract.start_block ≤ℤ pos log.block_number)

  -- The table has every log of the contract and the event that is in a block below one of its rows of them.
  abbrev pub NoGap : Type 0
  NoGap =
      (log : Log)
      → Followed log
      → Any (λ r. OfPair contract.address event.name r × (pos log.block_number <ℤ r.block_number))
          rows
      → Ingested rows contract event log

  last_row :
      (reply : Reply (List PublicEventsSelect)) (n : ℤ)
      → IsLast rows contract.address event.name reply
      → last_indexed reply ≡ ok (some n)
      → Any (λ r. OfPair contract.address event.name r × (r.block_number ≡ n)) rows
  last_row (failed e) n i h = absurd (ground arith)
  last_row (malformed e) n i h = absurd (ground arith)
  last_row (body []) n i h = absurd (ground arith)
  last_row (body (e ∷ es)) n (a, u) h =
      let q : e.block_number ≡ n = ap (λ o. block_or e.block_number o) (ok-injective _ _ h) in
      Any-map (λ r p. (p.0, p.1 ∙ q)) rows a

  le_row :
      (b n : ℤ) (rs : List EventIngestionInsert)
      → Any (λ r. OfPair contract.address event.name r × (r.block_number ≡ b)) rs
      → All (λ r. OfPair contract.address event.name r → r.block_number ≤ℤ n) rs
      → b ≤ℤ n
  le_row b n [] a u = elim a [ ]
  le_row b n (r ∷ rs) (inl p) u = subst (λ z. z ≤ℤ n) p.1 (u.0 p.0)
  le_row b n (r ∷ rs) (inr a) u = le_row b n rs a u.1

  no_row :
      (b : ℤ) (rs : List EventIngestionInsert)
      → Any (λ r. OfPair contract.address event.name r × (r.block_number ≡ b)) rs
      → All (λ r. ¬ (OfPair contract.address event.name r)) rs
      → ⊥
  no_row b [] a u = a
  no_row b (r ∷ rs) (inl p) u = u.0 p.0
  no_row b (r ∷ rs) (inr a) u = no_row b rs a u.1

  lowest :
      (reply : Reply (List PublicEventsSelect)) (last : Option ℤ)
      → IsLast rows contract.address event.name reply
      → last_indexed reply ≡ ok last
      → (b : ℤ) → Any (λ r. OfPair contract.address event.name r × (r.block_number ≡ b)) rows
      → (log : Log) → Wanted sources chain filters current_block contract event last log
      → b ≤ℤ pos log.block_number
  lowest (failed e) last i h b a log w = absurd (ground arith)
  lowest (malformed e) last i h b a log w = absurd (ground arith)
  lowest (body []) last i h b a log w = absurd (no_row b rows a i)
  lowest (body (e ∷ es)) none i h b a log w = absurd (ground arith)
  lowest (body (e ∷ es)) (some n) i h b a log w =
      let q : e.block_number ≡ n = ap (λ o. block_or e.block_number o) (ok-injective _ _ h) in
      le_trans_ℤ b n (pos log.block_number)
        (subst (λ z. b ≤ℤ z) q (le_row b e.block_number rows a i.1)) w.2

  module _ (es : List EventLog) (b : backfill sources current_block contract event ≡ ok es)
      (gapless : NoGap) where
    by_last :
        (last : Option ℤ)
        → get_last_indexed_block sources contract.address event ≡ ok last
        → Backfilled sources chain filters current_block contract event last es
        → (log : Log) → Followed log
        → pos log.block_number ≤ℤ to_int64 current_block
        → Ingested rows contract event log ⊎ Contains es (event_log sources contract event log)
    unfolding get_last_indexed_block
    by_last none l f log (c, e, s) u = inr (f.complete log (c, e, s, u))
    by_last (some n) l f log (c, e, s) u = elim (Bool-cases (leb_ℤ n (pos log.block_number))) [
      | inl t ↦ inr (f.complete log (c, e, leb_ℤ→le n (pos log.block_number) t, u))
      | inr t ↦ inl (
          gapless log (c, e, s)
            (Any-map
              (λ r p. (
                p.0,
                subst (λ z. pos log.block_number <ℤ z) (sym p.1)
                    (not_le n (pos log.block_number) t),
              ))
              rows (last_row _ n is_last l)))
    ]

  -- If the table has every log of a contract and an event below the last block that it has of them, and their
  -- backfill runs and succeeds, then every log of the chain from the contract's first block up to the current block
  -- is in the table or in the queue.
  pub load_complete :
      (jobs : List (ContractConfig × AbiEvent)) (cancelled : ContractConfig × AbiEvent → Bool)
      (queue es : List EventLog)
      → Contains jobs (contract, event)
      → cancelled (contract, event) ≡ false
      → backfill sources current_block contract event ≡ ok es
      → NoGap
      → (log : Log) → Followed log
      → pos log.block_number ≤ℤ to_int64 current_block
      → Ingested rows contract event log
        ⊎ Held
            (run_jobs sources current_block cancelled jobs queue).0
            (event_log sources contract event log)
  load_complete jobs cancelled queue es m c b gapless log f u =
      let (last, l, filled) =
        backfill_correct sources chain filters current_block contract event es b in
      elim (by_last es b gapless last l filled log f u) [
        | inl i ↦ inl i
        | inr n ↦ inr (
            run_jobs-Held_own sources current_block cancelled jobs (contract, event) queue es
              (event_log sources contract event log) m c b n)
      ]

  below_last :
      (last : Option ℤ)
      → get_last_indexed_block sources contract.address event ≡ ok last
      → (es : List EventLog) → Backfilled sources chain filters current_block contract event last es
      → (b : ℤ) → Any (λ r. OfPair contract.address event.name r × (r.block_number ≡ b)) rows
      → (e : EventLog) → Contains es e
      → b ≤ℤ pos e.block_number
  unfolding get_last_indexed_block
  below_last last l es f b a e m =
      let (log, w, q) = f.sound e m in
      subst (λ (x : EventLog). b ≤ℤ pos x.block_number) (sym q)
        (lowest (sources.execute (last_query contract.address event.name)) last is_last l b a log w)

  -- Once the table has a row of a contract and an event, a backfill fetches none of their logs of a lower
  -- block, also none that the table lacks.
  pub backfill_skips :
      (es : List EventLog)
      → backfill sources current_block contract event ≡ ok es
      → (b : ℤ) → Any (λ r. OfPair contract.address event.name r × (r.block_number ≡ b)) rows
      → (e : EventLog) → Contains es e
      → b ≤ℤ pos e.block_number
  backfill_skips es h b a e m =
      let (last, l, filled) =
        backfill_correct sources chain filters current_block contract event es h in
      below_last last l es filled b a e m
