-- ===== src/Transformer/Refined.antt =====
-- The Transformer's loop (`Start` of go-indexer/indexer/transformer.go) does to the tables what the count of
-- errors allows.
use vault_indexer.Prelude.{
  Text, ℕ, ◌+◌, zero, suc, ◌≤◌, ◌<◌, ◌≡◌, refl, ◌∙◌, subst, sym, Bool, true, false, Option, none,
  some, List, [], ◌∷◌, Result, ok, err, text, leb, arith, Bool-cases, inl, inr,
}
use vault_indexer.Database.Events.{PublicEventsSelect}
use vault_indexer.Handlers.Position.{Headers}
use vault_indexer.Handlers.Controller.{Codec}
use vault_indexer.Transformer.{Store}
use vault_indexer.Transformer.Batch.{Ended, process_batch_atomic}
use vault_indexer.Transformer.Loop.{
  Round, queries, scan_events, after_scan, after_batch, on_events, on_answer, loop,
}
use vault_indexer.Transformer.Retry.{
  Retries, new_retries, succeeded, failed, turn, handle_error, limit_of, after, first_of,
  after-stopped, after-max_retries, turn_failed,
}
use vault_indexer.Transformer.Runs.{
  Scanned, count, Runs, stops, no_rounds, left, query_fails, no_event, scan_stops, batch_succeeds,
  batch_fails, scan_events-Scanned,
}

is_below : (a b : ℕ) → leb a b ≡ false → b < a
is_below a b h = ground arith

is_reached : (a b : ℕ) → leb a b ≡ true → a ≤ b
is_reached a b h = ground arith

-- An error does not start a stopped transformer again.
turn_stopped :
    (e : Text) (jitter max n : ℕ) (last : Option Text) (b : Bool)
    → b ≡ true
    → (turn
        (failed e jitter)
        (record { max_retries = max; retry_count = n; last_error = last; stopped = b })).stopped
      ≡ true
unfolding turn handle_error
turn_stopped e jitter max n none b h = h
turn_stopped e jitter max n (some x) b h = elim (Bool-cases (leb max (n + 1))) [
  | inl r ↦ rw (turn, handle_error, r) refl
  | inr r ↦ rw (turn, handle_error, r) h
]

module _ (max : ℕ) where
  -- The error of a scan counts as one.
  after_scan-after :
      (scan : Option Text) (jitter : ℕ) (e : Text) (k : ℕ)
      → leb (limit_of max) k ≡ false
      → (e' : Text) × (after_scan scan jitter (after max e k) ≡ after max e' (count scan k))
  after_scan-after none jitter e k h = (e, refl)
  after_scan-after (some x) jitter e k h = (first_of max e k x, turn_failed max e k x jitter h)

  turn_succeeded :
      (e : Text) (k : ℕ)
      → leb (limit_of max) k ≡ false
      → turn succeeded (after max e k) ≡ new_retries max
  unfolding turn
  turn_succeeded e k h = rw (after-max_retries max e k, after-stopped max e k, h) refl

module _ (store : Store) (codec : Codec) (chain : Headers) (max : ℕ) where
  open store use {State}

  loop-stopped :
      (rounds : List Round) (s : State) (t : Retries)
      → t.stopped ≡ true
      → loop store codec chain rounds s t ≡ (s, t)
  unfolding loop
  loop-stopped [] s t h = refl
  loop-stopped (Round.leaves ∷ rounds) s t h = refl
  loop-stopped (queries answer i j ∷ rounds) s t h = rw h refl

  loop-leaves :
      (rounds : List Round) (s : State) (t : Retries)
      → loop store codec chain (Round.leaves ∷ rounds) s t ≡ (s, t)
  unfolding loop
  loop-leaves rounds s t = refl

  loop-started :
      (answer : Result (List (Result PublicEventsSelect))) (i j : ℕ) (rounds : List Round)
      (s : State) (t : Retries)
      → t.stopped ≡ false
      → loop store codec chain (queries answer i j ∷ rounds) s t ≡ (
          let r = on_answer store codec chain answer i j s t in
          loop store codec chain rounds r.0 r.1)
  unfolding loop
  loop-started answer i j rounds s t h = rw h refl

  abbrev RunsTo : ℕ → State → List Round → State × Retries → Type 0
  RunsTo k s rounds r = Runs store codec chain (limit_of max) k s rounds r.0 r.1.stopped

  RunsTo-stopped :
      (k : ℕ) (s : State) (rounds : List Round) (t : Retries)
      → t.stopped ≡ true
      → Runs store codec chain (limit_of max) k s rounds s true
      → RunsTo k s rounds (s, t)
  RunsTo-stopped k s rounds t h r =
      subst (Runs store codec chain (limit_of max) k s rounds s) (sym h) r

  -- The rounds after a batch, which a stopped transformer does not begin.
  batch-Runs :
      (event : PublicEventsSelect) (events : List PublicEventsSelect) (i j : ℕ)
      (rows : List (Result PublicEventsSelect)) (scan : Option Text) (rounds : List Round)
      (s : State) (e : Text) (k : ℕ)
      → k < limit_of max
      → Scanned rows (event ∷ events) scan
      → leb (limit_of max) (count scan k) ≡ false
      → ((k' : ℕ) (s' : State) (e' : Text)
          → RunsTo k' s' rounds (loop store codec chain rounds s' (after max e' k')))
      → (r : State × Option Text) → Ended store codec chain s (event ∷ events) r
      → (let q = after_batch store codec chain j (after max e (count scan k)) r in
          RunsTo k s (queries (ok rows) i j ∷ rounds) (loop store codec chain rounds q.0 q.1))
  batch-Runs event events i j rows scan rounds s e k h sc below ih (s', none) a =
      rw (turn_succeeded max e (count scan k) below)
        (batch_succeeds events scan h sc (is_below _ _ below) a (ih 0 s' e))
  batch-Runs event events i j rows scan rounds s e k h sc below ih (s', some x) a =
      rw (turn_failed max e (count scan k) x j below) (
        batch_fails events scan h sc (is_below _ _ below) a
          (ih (suc (count scan k)) s' (first_of max e (count scan k) x)))

  events-Runs :
      (events : List PublicEventsSelect) (i j : ℕ) (rows : List (Result PublicEventsSelect))
      (scan : Option Text) (rounds : List Round) (s : State) (e : Text) (k : ℕ)
      → k < limit_of max
      → Scanned rows events scan
      → ((k' : ℕ) (s' : State) (e' : Text)
          → RunsTo k' s' rounds (loop store codec chain rounds s' (after max e' k')))
      → (let q = on_events store codec chain events j s (after max e (count scan k)) in
          RunsTo k s (queries (ok rows) i j ∷ rounds) (loop store codec chain rounds q.0 q.1))
  unfolding turn
  events-Runs [] i j rows scan rounds s e k h sc ih = no_event scan h sc (ih (count scan k) s e)
  events-Runs (event ∷ events) i j rows scan rounds s e k h sc ih =
      elim (Bool-cases (leb (limit_of max) (count scan k))) [
        | inl r ↦
            let n = count scan k in
            let p : (after max e n).stopped ≡ true = after-stopped max e n ∙ r in
            let t = after max e n in
            let q =
              turn_stopped (text "context canceled") j t.max_retries t.retry_count t.last_error
                t.stopped p in
            rw (p, loop-stopped rounds s (turn (failed (text "context canceled") j) t) q)
              (RunsTo-stopped k s (queries (ok rows) i j ∷ rounds)
                (turn (failed (text "context canceled") j) t) q
                (scan_stops (event ∷ events) scan h sc (is_reached _ _ r)))
        | inr r ↦ rw (after-stopped max e (count scan k) ∙ r) (
            batch-Runs event events i j rows scan rounds s e k h sc r ih _
              (process_batch_atomic store codec chain (event ∷ events) s))
      ]

  round-Runs :
      (round : Round) (rounds : List Round) (s : State) (e : Text) (k : ℕ)
      → leb (limit_of max) k ≡ false
      → ((k' : ℕ) (s' : State) (e' : Text)
          → RunsTo k' s' rounds (loop store codec chain rounds s' (after max e' k')))
      → RunsTo k s (round ∷ rounds) (loop store codec chain (round ∷ rounds) s (after max e k))
  round-Runs Round.leaves rounds s e k h ih =
      rw (loop-leaves rounds s (after max e k), after-stopped max e k ∙ h) (left (is_below _ _ h))
  round-Runs (queries (err x) i j) rounds s e k h ih =
      rw
        (
          loop-started (err x) i j rounds s (after max e k) (after-stopped max e k ∙ h),
          turn_failed max e k x i h,
        )
        (query_fails (is_below _ _ h) (ih (suc k) s (first_of max e k x)))
  round-Runs (queries (ok rows) i j) rounds s e k h ih =
      let (e', q) = after_scan-after max (scan_events rows).1 i e k h in
      rw (loop-started (ok rows) i j rounds s (after max e k) (after-stopped max e k ∙ h), q)
        (events-Runs (scan_events rows).0 i j rows (scan_events rows).1 rounds s e' k
          (is_below _ _ h) (scan_events-Scanned rows) ih)

  unless_at_limit :
      (rounds : List Round) (k : ℕ) (s : State) (e : Text)
      → (leb (limit_of max) k ≡ false
          → RunsTo k s rounds (loop store codec chain rounds s (after max e k)))
      → RunsTo k s rounds (loop store codec chain rounds s (after max e k))
  unless_at_limit rounds k s e below = elim (Bool-cases (leb (limit_of max) k)) [
    | inl r ↦
        let p : (after max e k).stopped ≡ true = after-stopped max e k ∙ r in
        rw (loop-stopped rounds s (after max e k) p)
          (RunsTo-stopped k s rounds (after max e k) p (stops (is_reached _ _ r)))
    | inr r ↦ below r
  ]

  loop-RunsTo :
      (rounds : List Round) (k : ℕ) (s : State) (e : Text)
      → RunsTo k s rounds (loop store codec chain rounds s (after max e k))
  unfolding loop
  loop-RunsTo [] k s e =
      unless_at_limit [] k s e (λ r. rw (after-stopped max e k ∙ r) (no_rounds (is_below _ _ r)))
  loop-RunsTo (round ∷ rounds) k s e =
      unless_at_limit (round ∷ rounds) k s e
        (λ r. round-Runs round rounds s e k r (loop-RunsTo rounds))

  -- The loop of a new transformer: the events that a query's rows give before the first that does not
  -- scan are a batch. If it succeeds, they are applied, each whole and in order, and the next round starts
  -- with no errors. If it fails, those before the failed event are. An error of a query, a scan or a batch
  -- adds one to the errors in a row, and a query without events changes neither tables nor errors. When the
  -- errors have reached `max_retries + 1`, or 2 where that is less, the loop has stopped and touches nothing
  -- more, the batch of a scan whose error was the last one included; else it ends only as its rounds do.
  pub loop-Runs :
      (rounds : List Round) (s : State)
      → (let r = loop store codec chain rounds s (new_retries max) in
          Runs store codec chain (limit_of max) 0 s rounds r.0 r.1.stopped)
  loop-Runs rounds s = loop-RunsTo rounds zero s []
