-- ===== src/Processor/Stored.antt =====
-- What the event processor wrote is in the table: every event of the queue is written, still in it, or
-- one whose round failed.
use vault_indexer.Prelude.{
  Text, ℕ, ◌+◌, ◌<◌, ◌≡◌, Bool, true, false, Option, none, some, List, [], ◌∷◌, All, Any, Result,
  refl, sym, subst, ap, arith, Bool-cases, inl, inr, ◌⊎◌, ℤ,
}
use vault_indexer.Extractor.{EventIngestionInsert, write_idempotent_event}
use vault_indexer.Extractor.Write.{HasKey, IsTable}
use vault_indexer.Extractor.Stored.{
  Stored, write_idempotent_event-HasKey, write_idempotent_event-Stored,
}
use vault_indexer.Queue.{EventLog, insert}
use vault_indexer.Queue.Up.{Heap}
use vault_indexer.Queue.Kept.{count, tally, insert_correct}
use vault_indexer.Processor.{
  Outcome, polls, defers, writes, reports, ends, Parts, Processor, Action, arrives, cancelled,
  turns, start, after,
}
use vault_indexer.Processor.Rounds.{Does, Failed, round_correct}
use vault_indexer.Processor.Runs.{
  handled, arrivals, one, onwards, start_running, start_returned, start_keeps,
}

-- The events that were written, and those whose round failed, with an error that was sent or, by a channel
-- without room, dropped.
abbrev pub written : List Outcome → List EventLog
written [] = []
written (polls ∷ os) = written os
written (defers e ∷ os) = written os
written (writes e ∷ os) = e ∷ written os
written (reports e m ∷ os) = written os
written (ends e m ∷ os) = written os

abbrev pub raised_about : List Outcome → List EventLog
raised_about [] = []
raised_about (polls ∷ os) = raised_about os
raised_about (defers e ∷ os) = raised_about os
raised_about (writes e ∷ os) = raised_about os
raised_about (reports e m ∷ os) = e ∷ raised_about os
raised_about (ends e m ∷ os) = e ∷ raised_about os

handled-count :
    (p : EventLog → Bool) (os : List Outcome)
    → count p (handled os) ≡ count p (written os) + count p (raised_about os)
unfolding count
handled-count p [] = refl
handled-count p (polls ∷ os) = handled-count p os
handled-count p (defers e ∷ os) = handled-count p os
handled-count p (writes e ∷ os) = let h = handled-count p os in omega (arith, h)
handled-count p (reports e m ∷ os) = let h = handled-count p os in omega (arith, h)
handled-count p (ends e m ∷ os) = let h = handled-count p os in omega (arith, h)

module _ (parts : Parts) (rows : parts.table.State → List EventIngestionInsert)
    (is_table : IsTable parts.table rows) where
  open parts use {table, encoding}
  open table use {State}

  -- The table keeps its rows.
  abbrev pub Grows : State → State → Type 0
  Grows s s' = (b l : ℤ) → Any (HasKey b l) (rows s) → Any (HasKey b l) (rows s')

  of_write-Grows :
      (e : EventLog) (s s' : State) (o : Option Text)
      → write_idempotent_event table encoding e.data_log e.event s ≡ (s', o)
      → Grows s s'
  of_write-Grows e s s' o w b l a =
      subst (λ (q : State × Option Text). Any (HasKey b l) (rows q.0)) w
        (write_idempotent_event-HasKey table rows is_table encoding e.data_log e.event b l s a)

  same-Grows : (s s' : State) → s' ≡ s → Grows s s'
  same-Grows s s' q b l a = subst (λ z. Any (HasKey b l) (rows z)) (sym q) a

  Failed-Grows :
      (head : Result ℕ) (e : EventLog) (s s' : State) (m : Text)
      → Failed parts head e s s' m
      → Grows s s'
  Failed-Grows head e s s' m (inl (k, h, q, r)) = same-Grows s s' q
  Failed-Grows head e s s' m (inr (k, (n, h, l, w), r)) = of_write-Grows e s s' (some k) w

  round-Grows :
      (head : Result ℕ) (room : Bool) (queue queue' : List EventLog) (s s' : State) (o : Outcome)
      → Does parts head room queue s o queue' s'
      → Grows s s'
  round-Grows head room queue queue' s s' polls d = same-Grows s s' d.2
  round-Grows head room queue queue' s s' (defers e) d = same-Grows s s' d.3
  round-Grows head room queue queue' s s' (writes e) (t, (n, h, l, w)) =
      of_write-Grows e s s' none w
  round-Grows head room queue queue' s s' (reports e m) d = Failed-Grows head e s s' m d.2
  round-Grows head room queue queue' s s' (ends e m) d = Failed-Grows head e s s' m d.2

  abbrev pub AllStored : List EventLog → State → Type 0
  AllStored es s = All (λ e. Stored e.data_log (rows s)) es

  round-Stored :
      (head : Result ℕ) (room : Bool) (queue queue' : List EventLog) (s s' end : State)
      (o : Outcome) (os : List Outcome)
      → Does parts head room queue s o queue' s'
      → Grows s' end
      → AllStored (written os) end
      → AllStored (written (o ∷ os)) end
  round-Stored head room queue queue' s s' end polls os d g a = a
  round-Stored head room queue queue' s s' end (defers e) os d g a = a
  round-Stored head room queue queue' s s' end (writes e) os (t, (n, h, l, w)) g a = (
    g _ _ (
        subst (λ (q : State × Option Text). Stored e.data_log (rows q.0)) w
          (write_idempotent_event-Stored table rows is_table encoding e.data_log e.event s
            (ap (λ (q : State × Option Text). q.1) w))),
    a,
  )
  round-Stored head room queue queue' s s' end (reports e m) os d g a = a
  round-Stored head room queue queue' s s' end (ends e m) os d g a = a

  -- What was written stays in the table.
  pub start-Stored :
      (actions : List Action) (t : Processor State)
      → Heap t.queue
      → let r = start parts actions t in Grows t.state r.1.state × AllStored (written r.0) r.1.state
  unfolding start
  start-Stored [] t h = ((λ b l a. a), tt)
  start-Stored (arrives e ∷ actions) t h =
      start-Stored actions
        (record { queue = insert e t.queue; state = t.state; running = t.running })
        (insert_correct e t.queue h).0
  start-Stored (cancelled ∷ actions) t h =
      start-Stored actions (record { queue = t.queue; state = t.state; running = false }) h
  start-Stored (turns head room ∷ actions) t h = elim (Bool-cases t.running) [
    | inr r ↦
        subst (λ q. Grows t.state q.1.state × AllStored (written q.0) q.1.state)
          (sym (start_returned parts head room actions t r)) (start-Stored actions t h)
    | inl r ↦
        let q = one parts head room actions t in
        let (d, heap) = round_correct parts head room t.queue t.state h in
        let (grows, stored) = start-Stored actions (after parts q) heap in
        let rest = onwards parts head room actions t in
        subst (λ z. Grows t.state z.1.state × AllStored (written z.0) z.1.state)
          (sym (start_running parts head room actions t r))
          (
            (λ b l a. grows b l (round-Grows head room t.queue q.1 t.state q.2 q.0 d b l a)),
            round-Stored head room t.queue q.1 t.state q.2 rest.1.state q.0 rest.0 d grows stored,
          )
  ]

  pub all_counted :
      (p : EventLog → Bool) (P : EventLog → Type 0) (es : List EventLog)
      → All P es
      → 0 < count p es
      → (e : EventLog) × (p e ≡ true) × P e
  unfolding count
  all_counted p P [] a h = absurd (omega (arith, h))
  all_counted p P (e ∷ es) (x, a) h = elim (Bool-cases (p e)) [
    | inl t ↦ (e, t, x)
    | inr t ↦
        let none_here : tally (p e) ≡ 0 = ap tally t in
        all_counted p P es a (omega (arith, h, none_here))
  ]

  one_of : (a b c : ℕ) → 0 < a + b + c → (0 < a) ⊎ ((0 < b) ⊎ (0 < c))
  one_of a b c h = ground arith

  -- Of any kind of events, one of which is in the queue or arrives: one is written, and the table has a row
  -- of its log at the end; or one is still in the queue; or an error about one was raised.
  pub start_ingests :
      (p : EventLog → Bool) (actions : List Action) (t : Processor State)
      → Heap t.queue
      → 0 < count p (arrivals actions) + count p t.queue
      → let r = start parts actions t in
        ((e : EventLog) × (p e ≡ true) × Stored e.data_log (rows r.1.state))
        ⊎ (0 < count p r.1.queue)
        ⊎ (0 < count p (raised_about r.0))
  start_ingests p actions t h k =
      let r = start parts actions t in
      let (balance, heap) = start_keeps parts actions t h in
      let b = balance p in
      let split = handled-count p r.0 in
      elim (one_of (count p (written r.0)) (count p r.1.queue) (count p (raised_about r.0))
        (omega (arith, k, b, split))) [
          | inl w ↦ inl (
              all_counted p (λ e. Stored e.data_log (rows r.1.state)) (written r.0)
                (start-Stored actions t h).1 w)
          | inr o ↦ inr o
        ]
