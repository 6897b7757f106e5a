-- ===== src/Processor/Runs.antt =====
-- The event processor over all its rounds: an event is taken out for good only if it is
-- written or its round fails, where a full channel drops the error; and events are handled in the
-- order of the chain.
use vault_indexer.Prelude.{
  ℕ, ◌+◌, ◌≡◌, Bool, true, false, List, [], ◌∷◌, All, Result, refl, sym, subst, arith, Bool-cases,
  inl, inr, ap, if◌then◌else◌,
}
use vault_indexer.Queue.{EventLog, less, insert}
use vault_indexer.Queue.Order.{Before}
use vault_indexer.Queue.Up.{Heap}
use vault_indexer.Queue.Kept.{count, tally, insert_correct}
use vault_indexer.Queue.Bag.{SameEvents}
use vault_indexer.Processor.{
  Outcome, polls, defers, writes, reports, ends, Parts, Processor, Action, arrives, cancelled,
  turns, round, start, after,
}
use vault_indexer.Processor.Rounds.{Does, round_correct}

-- The events that a round took out of the queue for good.
abbrev pub handled : List Outcome → List EventLog
handled [] = []
handled (polls ∷ os) = handled os
handled (defers e ∷ os) = handled os
handled (writes e ∷ os) = e ∷ handled os
handled (reports e m ∷ os) = e ∷ handled os
handled (ends e m ∷ os) = e ∷ handled os

abbrev pub arrivals : List Action → List EventLog
arrivals [] = []
arrivals (arrives e ∷ actions) = e ∷ arrivals actions
arrivals (cancelled ∷ actions) = arrivals actions
arrivals (turns head room ∷ actions) = arrivals actions

-- No event is before one that stands earlier.
abbrev pub InChainOrder : List EventLog → Type 0
InChainOrder [] = Unit
InChainOrder (e ∷ es) = All (λ q. Before e q) es × InChainOrder es

module _ (parts : Parts) where
  open parts use {table}
  open table use {State}

  abbrev Keeps : List Action → Processor State → List Outcome × Processor State → Type 0
  Keeps actions t r =
      ((p : EventLog → Bool)
        → count p (handled r.0) + count p r.1.queue ≡ count p (arrivals actions) + count p t.queue)
      × Heap r.1.queue

  module _ (head : Result ℕ) (room : Bool) (actions : List Action) (t : Processor State) where
    abbrev pub one : Outcome × List EventLog × State
    one = round parts head room t.queue t.state

    abbrev pub onwards : List Outcome × Processor State
    onwards = start parts actions (after parts one)

    pub start_running :
        t.running ≡ true
        → start parts (turns head room ∷ actions) t ≡ (one.0 ∷ onwards.0, onwards.1)
    unfolding start
    start_running r =
        ap (λ b. if b then (one.0 ∷ onwards.0, onwards.1) else start parts actions t) r

    pub start_returned :
        t.running ≡ false → start parts (turns head room ∷ actions) t ≡ start parts actions t
    unfolding start
    start_returned r =
        ap (λ b. if b then (one.0 ∷ onwards.0, onwards.1) else start parts actions t) r

  counted :
      (p : EventLog → Bool) (head : Result ℕ) (room : Bool) (queue queue' : List EventLog)
      (s s' : State) (o : Outcome) (os : List Outcome)
      → Does parts head room queue s o queue' s'
      → count p (handled (o ∷ os)) + count p queue' ≡ count p (handled os) + count p queue
  unfolding count
  counted p head room queue queue' s s' polls os d = rw (d.0, d.1) refl
  counted p head room queue queue' s s' (defers e) os d = let same = d.2 p in omega (arith, same)
  counted p head room queue queue' s s' (writes e) os d = let same = d.0.0 p in omega (arith, same)
  counted p head room queue queue' s s' (reports e m) os d =
      let same = d.1.0 p in omega (arith, same)
  counted p head room queue queue' s s' (ends e m) os d = let same = d.1.0 p in omega (arith, same)

  -- Whatever the event processor meets, of any kind of events as many were handled or are still in the queue
  -- as were in it or have arrived, and the queue is a heap: an event is taken out for good only when
  -- it is written, or its round fails, with an error that is sent, or dropped by a channel without room.
  pub start_keeps :
      (actions : List Action) (t : Processor State)
      → Heap t.queue
      → let r = start parts actions t in
        ((p : EventLog → Bool)
          → count p (handled r.0) + count p r.1.queue
            ≡ count p (arrivals actions) + count p t.queue)
        × Heap r.1.queue
  unfolding start count
  start_keeps [] t h = (λ p. refl, h)
  start_keeps (arrives e ∷ actions) t h =
      let (heap, same) = insert_correct e t.queue h in
      let (balance, end) =
        start_keeps actions
          (record { queue = insert e t.queue; state = t.state; running = t.running }) heap in
      (λ p. let b = balance p in let s = same p in omega (arith, b, s), end)
  start_keeps (cancelled ∷ actions) t h =
      start_keeps actions (record { queue = t.queue; state = t.state; running = false }) h
  start_keeps (turns head room ∷ actions) t h = elim (Bool-cases t.running) [
    | inr r ↦
        subst (Keeps (turns head room ∷ actions) t) (sym (start_returned head room actions t r))
          (start_keeps actions t h)
    | inl r ↦
        let q = one head room actions t in
        let (d, heap) = round_correct parts head room t.queue t.state h in
        let (balance, end) = start_keeps actions (after parts q) heap in
        let os = (onwards head room actions t).0 in
        subst (Keeps (turns head room ∷ actions) t) (sym (start_running head room actions t r)) (
          (λ p.
              let b = balance p in
              let c = counted p head room t.queue q.1 t.state q.2 q.0 os d in omega (arith, b, c)),
          end,
        )
  ]

  none_counted :
      (e : EventLog) (es : List EventLog) → count (λ q. less q e) es ≡ 0 → All (λ q. Before e q) es
  unfolding count
  none_counted e [] h = tt
  none_counted e (x ∷ es) h = elim (Bool-cases (less x e)) [
    | inl l ↦ let one_ : tally (less x e) ≡ 1 = ap tally l in absurd (omega (arith, one_))
    | inr l ↦
        let zero_ : tally (less x e) ≡ 0 = ap tally l in
        (l, none_counted e es (omega (arith, zero_)))
  ]

  first_of :
      (e : EventLog) (os : List Outcome) (queue rest end : List EventLog)
      → SameEvents queue (e ∷ rest)
      → count (λ q. less q e) queue ≡ 0
      → count (λ q. less q e) (handled os) + count (λ q. less q e) end ≡ count (λ q. less q e) rest
      → All (λ q. Before e q) (handled os)
  unfolding count
  first_of e os queue rest end same least balance =
      let s = same (λ q. less q e) in none_counted e (handled os) (omega (arith, s, least, balance))

  ordered :
      (head : Result ℕ) (room : Bool) (queue queue' end : List EventLog) (s s' : State)
      (o : Outcome) (os : List Outcome)
      → Does parts head room queue s o queue' s'
      → ((p : EventLog → Bool) → count p (handled os) + count p end ≡ count p queue')
      → InChainOrder (handled os)
      → InChainOrder (handled (o ∷ os))
  ordered head room queue queue' end s s' polls os d b c = c
  ordered head room queue queue' end s s' (defers e) os d b c = c
  ordered head room queue queue' end s s' (writes e) os ((same, least), d) b c =
      (first_of e os queue queue' end same least (b (λ q. less q e)), c)
  ordered head room queue queue' end s s' (reports e m) os (r, (same, least), d) b c =
      (first_of e os queue queue' end same least (b (λ q. less q e)), c)
  ordered head room queue queue' end s s' (ends e m) os (r, (same, least), d) b c =
      (first_of e os queue queue' end same least (b (λ q. less q e)), c)

  -- Where no event arrives in between, the event processor handles the events of its queue in the order of
  -- the chain, also across the rounds that put an event back and those that fail.
  pub start-InChainOrder :
      (actions : List Action) (t : Processor State)
      → Heap t.queue
      → arrivals actions ≡ []
      → InChainOrder (handled (start parts actions t).0)
  unfolding start count
  start-InChainOrder [] t h a = tt
  start-InChainOrder (arrives e ∷ actions) t h a = absurd (ground arith)
  start-InChainOrder (cancelled ∷ actions) t h a =
      start-InChainOrder actions (record { queue = t.queue; state = t.state; running = false }) h a
  start-InChainOrder (turns head room ∷ actions) t h a = elim (Bool-cases t.running) [
    | inr r ↦
        subst (λ q. InChainOrder (handled q.0)) (sym (start_returned head room actions t r))
          (start-InChainOrder actions t h a)
    | inl r ↦
        let q = one head room actions t in
        let (d, heap) = round_correct parts head room t.queue t.state h in
        let (balance, end) = start_keeps actions (after parts q) heap in
        let rest = onwards head room actions t in
        subst (λ q. InChainOrder (handled q.0)) (sym (start_running head room actions t r))
          (ordered head room t.queue q.1 rest.1.queue t.state q.2 q.0 rest.0 d
            (λ p.
              let b = balance p in
              let n : count p (arrivals actions) ≡ 0 = ap (count p) a in omega (arith, b, n))
            (start-InChainOrder actions (after parts q) heap a))
  ]
