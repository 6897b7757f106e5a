-- ===== src/Processor/Drains.antt =====
-- That the event processor comes to the end of its queue.
use vault_indexer.Prelude.{
  Text, ℕ, zero, suc, ◌+◌, ◌≤◌, ◌≡◌, not, Bool, true, Option, none, some, List, [], ◌∷◌, ok, refl,
  sym, subst, ap, ◌∙◌, arith, Bool-cases, inl, inr, ◌⊎◌, length, ok-injective,
}
use vault_indexer.Extractor.{write_idempotent_event}
use vault_indexer.Queue.{EventLog}
use vault_indexer.Queue.Up.{Heap}
use vault_indexer.Queue.Kept.{count, tally}
use vault_indexer.Processor.{
  Outcome, polls, defers, writes, reports, ends, Parts, Processor, Action, turns, start, after,
  goes_on, required_height,
}
use vault_indexer.Processor.Rounds.{Does, Taken, Extracted, round_correct}
use vault_indexer.Processor.Runs.{one, onwards, start_running}
use vault_indexer.Processor.Stored.{written}

abbrev pub repeated : ℕ → Action → List Action
repeated zero a = []
repeated (suc k) a = a ∷ repeated k a

count-all : (es : List EventLog) → count (λ e. true) es ≡ length es
unfolding count
count-all [] = refl
count-all (e ∷ es) = let r = count-all es in omega (arith, r)

module _ (parts : Parts) (n : ℕ) (good : EventLog → Bool) where
  open parts use {table, encoding}
  open table use {State}

  abbrev bad : EventLog → Bool
  bad e = not (good e)

  -- A good event has its confirmations at the head `n`, and is written without an error.
  abbrev pub Good : Type 0
  Good =
      (e : EventLog)
      → good e ≡ true
      → (required_height parts e ≤ n)
        × ((s : State) → (write_idempotent_event table encoding e.data_log e.event s).1 ≡ none)

  module _ (goods : Good) (queue queue' : List EventLog) (s s' : State)
      (b : count bad queue ≡ 0) where
    abbrev Drained : Outcome → Type 0
    Drained o =
        (goes_on parts o ≡ true)
        × (count bad queue' ≡ 0)
        × ((length queue' + 1 ≤ length queue) ⊎ (queue' ≡ []))
        × ((p : EventLog → Bool) → count p queue ≡ count p (written (o ∷ [])) + count p queue')

    Taken-good : (e : EventLog) (rest : List EventLog) → Taken parts e queue rest → good e ≡ true
    unfolding count
    Taken-good e rest (same, least) = elim (Bool-cases (good e)) [
      | inl g ↦ g
      | inr g ↦
          let c = same bad in
          let one_bad : tally (bad e) ≡ 1 = ap (λ z. tally (not z)) g in
          absurd (omega (arith, b, c, one_bad))
    ]

    not_failed :
        (e : EventLog) (m : Text) → good e ≡ true → Extracted parts (ok n) e s s' (some m) → ⊥
    not_failed e m g (h, q, l, w) =
        let fine = (goods e g).1 s in
        let same : some m ≡ none = sym (ap (λ (r : State × Option Text). r.1) w) ∙ fine in
        absurd (ground arith)

    drained : (o : Outcome) → Does parts (ok n) true queue s o queue' s' → Drained o
    unfolding count
    drained polls (q, q', e) = (refl, rw q' refl, inr q', rw (q, q') (λ p. refl))
    drained (defers e) ((m, h, l), (rest, t), same, q) =
        let high = (goods e (Taken-good e rest t)).0 in
        let head : n ≡ m = ok-injective n m h in absurd (omega (arith, high, head, l))
    drained (writes e) (t, x) =
        let c = t.0 bad in
        let all = t.0 (λ e. true) in
        let l = count-all queue in
        let l' = count-all queue' in
        (
          refl,
          omega (arith, b, c),
          inl (omega (arith, all, l, l')),
          (λ p. let s = t.0 p in omega (arith, s)),
        )
    drained (reports e m) (r, t, inl (k, h, same, f)) = absurd (ground arith)
    drained (reports e m) (r, t, inr (k, x, f)) = absurd (not_failed e k (Taken-good e queue' t) x)
    drained (ends e m) (r, t, f) = absurd (ground arith)

  -- What a run of rounds on a queue comes to.
  abbrev Empties : Processor State → List Outcome × Processor State → Type 0
  Empties t r = (r.1.queue ≡ []) × ((p : EventLog → Bool) → count p (written r.0) ≡ count p t.queue)

  written-count :
      (p : EventLog → Bool) (o : Outcome) (os : List Outcome)
      → count p (written (o ∷ os)) ≡ count p (written (o ∷ [])) + count p (written os)
  unfolding count
  written-count p polls os = omega arith
  written-count p (defers e) os = omega arith
  written-count p (writes e) os = omega arith
  written-count p (reports e m) os = omega arith
  written-count p (ends e m) os = omega arith

  shorter :
      (k : ℕ) (queue queue' : List EventLog)
      → (length queue' + 1 ≤ length queue) ⊎ (queue' ≡ [])
      → length queue ≤ suc k
      → length queue' ≤ k
  shorter k queue queue' (inl l) b = omega (arith, l, b)
  shorter k queue queue' (inr e) b = rw e (omega arith)

  empty_if : (queue : List EventLog) → length queue ≤ 0 → queue ≡ []
  empty_if [] l = refl
  empty_if (e ∷ es) l = absurd (omega (arith, l))

  -- If every event of the queue has its confirmations at the chain's head and can be written, and no other
  -- arrives, then as many rounds as the queue has events write all of them, each once, and leave the queue empty.
  pub start_drains :
      (k : ℕ) (t : Processor State)
      → Good
      → Heap t.queue
      → t.running ≡ true
      → count (λ e. not (good e)) t.queue ≡ 0
      → length t.queue ≤ k
      → let r = start parts (repeated k (turns (ok n) true)) t in
        (r.1.queue ≡ []) × ((p : EventLog → Bool) → count p (written r.0) ≡ count p t.queue)
  unfolding start count
  start_drains zero t g h u b l = let e = empty_if t.queue l in (e, (λ p. ap (count p) (sym e)))
  start_drains (suc k) t g h u b l =
      let actions = repeated k (turns (ok n) true) in
      let q = one parts (ok n) true actions t in
      let (d, heap) = round_correct parts (ok n) true t.queue t.state h in
      let (on, b', less_left, split) = drained g t.queue q.1 t.state q.2 b q.0 d in
      let (empty, all) =
        start_drains k (after parts q) g heap on b' (shorter k t.queue q.1 less_left l) in
      let os = (onwards parts (ok n) true actions t).0 in
      subst (Empties t) (sym (start_running parts (ok n) true actions t u)) (
        empty,
        λ p.
            let a = all p in
            let c = written-count p q.0 os in let d' = split p in omega (arith, a, c, d'),
      )
