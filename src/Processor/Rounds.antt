-- ===== src/Processor/Rounds.antt =====
-- What one round of the event processor does, on every branch.
use vault_indexer.Prelude.{
  Text, ℕ, ◌≤◌, ◌<◌, ◌≡◌, ltb, Bool, true, false, Option, none, some, List, [], ◌∷◌, ◌++◌, Result,
  ok, err, text, refl, sym, subst, arith, Bool-cases, inl, inr, ◌⊎◌, ◌∙◌,
}
use vault_indexer.Extractor.{write_idempotent_event}
use vault_indexer.Queue.{EventLog, less, next}
use vault_indexer.Queue.Up.{Heap}
use vault_indexer.Queue.Kept.{count, insert_correct, next_correct}
use vault_indexer.Queue.Bag.{SameEvents, SameEvents-cons, none_before}
use vault_indexer.Processor.{
  Outcome, polls, defers, writes, reports, ends, Parts, required_height, extracted, process,
  process_next, round, send_error,
}

module _ (parts : Parts) where
  open parts use {table, encoding, required_confirmations, show_event}
  open table use {State}

  -- The event was confirmed, and was written with this error or none.
  abbrev pub Extracted : Result ℕ → EventLog → State → State → Option Text → Type 0
  Extracted head e s s' o =
      (n : ℕ) × (head ≡ ok n)
      × (required_height parts e ≤ n)
      × (write_idempotent_event table encoding e.data_log e.event s ≡ (s', o))

  -- The event was taken out of the queue, of which none is before it.
  abbrev pub Taken : EventLog → List EventLog → List EventLog → Type 0
  Taken e queue rest = SameEvents queue (e ∷ rest) × (count (λ q. less q e) queue ≡ 0)

  abbrev pub Failed : Result ℕ → EventLog → State → State → Text → Type 0
  Failed head e s s' m =
      ((k : Text) × (head ≡ err k)
        × (s' ≡ s)
        × (m ≡ text "failed to get current block number: " ++ k))
      ⊎ ((k : Text) × Extracted head e s s' (some k)
          × (m ≡ text "failed to extract event " ++ k ++ text ", " ++ show_event e))

  -- What a round may do to the queue and the table.
  abbrev pub Does :
      Result ℕ → Bool → List EventLog → State → Outcome → List EventLog → State → Type 0
  Does head room queue s polls queue' s' = (queue ≡ []) × (queue' ≡ []) × (s' ≡ s)
  Does head room queue s (defers e) queue' s' =
      ((n : ℕ) × (head ≡ ok n) × (n < required_height parts e))
      × ((rest : List EventLog) × Taken e queue rest)
      × SameEvents queue queue'
      × (s' ≡ s)
  Does head room queue s (writes e) queue' s' = Taken e queue queue' × Extracted head e s s' none
  Does head room queue s (reports e m) queue' s' =
      (room ≡ true) × Taken e queue queue' × Failed head e s s' m
  Does head room queue s (ends e m) queue' s' =
      (room ≡ false) × Taken e queue queue' × Failed head e s s' m

  abbrev Done : Result ℕ → Bool → List EventLog → State → Outcome × List EventLog × State → Type 0
  Done head room queue s r = Does head room queue s r.0 r.1 r.2 × Heap r.1

  module _ (room : Bool) (e : EventLog) (queue rest : List EventLog) (s : State)
      (taken : Taken e queue rest) (heap : Heap rest) where
    sent :
        (head : Result ℕ) (s' : State) (m : Text)
        → Failed head e s s' m
        → (b : Bool) → room ≡ b
        → Done head room queue s (send_error b e m, rest, s')
    sent head s' m f true r = ((r, taken, f), heap)
    sent head s' m f false r = ((r, taken, f), heap)

    of_write :
        (n : ℕ) (q : State × Option Text)
        → required_height parts e ≤ n
        → write_idempotent_event table encoding e.data_log e.event s ≡ q
        → Done (ok n) room queue s (extracted parts room e rest q)
    of_write n (s', none) h w = ((taken, (n, refl, h, w)), heap)
    of_write n (s', some k) h w = sent (ok n) s' _ (inr (k, (n, refl, h, w), refl)) room refl

    of_process : (head : Result ℕ) → Done head room queue s (process parts head room e rest s)
    of_process (err k) = sent (err k) s _ (inl (k, refl, refl, refl)) room refl
    of_process (ok n) = elim (Bool-cases (ltb n (required_height parts e))) [
      | inl l ↦
          let (heap', same) = insert_correct e rest heap in
          rw l
            (((n, refl, ground arith), (rest, taken), (λ p. taken.0 p ∙ sym (same p)), refl), heap')
      | inr l ↦ rw l (
          of_write n (write_idempotent_event table encoding e.data_log e.event s) (ground arith)
            refl)
    ]

  -- A round on a queue that is a heap leaves a heap, and does one of these: it waits with an empty queue,
  -- or takes an event that none of the queue is before. It puts that back if the chain's head is below the
  -- event's block and the confirmations, as uint64, or writes it, or reports the error of the head's request
  -- or of the write; a channel without room ends the goroutine.
  pub round_correct :
      (head : Result ℕ) (room : Bool) (queue : List EventLog) (s : State)
      → Heap queue
      → let r = round parts head room queue s in Does head room queue s r.0 r.1 r.2 × Heap r.1
  unfolding round next
  round_correct head room [] s h = ((refl, refl, refl), λ k pos' lt. absurd (omega arith))
  round_correct head room (e ∷ es) s h =
      let (first, behind, heap, same) = next_correct e es h in
      let rest = (next (e ∷ es)).1 in
      let taken : Taken e (e ∷ es) rest =
        (SameEvents-cons e es rest (λ p. sym (same p)), none_before e (e ∷ es) behind) in
      subst (λ o. Done head room (e ∷ es) s (process_next parts head room (o, rest) s)) (sym first)
        (of_process room e (e ∷ es) rest s taken heap head)
