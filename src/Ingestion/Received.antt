-- ===== src/Ingestion/Received.antt =====
-- What the subscriptions put into the queue.
use vault_indexer.Prelude.{
  Text, ◌+◌, ◌≡◌, refl, subst, Bool, Option, none, some, List, [], ◌∷◌, ◌++◌, map, arith,
}
use vault_indexer.Config.{ContractConfig}
use vault_indexer.Extractor.{AbiEvent, Log}
use vault_indexer.Queue.{EventLog, insert}
use vault_indexer.Queue.Up.{Heap}
use vault_indexer.Queue.Kept.{count, insert_correct}
use vault_indexer.Ingestion.{Sources, event_log}
use vault_indexer.Ingestion.Subscriptions.{
  Signal, sub_error, received, context_done, refused, opened, Ending, waits, returned, Attempt,
  at_shutdown, subscribes, follow, subscribe_to_event, resubscribe, subscription,
}

-- The logs that a subscription receives before it returns, and how it ends.
abbrev heard : List Signal → List Log × Ending
heard [] = ([], waits)
heard (sub_error e ∷ signals) = ([], returned e)
heard (received log ∷ signals) = (log ∷ (heard signals).0, (heard signals).1)
heard (context_done ∷ signals) = ([], returned none)

-- The logs of the attempts that are made: none follows one that ends in an error, or that still waits.
abbrev if_nil : Ending → List Log → List Log
if_nil waits logs = []
if_nil (returned (some e)) logs = []
if_nil (returned none) logs = logs

abbrev delivered : List Attempt → List Log
delivered [] = []
delivered (at_shutdown ∷ attempts) = []
delivered (subscribes (refused e) ∷ attempts) = []
delivered (subscribes (opened signals) ∷ attempts) =
    (heard signals).0 ++ if_nil (heard signals).1 (delivered attempts)

module _ (sources : Sources) (contract : ContractConfig) (event : AbiEvent) where
  abbrev made : Log → EventLog
  made = event_log sources contract event

  count_append :
      (p : EventLog → Bool) (xs ys : List Log)
      → count p (map made (xs ++ ys)) ≡ count p (map made xs) + count p (map made ys)
  unfolding count
  count_append p [] ys = omega arith
  count_append p (x ∷ xs) ys = let r = count_append p xs ys in omega (arith, r)

  abbrev Adds : List Log → List EventLog → List EventLog → Type 0
  Adds logs queue queue' =
      Heap queue'
      × ((p : EventLog → Bool) → count p queue' ≡ count p (map made logs) + count p queue)

  follow_correct :
      (signals : List Signal) (queue : List EventLog)
      → Heap queue
      → let r = follow sources contract event signals queue in
        Adds (heard signals).0 queue r.0 × (r.1 ≡ (heard signals).1)
  unfolding follow count
  follow_correct [] queue h = ((h, λ p. omega arith), refl)
  follow_correct (sub_error e ∷ signals) queue h = ((h, λ p. omega arith), refl)
  follow_correct (context_done ∷ signals) queue h = ((h, λ p. omega arith), refl)
  follow_correct (received log ∷ signals) queue h =
      let (heap, same) = insert_correct (made log) queue h in
      let ((heap', same'), ends) = follow_correct signals (insert (made log) queue) heap in
      ((heap', λ p. let a = same p in let b = same' p in omega (arith, a, b)), ends)

  onwards :
      (r : List EventLog × Ending) (ending : Ending) (heard_logs later : List Log)
      (queue : List EventLog) (rest : List EventLog → List EventLog × Option Text)
      → Adds heard_logs queue r.0
      → r.1 ≡ ending
      → ((q : List EventLog) → Heap q → Adds later q (rest q).0)
      → Adds (heard_logs ++ if_nil ending later) queue (resubscribe sources contract event r rest).0
  unfolding count
  onwards (q, waits) ending heard_logs later queue rest (h, same) e k =
      subst (λ x. Adds (heard_logs ++ if_nil x later) queue q) e
        (h, λ p. let a = same p in let c = count_append p heard_logs [] in omega (arith, a, c))
  onwards (q, returned (some m)) ending heard_logs later queue rest (h, same) e k =
      subst (λ x. Adds (heard_logs ++ if_nil x later) queue q) e
        (h, λ p. let a = same p in let c = count_append p heard_logs [] in omega (arith, a, c))
  onwards (q, returned none) ending heard_logs later queue rest (h, same) e k =
      let (h', same') = k q h in
      subst (λ x. Adds (heard_logs ++ if_nil x later) queue (rest q).0) e
        (
          h',
          λ p.
              let a = same p in
              let b = same' p in let c = count_append p heard_logs later in omega (arith, a, b, c),
        )

  -- A subscription's goroutine leaves a heap with the events of exactly the logs that are delivered to it:
  -- those of each attempt until it ends, of which none is made after one that ended in an error.
  subscription_correct :
      (attempts : List Attempt) (queue : List EventLog)
      → Heap queue
      → let queue' = (subscription sources contract event attempts queue).0 in
        Heap queue'
        × ((p : EventLog → Bool)
            → count p queue'
              ≡ count p (map (event_log sources contract event) (delivered attempts))
                + count p queue)
  unfolding subscription subscribe_to_event count
  subscription_correct [] queue h = (h, λ p. omega arith)
  subscription_correct (at_shutdown ∷ attempts) queue h = (h, λ p. omega arith)
  subscription_correct (subscribes (refused e) ∷ attempts) queue h = (h, λ p. omega arith)
  subscription_correct (subscribes (opened signals) ∷ attempts) queue h =
      let (adds, ends) = follow_correct signals queue h in
      onwards (follow sources contract event signals queue) (heard signals).1 (heard signals).0
        (delivered attempts) queue (subscription sources contract event attempts) adds ends
        (subscription_correct attempts)
