-- ===== src/Ingestion/Queued.antt =====
-- What the backfill's goroutines do to the queue: they keep what is in it and add what they fetched, and no more.
use vault_indexer.Prelude.{
  Text, ℕ, ◌≡◌, sym, subst, ap, ◌∙◌, Bool, true, false, Option, List, [], ◌∷◌, Contains, Result, ok,
  err, Bool-cases, inl, inr, ◌⊎◌, if◌then◌else◌,
}
use vault_indexer.Config.{ContractConfig}
use vault_indexer.Extractor.{AbiEvent}
use vault_indexer.Queue.{EventLog, insert}
use vault_indexer.Queue.Held.{Held, insert-Held, insert-Held_own, of_insert}
use vault_indexer.Ingestion.{Sources, backfill, insert_all, run_jobs, run_backfill, add_error}

insert_all-Held :
    (es queue : List EventLog) (x : EventLog) → Held queue x → Held (insert_all es queue) x
insert_all-Held [] queue x h = h
insert_all-Held (e ∷ es) queue x h = insert_all-Held es (insert e queue) x (insert-Held x e queue h)

insert_all-Held_own :
    (es queue : List EventLog) (x : EventLog) → Contains es x → Held (insert_all es queue) x
insert_all-Held_own [] queue x m = elim m [ ]
insert_all-Held_own (e ∷ es) queue x (inl q) =
    insert_all-Held es (insert e queue) x
      (subst (Held (insert e queue)) (sym q) (insert-Held_own e queue))
insert_all-Held_own (e ∷ es) queue x (inr m) = insert_all-Held_own es (insert e queue) x m

pub of_insert_all :
    (es queue : List EventLog) (x : EventLog)
    → Held (insert_all es queue) x
    → Held queue x ⊎ Contains es x
of_insert_all [] queue x h = inl h
of_insert_all (e ∷ es) queue x h = elim (of_insert_all es (insert e queue) x h) [
  | inr m ↦ inr (inr m)
  | inl q ↦ elim (of_insert x e queue q) [ inl p ↦ inr (inl p) | inr p ↦ inl p ]
]

module _ (sources : Sources) (current_block : ℕ)
    (cancelled : ContractConfig × AbiEvent → Bool) where
  abbrev pub backfilled : List (ContractConfig × AbiEvent) → List EventLog → List EventLog
  backfilled jobs queue = (run_jobs sources current_block cancelled jobs queue).0

  run_backfill-Held :
      (r : Result (List EventLog)) (queue : List EventLog) (x : EventLog)
      → Held queue x
      → Held (run_backfill r queue).0 x
  run_backfill-Held (ok es) queue x h = insert_all-Held es queue x h
  run_backfill-Held (err e) queue x h = h

  module _ (job : ContractConfig × AbiEvent) (jobs : List (ContractConfig × AbiEvent))
      (queue : List EventLog) where
    abbrev pub own : List EventLog × Option Text
    own = run_backfill (backfill sources current_block job.0 job.1) queue

    pub jobs_skipped : cancelled job ≡ true → backfilled (job ∷ jobs) queue ≡ backfilled jobs queue
    unfolding run_jobs
    jobs_skipped c =
        ap
          (λ b.
            (if b then run_jobs sources current_block cancelled jobs queue else (
              backfilled jobs own.0,
              add_error own.1 (run_jobs sources current_block cancelled jobs own.0).1,
            )).0)
          c

    pub jobs_ran : cancelled job ≡ false → backfilled (job ∷ jobs) queue ≡ backfilled jobs own.0
    unfolding run_jobs
    jobs_ran c =
        ap
          (λ b.
            (if b then run_jobs sources current_block cancelled jobs queue else (
              backfilled jobs own.0,
              add_error own.1 (run_jobs sources current_block cancelled jobs own.0).1,
            )).0)
          c

  run_jobs-Held :
      (jobs : List (ContractConfig × AbiEvent)) (queue : List EventLog) (x : EventLog)
      → Held queue x
      → Held (backfilled jobs queue) x
  unfolding run_jobs
  run_jobs-Held [] queue x h = h
  run_jobs-Held (job ∷ jobs) queue x h = elim (Bool-cases (cancelled job)) [
    | inl c ↦
        subst (λ q. Held q x) (sym (jobs_skipped job jobs queue c)) (run_jobs-Held jobs queue x h)
    | inr c ↦
        subst (λ q. Held q x) (sym (jobs_ran job jobs queue c))
          (run_jobs-Held jobs (own job jobs queue).0 x
            (run_backfill-Held (backfill sources current_block job.0 job.1) queue x h))
  ]

  run_backfill-Held_own :
      (r : Result (List EventLog)) (queue es : List EventLog) (x : EventLog)
      → r ≡ ok es
      → Contains es x
      → Held (run_backfill r queue).0 x
  run_backfill-Held_own r queue es x b n =
      subst (λ q. Held (run_backfill q queue).0 x) (sym b) (insert_all-Held_own es queue x n)

  pub run_jobs-Held_own :
      (jobs : List (ContractConfig × AbiEvent)) (job : ContractConfig × AbiEvent)
      (queue es : List EventLog) (x : EventLog)
      → Contains jobs job
      → cancelled job ≡ false
      → backfill sources current_block job.0 job.1 ≡ ok es
      → Contains es x
      → Held (backfilled jobs queue) x
  run_jobs-Held_own [] job queue es x m c b n = elim m [ ]
  run_jobs-Held_own (j ∷ jobs) job queue es x (inl q) c b n =
      let b' : backfill sources current_block j.0 j.1 ≡ ok es =
        ap (λ (k : ContractConfig × AbiEvent). backfill sources current_block k.0 k.1) (sym q)
        ∙ b in
      subst (λ r. Held r x) (sym (jobs_ran j jobs queue (ap cancelled (sym q) ∙ c)))
        (run_jobs-Held jobs (own j jobs queue).0 x
          (run_backfill-Held_own (backfill sources current_block j.0 j.1) queue es x b' n))
  run_jobs-Held_own (j ∷ jobs) job queue es x (inr m) c b n = elim (Bool-cases (cancelled j)) [
    | inl k ↦
        subst (λ r. Held r x) (sym (jobs_skipped j jobs queue k))
          (run_jobs-Held_own jobs job queue es x m c b n)
    | inr k ↦
        subst (λ r. Held r x) (sym (jobs_ran j jobs queue k))
          (run_jobs-Held_own jobs job (own j jobs queue).0 es x m c b n)
  ]
