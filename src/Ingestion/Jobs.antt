-- ===== src/Ingestion/Jobs.antt =====
-- The goroutines that the backfill and the subscriptions start: one for each event of each contract.
use vault_indexer.Prelude.{
  Text, ◌≡◌, refl, none, some, List, [], ◌∷◌, All, All_of, Contains, Result, ok, err, inl, inr, ◌⊎◌,
}
use vault_indexer.Config.{ContractConfig}
use vault_indexer.Extractor.{AbiEvent}
use vault_indexer.Ingestion.{
  Sources, Started, load_abi, event_named, job_for, abi_error, event_loop, load_historical_events,
}

-- There is a goroutine for an event's name, with the event that the contract's ABI has for it.
abbrev Served : Sources → List (ContractConfig × AbiEvent) → ContractConfig → Text → Type 0
Served sources jobs contract name =
    (abi : List (Text × AbiEvent)) × (load_abi sources contract ≡ ok abi)
    × Contains jobs (contract, event_named name abi)

abbrev pub AllServed : Sources → List (ContractConfig × AbiEvent) → List ContractConfig → Type 0
AllServed sources jobs contracts = All (λ c. All (Served sources jobs c) c.events) contracts

abbrev FirstFails : Sources → ContractConfig → Started → Type 0
FirstFails sources contract s =
    (e : Text) × (load_abi sources contract ≡ err e)
    × (s.error ≡ some (abi_error contract e))
    × (s.unmatched ≡ 1)

module _ (sources : Sources) where
  -- The goroutine of an event added before the others.
  served_more :
      (job : ContractConfig × AbiEvent) (jobs : List (ContractConfig × AbiEvent))
      (cs : List ContractConfig)
      → AllServed sources jobs cs
      → AllServed sources (job ∷ jobs) cs
  served_more job jobs = All_of (λ c. All_of (λ name h. (h.0, h.1, inr h.2)) c.events)

  abbrev Outcome : List ContractConfig → Started → Type 0
  Outcome cs s =
      ((s.error ≡ none) × (s.unmatched ≡ 0) × AllServed sources s.jobs cs)
      ⊎ ((c : ContractConfig) × Contains cs c × FirstFails sources c s)

  -- The loop over the events of one contract, in front of those of the others.
  abbrev Partial : ContractConfig → List Text → List ContractConfig → Started → Type 0
  Partial contract names cs s =
      ((s.error ≡ none)
        × (s.unmatched ≡ 0)
        × All (Served sources s.jobs contract) names
        × AllServed sources s.jobs cs)
      ⊎ ((c : ContractConfig) × Contains (contract ∷ cs) c × FirstFails sources c s)

  add_first :
      (contract : ContractConfig) (name : Text) (names : List Text) (cs : List ContractConfig)
      (s : Started) (r : Result (List (Text × AbiEvent)))
      → load_abi sources contract ≡ r
      → Partial contract names cs s
      → Partial contract (name ∷ names) cs (job_for contract name r s)
  add_first contract name names cs s (err e) l p = inr (contract, inl refl, (e, l, refl, refl))
  add_first contract name names cs s (ok abi) l (inl (e, u, own, others)) = inl (
    e,
    u,
    ((abi, l, inl refl), All_of (λ n h. (h.0, h.1, inr h.2)) names own),
    served_more (contract, event_named name abi) s.jobs cs others,
  )
  add_first contract name names cs s (ok abi) l (inr f) = inr f

  of_events :
      (contract : ContractConfig) (names : List Text) (cs : List ContractConfig) (s : Started)
      → Outcome cs s
      → Partial contract names cs (event_loop sources contract names s)
  unfolding event_loop
  of_events contract [] cs s (inl (e, u, a)) = inl (e, u, tt, a)
  of_events contract [] cs s (inr (c, m, f)) = inr (c, inr m, f)
  of_events contract (name ∷ names) cs s o =
      add_first contract name names cs (event_loop sources contract names s)
        (load_abi sources contract) refl (of_events contract names cs s o)

  -- loadHistoricalEvents starts a goroutine for every event of every contract and leaves the WaitGroup at
  -- their number, or it returns the error of a contract's ABI with the WaitGroup one above the number of goroutines,
  -- so that the wait for them never ends.
  pub load_historical_events_correct :
      (contracts : List ContractConfig)
      → let s = load_historical_events sources contracts in
        ((s.error ≡ none) × (s.unmatched ≡ 0) × AllServed sources s.jobs contracts)
        ⊎ ((c : ContractConfig) × Contains contracts c × FirstFails sources c s)
  unfolding load_historical_events
  load_historical_events_correct [] = inl (refl, refl, tt)
  load_historical_events_correct (c ∷ cs) =
      elim (of_events c c.events cs (load_historical_events sources cs)
        (load_historical_events_correct cs)) [ inl h ↦ inl (h.0, h.1, (h.2, h.3)) | inr f ↦ inr f ]
