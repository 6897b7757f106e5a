-- ===== src/Ingestion/Subscriptions.antt =====
-- The subscriptions (go-indexer/indexer/subscription-handler.go): a goroutine for each event of each contract
-- that inserts the logs it receives.
use vault_indexer.Prelude.{Text, Option, none, some, List, [], ◌∷◌, ◌++◌, Result, ok, err, text}
use vault_indexer.Config.{ContractConfig}
use vault_indexer.Extractor.{AbiEvent, Log}
use vault_indexer.Queue.{EventLog, insert}
use vault_indexer.Ingestion.{
  Sources, Started, event_log, load_abi, event_named, abi_error, add_job, nothing_started,
}

-- What a subscription's select meets: a value of `sub.Err()`, which is nil when the subscription is closed,
-- a log, or the end of the context.
pub data Signal : Type 0 where
  sub_error : Option Text → Signal
  received : Log → Signal
  context_done : Signal

-- The answer to SubscribeFilterLogs, with what is met then.
pub data Session : Type 0 where
  refused : Text → Session
  opened : List Signal → Session

-- How subscribeToEvent ends: it is still waiting, or it has returned an error or nil.
pub data Ending : Type 0 where
  waits : Ending
  returned : Option Text → Ending

-- A turn of the outer loop: the context is done, or it subscribes.
pub data Attempt : Type 0 where
  at_shutdown : Attempt
  subscribes : Session → Attempt

module _ (sources : Sources) (contract : ContractConfig) (event : AbiEvent) where
  unfoldable pub follow : List Signal → List EventLog → List EventLog × Ending
  follow [] queue = (queue, waits)
  follow (sub_error e ∷ signals) queue = (queue, returned e)
  follow (received log ∷ signals) queue =
      follow signals (insert (event_log sources contract event log) queue)
  follow (context_done ∷ signals) queue = (queue, returned none)

  unfoldable pub subscribe_to_event : Session → List EventLog → List EventLog × Ending
  subscribe_to_event (refused e) queue =
      (queue, returned (some (text "failed to subscribe to logs: " ++ e)))
  subscribe_to_event (opened signals) queue = follow signals queue

  abbrev subscribe_error : Text → Text
  subscribe_error e =
      text "failed to subscribe to event "
      ++ event.name
      ++ text " for contract "
      ++ contract.address
      ++ text ": "
      ++ e

  -- After one call: an error is sent and ends the goroutine, and nil lets it subscribe again.
  abbrev pub resubscribe :
      List EventLog × Ending
      → (List EventLog → List EventLog × Option Text)
      → List EventLog × Option Text
  resubscribe (queue, waits) rest = (queue, none)
  resubscribe (queue, returned (some e)) rest = (queue, some (subscribe_error e))
  resubscribe (queue, returned none) rest = rest queue

  -- The goroutine: the queue, and the error that it sends.
  unfoldable pub subscription : List Attempt → List EventLog → List EventLog × Option Text
  subscription [] queue = (queue, none)
  subscription (at_shutdown ∷ attempts) queue = (queue, none)
  subscription (subscribes session ∷ attempts) queue =
      resubscribe (subscribe_to_event session queue) (subscription attempts)

-- The goroutines that setupSubscriptions starts for a contract whose ABI is loaded.
abbrev add_jobs : ContractConfig → List (Text × AbiEvent) → List Text → Started → Started
add_jobs contract abi [] rest = rest
add_jobs contract abi (name ∷ names) rest =
    add_job contract (event_named name abi) (add_jobs contract abi names rest)

abbrev contract_jobs : ContractConfig → Result (List (Text × AbiEvent)) → Started → Started
contract_jobs contract (ok abi) rest = add_jobs contract abi contract.events rest
contract_jobs contract (err e) rest = record {
  jobs = [];
  unmatched = 0;
  error = some (abi_error contract e);
}

unfoldable pub setup_subscriptions : Sources → List ContractConfig → Started
setup_subscriptions sources [] = nothing_started
setup_subscriptions sources (contract ∷ contracts) =
    contract_jobs contract (load_abi sources contract) (setup_subscriptions sources contracts)
