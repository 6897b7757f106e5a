-- ===== src/Processor.antt =====
-- The EventProcessor (go-indexer/indexer/event-processor.go): the rounds of its main goroutine, which takes
-- events from the queue and writes those with enough confirmations. Its goroutines are in Stop.
pub mod Rounds
pub mod Stored
pub mod Drains
pub mod Runs
pub mod Stop
mod Tests
use vault_indexer.Prelude.{
  Text, ℕ, ◌+◌, ◌%◌, ◌^◌, ltb, Bool, true, false, Option, none, some, List, [], ◌∷◌, ◌++◌, Result,
  ok, err, text, if◌then◌else◌,
}
use vault_indexer.Extractor.{EventsTable, Encoding, write_idempotent_event}
use vault_indexer.Queue.{EventLog, insert, next}

-- How a round ends: it waits for the poll interval with nothing taken or with the event put back, the event
-- was written, or an error about it is sent, after which the loop goes on, or finds the channel full, which
-- ends the goroutine.
pub data Outcome : Type 0 where
  polls : Outcome
  defers : EventLog → Outcome
  writes : EventLog → Outcome
  reports : EventLog → Text → Outcome
  ends : EventLog → Text → Outcome

-- `select { case errors <- err: default: return }`, where there is room in the channel or not.
abbrev pub send_error : Bool → EventLog → Text → Outcome
send_error true e message = reports e message
send_error false e message = ends e message

-- What the processor is made of: the extractor's table and encoding, the confirmations that it requires, and
-- `%v` of an event.
pub record Parts : Type 1 where
  pub table : EventsTable
  pub encoding : Encoding
  pub required_confirmations : ℕ
  pub show_event : EventLog → Text

-- The loop's own variables and what it shares: `running` until the goroutine returns.
pub record Processor (S : Type 0) : Type 0 where
  pub queue : List EventLog
  pub state : S
  pub running : Bool

-- What the loop meets: another goroutine inserts an event, the context is cancelled or the halt token is
-- received at the top of a round, or a round with the head of the chain and room in the error channel.
pub data Action : Type 0 where
  arrives : EventLog → Action
  cancelled : Action
  turns : Result ℕ → Bool → Action

module _ (parts : Parts) where
  open parts use {table, encoding, required_confirmations, show_event}
  open table use {State}

  -- The block that an event waits for, in uint64.
  abbrev pub required_height : EventLog → ℕ
  required_height e = (e.block_number + required_confirmations) % 2 ^ 64

  -- What follows writeIdempotentEvent.
  abbrev pub extracted :
      Bool → EventLog → List EventLog → State × Option Text → Outcome × List EventLog × State
  extracted room e rest (s, none) = (writes e, rest, s)
  extracted room e rest (s, some m) = (
    send_error room e (text "failed to extract event " ++ m ++ text ", " ++ show_event e),
    rest,
    s,
  )

  -- The round on an event that was taken.
  abbrev pub process :
      Result ℕ → Bool → EventLog → List EventLog → State → Outcome × List EventLog × State
  process (err m) room e rest s =
      (send_error room e (text "failed to get current block number: " ++ m), rest, s)
  process (ok current_block) room e rest s =
      if ltb current_block (required_height e)
      then (defers e, insert e rest, s)
      else extracted room e rest (write_idempotent_event table encoding e.data_log e.event s)

  abbrev pub process_next :
      Result ℕ → Bool → Option EventLog × List EventLog → State → Outcome × List EventLog × State
  process_next head room (none, rest) s = (polls, rest, s)
  process_next head room (some e, rest) s = process head room e rest s

  -- One round, from `Next` on.
  unfoldable pub round : Result ℕ → Bool → List EventLog → State → Outcome × List EventLog × State
  round head room queue s = process_next head room (next queue) s

  abbrev goes_on : Outcome → Bool
  goes_on polls = true
  goes_on (defers e) = true
  goes_on (writes e) = true
  goes_on (reports e m) = true
  goes_on (ends e m) = false

  abbrev pub after : Outcome × List EventLog × State → Processor State
  after (outcome, queue, s) = record { queue = queue; state = s; running = goes_on outcome }

  -- The goroutine, with what its rounds did. A goroutine that has returned leaves the queue to the others.
  unfoldable pub start : List Action → Processor State → List Outcome × Processor State
  start [] p = ([], p)
  start (arrives e ∷ actions) p =
      start actions (record { queue = insert e p.queue; state = p.state; running = p.running })
  start (cancelled ∷ actions) p =
      start actions (record { queue = p.queue; state = p.state; running = false })
  start (turns head room ∷ actions) p =
      let r = round head room p.queue p.state in
      let gone = start actions p in
      let rest = start actions (after r) in if p.running then (r.0 ∷ rest.0, rest.1) else gone
