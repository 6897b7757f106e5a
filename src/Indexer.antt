-- ===== src/Indexer.antt =====
-- How the indexer is kept running and stopped: `Start` and `Stop` of go-indexer/indexer/indexer.go and main.go, as
-- steps of the goroutines in any order.
mod Tests
pub mod Exits
use vault_indexer.Prelude.{ℕ, ◌+◌, ◌<◌, suc, ◌≡◌, Bool, true, false, ◌||◌, text}
use vault_indexer.Health.{Server, new_server, set_status, served, unhealthy, server_closed}

-- The goroutine of `Start`: it starts the parts, waits for the context, or has returned an error.
pub data Starter : Type 0 where
  starting waiting returned : Starter

-- Where the body of Stop stands, which `once` lets one caller run, while the others wait for it.
pub data Stage : Type 0 where
  idle marking shutting cancelling closing_errors closing_client closing_database exiting : Stage

-- The process: it runs, has exited with a code, or has died of a panic.
pub data Ending : Type 0 where
  running : Ending
  exited : ℕ → Ending
  panicked : Ending

pub record System : Type 0 where
  pub ending : Ending
  pub starter : Starter
  pub stage : Stage
  -- The context of main, and the indexer's own below it.
  pub root_cancelled : Bool
  pub own_cancelled : Bool
  -- A part has cancelled its context: the event processor, the transformer or the finality processor.
  pub part_stopped : Bool
  -- The goroutine that receives the errors and the reorgs, and whether the reorg handler has ended.
  pub listening : Bool
  pub reorg_handled : Bool
  -- eventIngestionErrorChan, with the errors that are in it.
  pub errors : ℕ
  pub errors_open : Bool
  pub client_open : Bool
  pub database_open : Bool
  pub serving : Bool
  pub health : Server

-- The process once main has started the goroutine of `Start`.
abbrev pub launched : System
launched = record {
  ending = running;
  starter = starting;
  stage = idle;
  root_cancelled = false;
  own_cancelled = false;
  part_stopped = false;
  listening = true;
  reorg_handled = false;
  errors = 0;
  errors_open = true;
  client_open = true;
  database_open = true;
  serving = true;
  health = new_server 8080 (text "indexer");
}

-- `<-i.ctx.Done()`
abbrev pub context_done : System → Bool
context_done s = s.root_cancelled || s.own_cancelled

-- A goroutine that calls Stop.
pub data Calls (s : System) : Type 0 where
  -- main, after a signal or an error of `Start`.
  by_main : s.root_cancelled ≡ true → Calls s
  -- `Start`, if the current block cannot be read, or at its end.
  by_failed_start : s.starter ≡ starting → Calls s
  by_start : s.starter ≡ waiting → context_done s ≡ true → Calls s
  -- The goroutine that monitors the parts, whose contexts are below the indexer's.
  by_monitor : s.starter ≡ waiting → (s.part_stopped || context_done s) ≡ true → Calls s
  -- The listener, on an error, and behind a reorg, whatever came of it.
  by_listener : (n : ℕ) → s.listening ≡ true → s.errors ≡ suc n → Calls s
  by_reorg : s.reorg_handled ≡ true → Calls s

-- One step of one goroutine, or of what surrounds them.
pub data Step (s : System) : System → Type 0 where
  starts : s.starter ≡ starting → Step s (record s { starter = waiting })
  start_fails :
      s.starter ≡ starting → Step s (record s { starter = returned; root_cancelled = true })
  signalled : Step s (record s { root_cancelled = true })
  part_stops : Step s (record s { part_stopped = true })
  handles_reorg : s.listening ≡ true → Step s (record s { listening = false; reorg_handled = true })
  listener_leaves :
      s.listening ≡ true → context_done s ≡ true → Step s (record s { listening = false })
  -- A backfill or a subscription sends an error, where there is room; on a closed channel it panics.
  sends_error : s.errors_open ≡ true → s.errors < 10 → Step s (record s { errors = s.errors + 1 })
  sends_on_closed : s.errors_open ≡ false → Step s (record s { ending = panicked })
  -- Stop.
  calls_stop : s.stage ≡ idle → Calls s → Step s (record s { stage = marking })
  marks :
      s.stage ≡ marking
      → Step s (record s { stage = shutting; health = set_status unhealthy s.health })
  shuts : s.stage ≡ shutting → Step s (record s { stage = cancelling; serving = false })
  cancels :
      s.stage ≡ cancelling → Step s (record s { stage = closing_errors; own_cancelled = true })
  closes_errors :
      s.stage ≡ closing_errors → Step s (record s { stage = closing_client; errors_open = false })
  closes_client :
      s.stage ≡ closing_client → Step s (record s { stage = closing_database; client_open = false })
  closes_database :
      s.stage ≡ closing_database → Step s (record s { stage = exiting; database_open = false })
  exits : s.stage ≡ exiting → Step s (record s { ending = exited 1 })
  -- `Serve` returns behind Shutdown.
  serve_returns : s.serving ≡ false → Step s (record s { health = served server_closed s.health })

-- The steps of a process, none after its end.
pub data Reach (s : System) : System → Type 0 where
  here : Reach s s
  later : {t u : System} → Reach s t → t.ending ≡ running → Step t u → Reach s u
