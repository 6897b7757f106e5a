-- ===== src/Processor/Stop.antt =====
-- The two goroutines of the event processor (`Start` and `Stop` of go-indexer/indexer/event-processor.go), the
-- context that they share and the WaitGroup that Stop waits for.
use vault_indexer.Prelude.{ℕ, suc, ◌+◌, ◌<◌, ◌≡◌, refl, ap, Bool, true, false, arith}

-- The goroutine that listens for errors: in its select, within Stop at `wg.Wait()`, or returned.
pub data Listener : Type 0 where
  listening : Listener
  waiting : Listener
  done : Listener

-- `errors` is what is in the channel, which holds 10.
pub record Threads : Type 0 where
  pub main_running : Bool
  pub listener : Listener
  pub errors : ℕ
  pub cancelled : Bool

-- After `Start`: both goroutines are counted in the WaitGroup.
abbrev pub started : Threads
started = record {
  main_running = true;
  listener = Listener.listening;
  errors = 0;
  cancelled = false;
}

abbrev running_count : Bool → ℕ
running_count true = 1
running_count false = 0

abbrev listener_count : Listener → ℕ
listener_count Listener.listening = 1
listener_count Listener.waiting = 1
listener_count Listener.done = 0

-- The WaitGroup: `wg.Done` is deferred to a goroutine's return.
abbrev pub wait_group : Threads → ℕ
wait_group t = running_count t.main_running + listener_count t.listener

-- One step of one goroutine, or of what surrounds them.
pub data Step (t : Threads) : Threads → Type 0 where
  -- The main goroutine sends an error, or returns: cancelled, halted, or with no room for an error.
  sends_error : t.main_running ≡ true → t.errors < 10 → Step t (record t { errors = t.errors + 1 })
  returns : t.main_running ≡ true → Step t (record t { main_running = false })
  -- The listener receives an error and calls Stop, which cancels the context before it waits.
  receives_error :
      (n : ℕ)
      → t.listener ≡ Listener.listening
      → t.errors ≡ suc n
      → Step t (record t { listener = Listener.waiting; errors = n; cancelled = true })
  -- `<-ep.ctx.Done()`
  sees_cancelled :
      t.listener ≡ Listener.listening
      → t.cancelled ≡ true
      → Step t (record t { listener = Listener.done })
  -- `wg.Wait()` returns, and the listener with it.
  waited :
      t.listener ≡ Listener.waiting
      → wait_group t ≡ 0
      → Step t (record t { listener = Listener.done })
  -- The context is cancelled from outside.
  cancels : Step t (record t { cancelled = true })

pub data Reach (s : Threads) : Threads → Type 0 where
  here : Reach s s
  later : {t u : Threads} → Reach s t → Step t u → Reach s u

abbrev IsStuck : Threads → Type 0
IsStuck t = (t.listener ≡ Listener.waiting) × (t.cancelled ≡ true)

Step-IsStuck : {t u : Threads} → Step t u → IsStuck t → IsStuck u
Step-IsStuck (sends_error r b) (l, c) = (l, c)
Step-IsStuck (returns r) (l, c) = (l, c)
Step-IsStuck (receives_error n q e) (l, c) = (refl, refl)
Step-IsStuck (sees_cancelled q e) (l, c) = absurd (ground arith)
Step-IsStuck {t} (waited q e) (l, c) =
    let own : listener_count t.listener ≡ 1 = ap listener_count q in absurd (omega (arith, own, e))
Step-IsStuck cancels (l, c) = (l, refl)

Reach-IsStuck : {s t : Threads} → IsStuck s → Reach s t → IsStuck t
Reach-IsStuck h here = h
Reach-IsStuck h (later r st) = Step-IsStuck st (Reach-IsStuck h r)

abbrev StopsCancelled : Threads → Type 0
StopsCancelled t = t.listener ≡ Listener.waiting → t.cancelled ≡ true

Step-StopsCancelled : {t u : Threads} → Step t u → StopsCancelled t → StopsCancelled u
Step-StopsCancelled (sends_error r b) h l = h l
Step-StopsCancelled (returns r) h l = h l
Step-StopsCancelled (receives_error n q e) h l = refl
Step-StopsCancelled (sees_cancelled q e) h l = absurd (ground arith)
Step-StopsCancelled (waited q e) h l = absurd (ground arith)
Step-StopsCancelled cancels h l = refl

Reach-StopsCancelled : {t : Threads} → Reach started t → StopsCancelled t
Reach-StopsCancelled here = λ l. absurd (ground arith)
Reach-StopsCancelled (later r st) = Step-StopsCancelled st (Reach-StopsCancelled r)

-- Once the listener has received an error, the context is cancelled, but Stop never returns: it waits for
-- the goroutine that called it, whatever the others do.
pub stop-never_returns :
    {s t : Threads}
    → Reach started s
    → s.listener ≡ Listener.waiting
    → Reach s t
    → (t.listener ≡ Listener.waiting) × (t.cancelled ≡ true) × (0 < wait_group t)
stop-never_returns {s} {t} r l q =
    let (w, c) = Reach-IsStuck (l, Reach-StopsCancelled r l) q in
    let own : listener_count t.listener ≡ 1 = ap listener_count w in (w, c, omega (arith, own))
