-- ===== src/Reorg/Handler.antt =====
-- handleReorg (go-indexer/indexer/reorg-handler.go): the halt, the cleared queue, the search, the cleanup
-- and the stop; and what it may leave in the tables.
use vault_indexer.Prelude.{
  ℕ, ◌+◌, ◌^◌, ◌<◌, ◌≡◌, refl, ap, ◌∙◌, ℤ, pos, dec_int64, Bool, true, false, Option, none, some,
  List, [], ◌∷◌, All, Result, ok, err, inl, inr, ◌⊎◌, arith,
}
use vault_indexer.Database.Events.{PublicEventsSelect}
use vault_indexer.Transformer.Cleanup.{Tables, Database, handle_cleanup_from_block}
use vault_indexer.Transformer.Cleanup.Consistent.{UpTo, cleanup-UpTo}
use vault_indexer.Reorg.{Sources, nearest_query, find_last_consistent_block}
use vault_indexer.Reorg.Search.{
  HasBlock, IsNearest, LastConsistent, EndsAt, find_last_consistent_block_correct,
}
use vault_indexer.Reorg.Halt.{
  HaltManager, Effect, silent, received, panicked, Call, halts, waits, looks, closes, call, halt,
  wait_halted, receive, closings, new_halt_manager,
}

-- What the handler changes: the halt manager, the event queue, the tables, and which parts are stopped.
pub record Indexer : Type 1 where
  pub Event : Type 0
  pub halt_manager : HaltManager
  pub event_queue : List Event
  pub tables : Tables
  pub transformer_stopped : Bool
  pub stopped : Bool

-- `i.Stop()`
abbrev pub stop_indexer : Indexer → Indexer
stop_indexer i = record i { stopped = true }

-- The calls of the halt manager that come between the halt and the end of the wait.
abbrev after_calls : List Call → HaltManager → HaltManager
after_calls [] h = h
after_calls (c ∷ cs) h = after_calls cs (call c h).0

-- The cleanup, and the stop of the transformer and of the indexer; an error stops the indexer alone.
abbrev finish : Result Tables → Indexer → Indexer
finish (err e) i = stop_indexer i
finish (ok left) i = stop_indexer (record i { tables = left; transformer_stopped = true })

abbrev clean_up : Database → Option (Result ℤ) → Indexer → Option Indexer
clean_up db none i = none
clean_up db (some (err e)) i = some (stop_indexer i)
clean_up db (some (ok n)) i =
    some (finish (handle_cleanup_from_block db i.halt_manager.is_halted n i.tables) i)

-- The handler behind WaitHalted; a wait that times out stops the indexer.
abbrev pub after_wait : Database → Option (Result ℤ) → Effect → Indexer → Option Indexer
after_wait db searched silent i = some (stop_indexer i)
after_wait db searched panicked i = some (stop_indexer i)
after_wait db searched received i = clean_up db searched (record i { event_queue = [] })

-- `none` if the search is out of fuel.
unfoldable pub handle_reorg : Sources → Database → ℕ → ℤ → List Call → Indexer → Option Indexer
handle_reorg sources db fuel block_number others i =
    let waited = wait_halted (after_calls others (halt i.halt_manager).0) in
    after_wait db (find_last_consistent_block sources fuel block_number) waited.1
      (record i { halt_manager = waited.0 })

-- The tables are as they were, or mention nothing after the last consistent block below the reorg.
abbrev pub Recovered : Sources → List PublicEventsSelect → ℤ → Tables → Indexer → Type 0
Recovered sources events n tables i =
    (i.tables ≡ tables) ⊎ ((b : ℤ) × LastConsistent sources events n b × UpTo b i.tables)

module _ (sources : Sources) (db : Database) (events : List PublicEventsSelect) where
  finish-Recovered :
      (n b : ℤ) (i : Indexer) (r : Result Tables)
      → handle_cleanup_from_block db i.halt_manager.is_halted b i.tables ≡ r
      → LastConsistent sources events n b
      → Recovered sources events n i.tables (finish r i)
  finish-Recovered n b i (err e) h last = inl refl
  finish-Recovered n b i (ok left) h last =
      inr (b, last, (cleanup-UpTo db i.halt_manager.is_halted b i.tables left h).1)

  finish-stopped : (r : Result Tables) (i : Indexer) → (finish r i).stopped ≡ true
  finish-stopped (err e) i = refl
  finish-stopped (ok left) i = refl

  ends :
      (n : ℤ) (searched : Option (Result ℤ)) (effect : Effect) (i : Indexer)
      → EndsAt sources events n searched
      → (j : Indexer) × (after_wait db searched effect i ≡ some j)
        × (j.stopped ≡ true)
        × Recovered sources events n i.tables j
  ends n searched silent i h = (stop_indexer i, refl, refl, inl refl)
  ends n searched panicked i h = (stop_indexer i, refl, refl, inl refl)
  ends n none received i h = absurd h
  ends n (some (err e)) received i h = (_, refl, refl, inl refl)
  ends n (some (ok b)) received i h = (_, refl, finish-stopped _ _, finish-Recovered n b _ _ refl h)

-- With enough fuel the handler ends, whatever the other parts do with the halt channel: the indexer is
-- stopped, and the tables are as they were or have been taken back to the last consistent block.
pub handle_reorg_correct :
    (sources : Sources) (db : Database) (d : ℕ) (others : List Call) (i : Indexer)
    → d < 2 ^ 63
    → All HasBlock i.tables.events
    → ((n : ℤ) → IsNearest i.tables.events n (sources.execute (nearest_query n)))
    → (j : Indexer) × (handle_reorg sources db (d + 1) (pos d) others i ≡ some j)
      × (j.stopped ≡ true)
      × Recovered sources i.tables.events (dec_int64 (pos d)) i.tables j
unfolding handle_reorg
handle_reorg_correct sources db d others i h blocks answers =
    ends sources db i.tables.events (dec_int64 (pos d))
      (find_last_consistent_block sources (d + 1) (pos d)) _ _
      (find_last_consistent_block_correct sources i.tables.events blocks answers d h)

-- After the token was taken.
abbrev pub spent : HaltManager
spent = record { token = false; closed = false; is_halted = true }

after_calls-spent : (cs : List Call) → closings cs ≡ 0 → after_calls cs spent ≡ spent
unfolding call
after_calls-spent [] h = refl
after_calls-spent (halts ∷ cs) h = after_calls-spent cs h
after_calls-spent (waits ∷ cs) h = after_calls-spent cs h
after_calls-spent (looks ∷ cs) h = after_calls-spent cs h
after_calls-spent (closes ∷ cs) h = absurd (omega arith)

-- If a processor is the first to look at the halt channel, there is no cleanup: the wait times out, the
-- indexer is stopped, and the queue and the tables stay as they are.
pub handle_reorg_after_look :
    (sources : Sources) (db : Database) (fuel : ℕ) (block_number : ℤ) (others : List Call)
    (i : Indexer)
    → i.halt_manager ≡ new_halt_manager
    → closings others ≡ 0
    → handle_reorg sources db fuel block_number (looks ∷ others) i
      ≡ some (stop_indexer (record i { halt_manager = spent }))
unfolding handle_reorg halt call receive wait_halted
handle_reorg_after_look sources db fuel block_number others i new h =
    ap
      (λ w.
        after_wait db (find_last_consistent_block sources fuel block_number) w.1
          (record i { halt_manager = w.0 }))
      (ap (λ m. wait_halted (after_calls others (call looks (halt m).0).0)) new
        ∙ ap wait_halted (after_calls-spent others h))
