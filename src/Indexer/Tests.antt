-- ===== src/Indexer/Tests.antt =====
-- A process that gets a signal, stops, and has a goroutine that still sends an error.
use vault_indexer.Prelude.{refl, true, false}
use vault_indexer.Health.{set_status, unhealthy}
use vault_indexer.Indexer.{
  marking, shutting, cancelling, closing_client, panicked, System, launched, Calls, Step, Reach,
  here, later,
}
use vault_indexer.Indexer.Exits.{Ends, exits-Ends}

abbrev told_to_stop : System
told_to_stop = record launched { root_cancelled = true }

abbrev marked : System
marked = record told_to_stop { stage = shutting; health = set_status unhealthy launched.health }

abbrev channel_closed : System
channel_closed = record marked {
  stage = closing_client;
  serving = false;
  own_cancelled = true;
  errors_open = false;
}

to_stop : Reach launched (record told_to_stop { stage = marking })
to_stop = later (later here refl Step.signalled) refl (Step.calls_stop refl (Calls.by_main refl))

to_cancel : Reach launched (record marked { stage = cancelling; serving = false })
to_cancel = later (later to_stop refl (Step.marks refl)) refl (Step.shuts refl)

to_closed : Reach launched channel_closed
to_closed = later (later to_cancel refl (Step.cancels refl)) refl (Step.closes_errors refl)

exits-Ends_example : Ends panicked (record channel_closed { ending = panicked })
exits-Ends_example = exits-Ends (later to_closed refl (Step.sends_on_closed refl))
