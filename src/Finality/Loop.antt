-- ===== src/Finality/Loop.antt =====
-- The loop of the FinalityProcessor (`Start` of go-indexer/indexer/finality-processor.go): rounds over both
-- block tags, until one leaves, fails or finds a reorg.
use vault_indexer.Prelude.{
  Text, Bool, true, false, Option, none, some, List, [], ◌∷◌, Result, ok, err, text,
}
use vault_indexer.Finality.{Calls, ReorgEvent, Verdict, waits, validated, reorg, validate_tag}

-- A round: the end of the context, a value of the reorg channel or the halt token is received, or both tags
-- are checked; `ready` tells whether the indexer waits at the reorg channel, which has no buffer.
pub data Round : Type 0 where
  leaves : Round
  checks : (finalized safe : Calls) (ready : Bool) → Round

-- How the goroutine stands: in its loop, or returned as it was told to, after an error that it sends, or
-- after a reorg that it has reported or dropped.
pub data End : Type 0 where
  running left : End
  failed : Text → End
  reported dropped : ReorgEvent → End

-- Whether a turn ends the goroutine.
abbrev pub ends : Bool → Result Verdict → Option End
ends ready (err e) = some (failed e)
ends ready (ok waits) = none
ends ready (ok (validated row)) = none
ends true (ok (reorg e)) = some (reported e)
ends false (ok (reorg e)) = some (dropped e)

-- The turns of a round: the second one only if the first does not end the goroutine.
abbrev pub Turns : Type 0
Turns = Result Verdict × Option (Result Verdict)

abbrev pub after_safe :
    Option End → Result Verdict → Result Verdict → List Turns × End → List Turns × End
after_safe none a b rest = ((a, some b) ∷ rest.0, rest.1)
after_safe (some e) a b rest = ((a, some b) ∷ [], e)

abbrev pub after_finalized :
    Option End → Bool → Result Verdict → Result Verdict → List Turns × End → List Turns × End
after_finalized none ready a b rest = after_safe (ends ready b) a b rest
after_finalized (some e) ready a b rest = ((a, none) ∷ [], e)

unfoldable pub run : List Round → List Turns × End
run [] = ([], running)
run (leaves ∷ rounds) = ([], left)
run (checks finalized safe ready ∷ rounds) =
    let a = validate_tag finalized (text "finalized") in
    let b = validate_tag safe (text "safe") in after_finalized (ends ready a) ready a b (run rounds)
