-- ===== src/Finality/Ascending.antt =====
-- The blocks that the finality processor validates ascend.
use vault_indexer.Prelude.{
  Text, ℤ, ◌<ℤ◌, ◌≡◌, refl, Bool, Option, none, some, List, [], ◌∷◌, ◌++◌, Result, ok, err, text,
}
use vault_indexer.Database.Events.{PublicEventsSelect}
use vault_indexer.Finality.{
  Calls, Verdict, waits, validated, reorg, validate_tag, get_last_validated_block_number,
  next_query,
}
use vault_indexer.Finality.Loop.{
  Round, leaves, checks, End, Turns, ends, after_safe, after_finalized, run,
}
use vault_indexer.Finality.Monotone.{IsNext, validate_tag_correct}

-- The block that a turn validates.
abbrev block_of : Result Verdict → List ℤ
block_of (ok (validated row)) = row.last_validated_block_number ∷ []
block_of (ok waits) = []
block_of (ok (reorg e)) = []
block_of (err e) = []

abbrev block_of_option : Option (Result Verdict) → List ℤ
block_of_option none = []
block_of_option (some r) = block_of r

abbrev pub finalized_blocks : List Turns → List ℤ
finalized_blocks [] = []
finalized_blocks ((a, b) ∷ turns) = block_of a ++ finalized_blocks turns

abbrev pub safe_blocks : List Turns → List ℤ
safe_blocks [] = []
safe_blocks ((a, b) ∷ turns) = block_of_option b ++ safe_blocks turns

-- Each block is above the one before it, the first above `n`.
abbrev pub Ascending : ℤ → List ℤ → Type 0
Ascending n [] = Unit
Ascending n (b ∷ bs) = (n <ℤ b) × Ascending b bs

-- The last validated block after a turn.
abbrev last_after : ℤ → Result Verdict → ℤ
last_after n (ok (validated row)) = row.last_validated_block_number
last_after n (ok waits) = n
last_after n (ok (reorg e)) = n
last_after n (err e) = n

-- A turn reads `n` as the last validated block of its tag, and the next event of some table.
abbrev ReadsLast : Calls → Text → ℤ → Type 0
ReadsLast calls tag n =
    (get_last_validated_block_number calls tag ≡ ok n)
    × ((table : List PublicEventsSelect) × IsNext table n (calls.sources.execute (next_query n)))

-- The turns of a tag read what the one before them has written, and nothing else is written.
abbrev Tracks : (Calls → Calls → Calls) → Text → ℤ → List Round → Type 0
Tracks choose tag n [] = Unit
Tracks choose tag n (leaves ∷ rounds) = Unit
Tracks choose tag n (checks finalized safe ready ∷ rounds) =
    let calls = choose finalized safe in
    ReadsLast calls tag n × Tracks choose tag (last_after n (validate_tag calls tag)) rounds

abbrev pub first : Calls → Calls → Calls
first finalized safe = finalized

abbrev pub second : Calls → Calls → Calls
second finalized safe = safe

turn-Ascending :
    (calls : Calls) (tag : Text) (n : ℤ) (r : Result Verdict) (bs : List ℤ)
    → ReadsLast calls tag n
    → validate_tag calls tag ≡ r
    → Ascending (last_after n r) bs
    → Ascending n (block_of r ++ bs)
turn-Ascending calls tag n (err e) bs reads h a = a
turn-Ascending calls tag n (ok waits) bs reads h a = a
turn-Ascending calls tag n (ok (reorg e)) bs reads h a = a
turn-Ascending calls tag n (ok (validated row)) bs (last, (table, next)) h a =
    let established = validate_tag_correct calls table tag n last next (validated row) h in
    (established.1.1.behind, a)

module _ (finalized safe : Calls) (ready : Bool) (rounds : List Round) (n : ℤ) where
  abbrev a : Result Verdict
  a = validate_tag finalized (text "finalized")

  abbrev b : Result Verdict
  b = validate_tag safe (text "safe")

  abbrev rest : List Turns × End
  rest = run rounds

  module _ (reads : ReadsLast finalized (text "finalized") n)
      (ih : Ascending (last_after n a) (finalized_blocks rest.0)) where
    finalized_of_safe : (o : Option End) → Ascending n (finalized_blocks (after_safe o a b rest).0)
    finalized_of_safe none =
        turn-Ascending finalized (text "finalized") n a (finalized_blocks rest.0) reads refl ih
    finalized_of_safe (some e) = turn-Ascending finalized (text "finalized") n a [] reads refl tt

    finalized_of_ends :
        (o : Option End) → Ascending n (finalized_blocks (after_finalized o ready a b rest).0)
    finalized_of_ends none = finalized_of_safe (ends ready b)
    finalized_of_ends (some e) = turn-Ascending finalized (text "finalized") n a [] reads refl tt

  module _ (reads : ReadsLast safe (text "safe") n)
      (ih : Ascending (last_after n b) (safe_blocks rest.0)) where
    safe_of_safe : (o : Option End) → Ascending n (safe_blocks (after_safe o a b rest).0)
    safe_of_safe none = turn-Ascending safe (text "safe") n b (safe_blocks rest.0) reads refl ih
    safe_of_safe (some e) = turn-Ascending safe (text "safe") n b [] reads refl tt

    safe_of_ends : (o : Option End) → Ascending n (safe_blocks (after_finalized o ready a b rest).0)
    safe_of_ends none = safe_of_safe (ends ready b)
    safe_of_ends (some e) = tt

finalized-Ascending :
    (rounds : List Round) (n : ℤ)
    → Tracks first (text "finalized") n rounds
    → Ascending n (finalized_blocks (run rounds).0)
unfolding run
finalized-Ascending [] n t = tt
finalized-Ascending (leaves ∷ rounds) n t = tt
finalized-Ascending (checks finalized safe ready ∷ rounds) n (reads, t) =
    let a = validate_tag finalized (text "finalized") in
    finalized_of_ends finalized safe ready rounds n reads
      (finalized-Ascending rounds (last_after n a) t) (ends ready a)

safe-Ascending :
    (rounds : List Round) (n : ℤ)
    → Tracks second (text "safe") n rounds
    → Ascending n (safe_blocks (run rounds).0)
unfolding run
safe-Ascending [] n t = tt
safe-Ascending (leaves ∷ rounds) n t = tt
safe-Ascending (checks finalized safe ready ∷ rounds) n (reads, t) =
    let b = validate_tag safe (text "safe") in
    safe_of_ends finalized safe ready rounds n reads (safe-Ascending rounds (last_after n b) t)
      (ends ready (validate_tag finalized (text "finalized")))

-- If each turn reads the last validated block of its tag as the turns before it have written it, then the blocks
-- that the finality processor validates for a tag ascend, from above the block that it started with.
pub run-Ascending :
    (rounds : List Round) (n m : ℤ)
    → Tracks first (text "finalized") n rounds
    → Tracks second (text "safe") m rounds
    → Ascending n (finalized_blocks (run rounds).0) × Ascending m (safe_blocks (run rounds).0)
run-Ascending rounds n m f s = (finalized-Ascending rounds n f, safe-Ascending rounds m s)
