-- ===== src/Queue.antt =====
-- The event queue (go-indexer/event-ingestion-queue/queue.go): a slice of events that the standard
-- library's container/heap keeps as a binary heap.
pub mod Bag
pub mod Down
pub mod First
pub mod Held
pub mod Kept
pub mod Order
pub mod Rest
pub mod Slots
mod Tests
pub mod Up
use vault_indexer.Prelude.{
  ℕ, zero, suc, ◌+◌, ◌-◌, ◌*◌, ◌/◌, ◌==◌, ltb, leb, Text, Bool, true, false, ◌&&◌, ◌||◌, not,
  Option, none, some, List, [], ◌∷◌, ◌++◌, length, if◌then◌else◌,
}
use vault_indexer.Extractor.{AbiEvent, Log}

pub record EventLog : Type 0 where
  pub block_number : ℕ
  pub log_index : ℕ
  pub event : AbiEvent
  pub data_log : Log
  pub contract_address : Text
  pub block_hash : Text

-- EventLog.Less: by block, and within a block by log index.
unfoldable pub less : EventLog → EventLog → Bool
less e other =
    if e.block_number == other.block_number
    then ltb e.log_index other.log_index
    else ltb e.block_number other.block_number

unfoldable pub at : ℕ → List EventLog → Option EventLog
at n [] = none
at zero (e ∷ es) = some e
at (suc n) (e ∷ es) = at n es

unfoldable pub set : ℕ → EventLog → List EventLog → List EventLog
set n x [] = []
set zero x (e ∷ es) = x ∷ es
set (suc n) x (e ∷ es) = e ∷ set n x es

abbrev set_to : ℕ → Option EventLog → List EventLog → List EventLog
set_to n none es = es
set_to n (some x) es = set n x es

-- EventQueue.Swap, for indices in range.
unfoldable pub swap : ℕ → ℕ → List EventLog → List EventLog
swap i j es = set_to i (at j es) (set_to j (at i es) es)

abbrev pub less_options : Option EventLog → Option EventLog → Bool
less_options none other = false
less_options (some e) none = false
less_options (some e) (some other) = less e other

-- EventQueue.Less, for indices in range.
unfoldable pub less_at : List EventLog → ℕ → ℕ → Bool
less_at es i j = less_options (at i es) (at j es)

-- heap.up: each round goes to the parent, so that `j + 1` rounds are enough.
unfoldable pub up : ℕ → ℕ → List EventLog → List EventLog
up zero j es = es
up (suc f) j es =
    let i = (j - 1) / 2 in
    let rest = up f i (swap i j es) in if i == j || not (less_at es j i) then es else rest

-- Insert: heap.Push.
unfoldable pub insert : EventLog → List EventLog → List EventLog
insert e es = up (length es + 1) (length es) (es ++ e ∷ [])

-- The child of `i` that is taken: the second one, if there is one below `n` and it is less.
abbrev pub child : ℕ → ℕ → List EventLog → ℕ
child i n es = let j = 2 * i + 1 in if ltb (j + 1) n && less_at es (j + 1) j then j + 1 else j

-- heap.down: each round goes to a child below `n`, so that `n` rounds are enough.
unfoldable pub down : ℕ → ℕ → ℕ → List EventLog → List EventLog
down zero i n es = es
down (suc f) i n es =
    let j = child i n es in
    let rest = down f j n (swap i j es) in
    if leb n (2 * i + 1) then es else if less_at es j i then rest else es

abbrev pub drop_last : List EventLog → List EventLog
drop_last [] = []
drop_last (e ∷ []) = []
drop_last (e ∷ e' ∷ es) = e ∷ drop_last (e' ∷ es)

-- Next: nothing of an empty queue, and else heap.Pop: the first event is swapped behind the others.
unfoldable pub next : List EventLog → Option EventLog × List EventLog
next [] = (none, [])
next (e ∷ es) =
    let n = length es in let moved = down n 0 n (swap 0 n (e ∷ es)) in (at n moved, drop_last moved)

-- NewEventQueue: heap.Init has nothing to do on an empty queue.
abbrev pub new_event_queue : List EventLog
new_event_queue = []

abbrev pub clear : List EventLog → List EventLog
clear es = []
