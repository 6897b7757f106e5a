-- ===== src/Queue/Bag.antt =====
-- The queue as its users see it: a bag of events, from which a first one is taken. The order of the slice
-- is forgotten.
use mathlib.Core.Quot
use mathlib.Core.Quot.{Quot, Quot-set}
use native.Mathlib.Nat.{ℕ_set}
use vault_indexer.Prelude.{
  ℕ, suc, ◌<◌, ◌≡◌, refl, sym, subst, Bool, false, Option, none, some, List, [], ◌∷◌, length, arith,
}
use vault_indexer.Queue.{EventLog, less, at, insert, next, clear, new_event_queue}
use vault_indexer.Queue.Order.{InOrder}
use vault_indexer.Queue.Up.{Heap}
use vault_indexer.Queue.Kept.{tally, count, insert_correct, next_correct}

-- Two lists hold the same events, as often.
abbrev pub SameEvents : List EventLog → List EventLog → Type 0
SameEvents xs ys = (p : EventLog → Bool) → count p xs ≡ count p ys

abbrev pub Bag : Type 0
Bag = Quot SameEvents

abbrev pub bag : List EventLog → Bag
bag es = Quot.mk es

-- How many events of a bag pass a test.
unfoldable pub occurrences : (EventLog → Bool) → Bag → ℕ
occurrences p = Quot.lift ℕ_set (count p) (λ xs ys h. h p)

pub SameEvents-cons :
    (e : EventLog) (xs ys : List EventLog) → SameEvents xs ys → SameEvents (e ∷ xs) (e ∷ ys)
unfolding count
SameEvents-cons e xs ys h p = omega (arith, h p)

unfoldable pub put : EventLog → Bag → Bag
put e =
    Quot.lift Quot-set (λ xs. Quot.mk (e ∷ xs)) (λ xs ys h. Quot.sound (SameEvents-cons e xs ys h))

-- What a user calls.
pub data Op : Type 0 where
  inserts : EventLog → Op
  takes : Op
  clears : Op

-- An operation on the slice, with the event that it returns.
unfoldable pub operate : Op → List EventLog → Option EventLog × List EventLog
operate (inserts e) es = (none, insert e es)
operate takes es = next es
operate clears es = (none, clear es)

-- What an operation may do to a bag: an insert adds the event, a clear leaves none, and Next returns
-- nothing of an empty bag, and else takes out an event that no other is before.
abbrev Allowed : Op → Bag → Option EventLog → Bag → Type 0
Allowed (inserts e) b o b' = (o ≡ none) × (b' ≡ put e b)
Allowed takes b none b' = (b ≡ bag []) × (b' ≡ bag [])
Allowed takes b (some e) b' = (b ≡ put e b') × (occurrences (λ q. less q e) b ≡ 0)
Allowed clears b o b' = (o ≡ none) × (b' ≡ bag [])

pub none_before :
    (e : EventLog) (es : List EventLog)
    → ((k : ℕ) → k < length es → InOrder (some e) (at k es))
    → count (λ q. less q e) es ≡ 0
unfolding count at
none_before e [] h = refl
none_before e (x ∷ es) h =
    let first : less x e ≡ false = h 0 (omega arith) in
    let rest = none_before e es (λ k lt. h (suc k) (omega arith)) in
    let zero_ : tally (less x e) ≡ 0 = rw first refl in omega (arith, rest, zero_)

-- Each operation on the heap is one that the bag allows, and leaves a heap.
operate-Allowed :
    (op : Op) (es : List EventLog)
    → Heap es
    → Allowed op (bag es) (operate op es).0 (bag (operate op es).1) × Heap (operate op es).1
unfolding operate put occurrences next
operate-Allowed (inserts e) es h =
    let (heap, same) = insert_correct e es h in ((refl, Quot.sound same), heap)
operate-Allowed takes [] h = ((refl, refl), λ k pos' lt. absurd (omega arith))
operate-Allowed takes (e ∷ es) h =
    let (first, behind, heap, same) = next_correct e es h in
    let rest = (next (e ∷ es)).1 in
    let refilled : SameEvents (e ∷ es) (e ∷ rest) = SameEvents-cons e es rest (λ p. sym (same p)) in
    (
      subst (λ o. Allowed takes (bag (e ∷ es)) o (bag rest)) (sym first)
          (Quot.sound refilled, none_before e (e ∷ es) behind),
      heap,
    )
operate-Allowed clears es h = ((refl, refl), λ k pos' lt. absurd (omega arith))

-- The operations one after the other, with what they return.
unfoldable pub operations : List Op → List EventLog → List (Option EventLog)
operations [] es = []
operations (op ∷ ops) es = (operate op es).0 ∷ operations ops (operate op es).1

-- What some operations may return, from a bag.
abbrev pub Allows : List Op → Bag → List (Option EventLog) → Type 0
Allows [] b [] = Unit
Allows [] b (o ∷ os) = ⊥
Allows (op ∷ ops) b [] = ⊥
Allows (op ∷ ops) b (o ∷ os) = (b' : Bag) × Allowed op b o b' × Allows ops b' os

from_heap : (ops : List Op) (es : List EventLog) → Heap es → Allows ops (bag es) (operations ops es)
unfolding operations
from_heap [] es h = tt
from_heap (op ∷ ops) es h =
    let (allowed, heap) = operate-Allowed op es h in
    (bag (operate op es).1, allowed, from_heap ops (operate op es).1 heap)

-- Whatever is called on a new queue, it returns what a bag of events that starts empty allows: Insert
-- adds an event, Clear leaves none, and Next returns nothing of an empty bag, and else takes out an
-- event that no other of the bag is before.
pub operations-Allows : (ops : List Op) → Allows ops (bag []) (operations ops new_event_queue)
operations-Allows ops = from_heap ops [] (λ k pos' lt. absurd (omega arith))
