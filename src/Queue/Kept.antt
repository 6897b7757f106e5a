-- ===== src/Queue/Kept.antt =====
-- The queue keeps its events: whatever is counted of them, Insert and Next count it right.
use vault_indexer.Prelude.{
  ℕ, zero, suc, ◌+◌, ◌*◌, ◌==◌, ◌<◌, ◌≤◌, ◌≡◌, refl, sym, subst, ap, ◌∙◌, Bool, Bool-cases, true,
  false, not, ◌||◌, leb, inl, inr, none, some, Option, List, [], ◌∷◌, ◌++◌, length, length-append,
  arith,
}
use vault_indexer.Queue.{EventLog, at, set, swap, less_at, child, up, insert, down, drop_last, next}
use vault_indexer.Queue.Order.{InOrder}
use vault_indexer.Queue.Slots.{at-set_same, at-set_other, length-swap, swapped_as}
use vault_indexer.Queue.Up.{Heap, parent, eq-cases, insert-Heap}
use vault_indexer.Queue.First.{child-below, child-above, next-InOrder}
use vault_indexer.Queue.Rest.{length-down, next-Heap}

abbrev pub tally : Bool → ℕ
tally true = 1
tally false = 0

-- How many of the events pass a test.
unfoldable pub count : (EventLog → Bool) → List EventLog → ℕ
count p [] = 0
count p (e ∷ es) = tally (p e) + count p es

count-append :
    (p : EventLog → Bool) (es : List EventLog) (e : EventLog)
    → count p (es ++ e ∷ []) ≡ tally (p e) + count p es
unfolding count
count-append p [] e = refl
count-append p (x ∷ es) e = let r = count-append p es e in omega (arith, r)

count-set :
    (p : EventLog → Bool) (i : ℕ) (x a : EventLog) (es : List EventLog)
    → at i es ≡ some a
    → count p (set i x es) + tally (p a) ≡ count p es + tally (p x)
unfolding count set at
count-set p i x a [] h = absurd (ground arith)
count-set p zero x a (e ∷ es) h =
    let same : tally (p e) ≡ tally (p a) = ap (λ o. tally_of p o) h in omega (arith, same)
  where
    tally_of : (EventLog → Bool) → Option EventLog → ℕ
    tally_of q none = 0
    tally_of q (some y) = tally (q y)
count-set p (suc i) x a (e ∷ es) h = let r = count-set p i x a es h in omega (arith, r)

count-swap :
    (p : EventLog → Bool) (i j : ℕ) (es : List EventLog)
    → i < length es
    → j < length es
    → count p (swap i j es) ≡ count p es
count-swap p i j es hi hj =
    let (a, b, ha, hb, e) = swapped_as i j es hi hj in
    let inner = count-set p j a b es hb in
    let still : at i (set j a es) ≡ some a = elim (eq-cases i j) [
      | inl q ↦ ap (λ k. at k (set j a es)) q ∙ at-set_same j a es hj
      | inr d ↦ at-set_other j i a es d ∙ ha
    ] in
    let outer = count-set p i b a (set j a es) still in ap (count p) e ∙ omega (arith, inner, outer)

count-up :
    (p : EventLog → Bool) (f j : ℕ) (es : List EventLog)
    → j < length es
    → count p (up f j es) ≡ count p es
unfolding up
count-up p zero j es h = refl
count-up p (suc f) j es h = elim (Bool-cases (parent j == j || not (less_at es j (parent j)))) [
  | inl s ↦ rw s refl
  | inr s ↦
      let same = length-swap (parent j) j es (omega arith) h in
      rw s (
        count-up p f (parent j) (swap (parent j) j es)
          (subst (λ m. parent j < m) (sym same) (omega arith))
        ∙ count-swap p (parent j) j es (omega arith) h)
]

count-down :
    (p : EventLog → Bool) (f i n : ℕ) (es : List EventLog)
    → n ≤ length es
    → count p (down f i n es) ≡ count p es
unfolding down
count-down p zero i n es lt = refl
count-down p (suc f) i n es lt = elim (Bool-cases (leb n (2 * i + 1))) [
  | inl l ↦ rw l refl
  | inr l ↦ elim (Bool-cases (less_at es (child i n es) i)) [
    | inr m ↦ rw (l, m) refl
    | inl m ↦
        let below = child-below i n es l in
        let above = child-above i n es in
        let same = length-swap i (child i n es) es (omega arith) (omega arith) in
        rw (l, m)
          (count-down p f (child i n es) n (swap i (child i n es) es)
              (subst (λ s. n ≤ s) (sym same) lt)
            ∙ count-swap p i (child i n es) es (omega arith) (omega arith))
  ]
]

count-drop_last :
    (p : EventLog → Bool) (n : ℕ) (es : List EventLog) (x : EventLog)
    → length es ≡ n + 1
    → at n es ≡ some x
    → tally (p x) + count p (drop_last es) ≡ count p es
unfolding count at
count-drop_last p n [] x l h = absurd (omega arith)
count-drop_last p zero (e ∷ []) x l h = ap (λ o. tally_of p o) (sym h)
  where
    tally_of : (EventLog → Bool) → Option EventLog → ℕ
    tally_of q none = 0
    tally_of q (some y) = tally (q y) + 0
count-drop_last p (suc n) (e ∷ []) x l h = absurd (omega arith)
count-drop_last p zero (e ∷ e' ∷ es) x l h = absurd (omega arith)
count-drop_last p (suc n) (e ∷ e' ∷ es) x l h =
    let r = count-drop_last p n (e' ∷ es) x (omega arith) h in omega (arith, r)

-- Insert keeps the queue a heap, and of any kind of events it then holds as many as it did, and the one
-- that is inserted.
pub insert_correct :
    (e : EventLog) (es : List EventLog)
    → Heap es
    → Heap (insert e es) × ((p : EventLog → Bool) → count p (insert e es) ≡ count p (e ∷ es))
unfolding insert count
insert_correct e es h = (
  insert-Heap e es h,
  λ p.
      let longer = length-append es (e ∷ []) in
      count-up p (length es + 1) (length es) (es ++ e ∷ []) (omega (arith, longer))
      ∙ count-append p es e,
)

count-next :
    (p : EventLog → Bool) (e : EventLog) (es : List EventLog)
    → (next (e ∷ es)).0 ≡ some e
    → tally (p e) + count p (next (e ∷ es)).1 ≡ count p (e ∷ es)
unfolding next
count-next p e es first =
    let n = length es in
    let start = swap 0 n (e ∷ es) in
    let same = length-swap 0 n (e ∷ es) (omega arith) (omega arith) in
    let kept = length-down n 0 n start (omega arith) in
    count-drop_last p n (down n 0 n start) e (kept ∙ same ∙ omega arith) first
    ∙ count-down p n 0 n start (omega arith)
    ∙ count-swap p 0 n (e ∷ es) (omega arith) (omega arith)

-- Next of a queue that is a heap and not empty returns its first event, no event of the queue is before
-- that in the order by block and log index, and what is left is a heap with all the other events.
pub next_correct :
    (e : EventLog) (es : List EventLog)
    → Heap (e ∷ es)
    → ((next (e ∷ es)).0 ≡ some e)
      × ((k : ℕ) → k < length (e ∷ es) → InOrder (some e) (at k (e ∷ es)))
      × Heap (next (e ∷ es)).1
      × ((p : EventLog → Bool) → count p (next (e ∷ es)).1 ≡ count p es)
unfolding count
next_correct e es h =
    let (first, behind) = next-InOrder e es h in
    (first, behind, next-Heap e es h, λ p. let r = count-next p e es first in omega (arith, r))
