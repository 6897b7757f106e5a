-- ===== src/Queue/First.antt =====
-- Next: what heap.Pop takes out is the first event of the heap, and none is before it.
use vault_indexer.Prelude.{
  ℕ, zero, suc, ◌+◌, ◌*◌, ◌<◌, ◌≡◌, refl, sym, subst, ◌∙◌, Bool-cases, false, leb, Option, none,
  some, inl, inr, List, ◌∷◌, length, arith,
}
use vault_indexer.Queue.{EventLog, at, swap, less, less_at, child, down, next}
use vault_indexer.Queue.Order.{InOrder, InOrder-trans}
use vault_indexer.Queue.Slots.{at-swap_right, at-swap_left, at-swap_other, length-swap, in_range}
use vault_indexer.Queue.Up.{Heap, parent}

pub InOrder-refl : (x : Option EventLog) → InOrder x x
unfolding less
InOrder-refl none = tt
InOrder-refl (some e) = ground arith

root-InOrder :
    (f : ℕ) (es : List EventLog)
    → Heap es
    → (k : ℕ) → k < f
    → k < length es
    → InOrder (at 0 es) (at k es)
root-InOrder zero es h k kf lt = absurd (omega arith)
root-InOrder (suc f) es h zero kf lt = InOrder-refl (at 0 es)
root-InOrder (suc f) es h (suc k) kf lt =
    let below : parent (suc k) < length es = omega arith in
    let (b, e) = in_range (parent (suc k)) es below in
    InOrder-trans (at 0 es) (at (parent (suc k)) es) (at (suc k) es) b e
      (root-InOrder f es h (parent (suc k)) (omega arith) below) (h (suc k) (omega arith) lt)

pub child-below : (i n : ℕ) (es : List EventLog) → leb n (2 * i + 1) ≡ false → child i n es < n
child-below i n es h = ground arith

pub child-above : (i n : ℕ) (es : List EventLog) → i < child i n es
child-above i n es = ground arith

-- heap.down leaves what stands behind the heap.
at-down : (f i n : ℕ) (es : List EventLog) → n < length es → at n (down f i n es) ≡ at n es
unfolding down
at-down zero i n es lt = refl
at-down (suc f) i n es lt = elim (Bool-cases (leb n (2 * i + 1))) [
  | inl l ↦ rw l refl
  | inr l ↦ elim (Bool-cases (less_at es (child i n es) i)) [
    | inr m ↦ rw (l, m) refl
    | inl m ↦
        let j = child i n es in
        let below = child-below i n es l in
        let above = child-above i n es in
        rw (l, m)
          (at-down f j n (swap i j es)
              (subst (λ m. n < m) (sym (length-swap i j es (omega arith) (omega arith))) lt)
            ∙ at-swap_other i j es (omega arith) (omega arith) n (λ e. omega arith)
                (λ e. omega arith))
  ]
]

last_from_front : (n : ℕ) (es : List EventLog) → n < length es → at n (swap 0 n es) ≡ at 0 es
last_from_front zero es lt = at-swap_left 0 0 es lt lt
last_from_front (suc n) es lt = at-swap_right 0 (suc n) es (omega arith) lt (λ e. omega arith)

-- What Next returns is in order with all events of the queue.
pub next-InOrder :
    (e : EventLog) (es : List EventLog)
    → Heap (e ∷ es)
    → ((next (e ∷ es)).0 ≡ some e)
      × ((k : ℕ) → k < length (e ∷ es) → InOrder (some e) (at k (e ∷ es)))
unfolding next at
next-InOrder e es h =
    let n = length es in
    (
      at-down n 0 n (swap 0 n (e ∷ es)) (
            subst (λ m. n < m) (sym (length-swap 0 n (e ∷ es) (omega arith) (omega arith)))
              (omega arith))
          ∙ last_from_front n (e ∷ es) (omega arith),
      λ k lt. root-InOrder (k + 1) (e ∷ es) h k (omega arith) lt,
    )
