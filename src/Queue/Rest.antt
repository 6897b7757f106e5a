-- ===== src/Queue/Rest.antt =====
-- Next: what is left of the queue is a heap.
use vault_indexer.Prelude.{
  ℕ, zero, suc, ◌+◌, ◌*◌, ◌<◌, ◌≤◌, ◌≡◌, refl, sym, subst, ◌∙◌, Bool-cases, leb, inl, inr, List, [],
  ◌∷◌, length, arith,
}
use vault_indexer.Queue.{EventLog, at, swap, less_at, child, down, drop_last, next}
use vault_indexer.Queue.Slots.{at-swap_other, length-swap}
use vault_indexer.Queue.Up.{Heap, parent, in_order}
use vault_indexer.Queue.First.{child-below, child-above}
use vault_indexer.Queue.Down.{HeapTo, DownHeap, down-HeapTo}

pub length-down :
    (f i n : ℕ) (es : List EventLog) → n ≤ length es → length (down f i n es) ≡ length es
unfolding down
length-down zero i n es lt = refl
length-down (suc f) i n es lt = elim (Bool-cases (leb n (2 * i + 1))) [
  | inl l ↦ rw l refl
  | inr l ↦ elim (Bool-cases (less_at es (child i n es) i)) [
    | inr m ↦ rw (l, m) refl
    | inl m ↦
        let below = child-below i n es l in
        let above = child-above i n es in
        let same = length-swap i (child i n es) es (omega arith) (omega arith) in
        rw (l, m)
          (length-down f (child i n es) n (swap i (child i n es) es)
              (subst (λ s. n ≤ s) (sym same) lt)
            ∙ same)
  ]
]

length-drop_last : (es : List EventLog) → 0 < length es → length (drop_last es) + 1 ≡ length es
length-drop_last [] h = absurd (omega arith)
length-drop_last (e ∷ []) h = refl
length-drop_last (e ∷ e' ∷ es) h =
    let r = length-drop_last (e' ∷ es) (omega arith) in omega (arith, r)

at-drop_last : (k : ℕ) (es : List EventLog) → k + 1 < length es → at k (drop_last es) ≡ at k es
unfolding at
at-drop_last k [] h = absurd (omega arith)
at-drop_last k (e ∷ []) h = absurd (omega arith)
at-drop_last zero (e ∷ e' ∷ es) h = refl
at-drop_last (suc k) (e ∷ e' ∷ es) h = at-drop_last k (e' ∷ es) (omega arith)

drop_last-Heap :
    (n : ℕ) (es : List EventLog) → length es ≡ n + 1 → HeapTo n es → Heap (drop_last es)
drop_last-Heap n es l h k kpos klt =
    let shorter = length-drop_last es (omega arith) in
    in_order (at-drop_last (parent k) es (omega arith)) (at-drop_last k es (omega arith))
      (h k kpos (omega arith))

-- The last event at the root of a heap, with the first behind the others.
fronted-DownHeap :
    (n : ℕ) (es : List EventLog) → length es ≡ n + 1 → Heap es → DownHeap (swap 0 n es) 0 n
fronted-DownHeap n es l h = record {
  others = λ k kpos klt d.
      let same = at-swap_other 0 n es (omega arith) (omega arith) in
      in_order (same (parent k) d (λ e. omega arith)) (same k (λ e. omega arith) (λ e. omega arith))
        (h k kpos (omega arith));
  around = λ k kpos klt p never. absurd (omega arith);
}

-- Next leaves a heap.
pub next-Heap : (e : EventLog) (es : List EventLog) → Heap (e ∷ es) → Heap (next (e ∷ es)).1
unfolding next
next-Heap e es h =
    let n = length es in
    let start = swap 0 n (e ∷ es) in
    let same : length start ≡ n + 1 =
      length-swap 0 n (e ∷ es) (omega arith) (omega arith) ∙ omega arith in
    let kept = length-down n 0 n start (omega arith) in
    let final = kept ∙ same in
    drop_last-Heap n (down n 0 n start) (kept ∙ same) (
      down-HeapTo n 0 n start (omega arith) (omega arith)
        (fronted-DownHeap n (e ∷ es) (omega arith) h))
