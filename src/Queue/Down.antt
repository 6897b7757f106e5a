-- ===== src/Queue/Down.antt =====
-- heap.down restores the order of a heap at whose root an event was put.
use vault_indexer.Prelude.{
  ℕ, zero, suc, ◌+◌, ◌*◌, ◌<◌, ◌≤◌, ◌≡◌, ◌≢◌, refl, sym, subst, ap, ◌∙◌, Bool-cases, true, false,
  ltb, leb, ◌&&◌, inl, inr, List, length, arith, ◌⊎◌,
}
use vault_indexer.Queue.{EventLog, at, swap, less_at, child, down}
use vault_indexer.Queue.Order.{InOrder, InOrder-trans, InOrder-of_less, InOrder-of_not_less}
use vault_indexer.Queue.Slots.{at-swap_right, at-swap_left, at-swap_other, length-swap, in_range}
use vault_indexer.Queue.Up.{parent, in_order, eq-cases}
use vault_indexer.Queue.First.{InOrder-refl, child-below, child-above}

-- No event of the first `n` is behind its children.
abbrev pub HeapTo : ℕ → List EventLog → Type 0
HeapTo n es = (k : ℕ) → 0 < k → k < n → InOrder (at (parent k) es) (at k es)

-- A heap but for the event at `i`, which may belong further down.
pub record DownHeap (es : List EventLog) (i : ℕ) (n : ℕ) : Type 0 where
  pub others : (k : ℕ) → 0 < k → k < n → parent k ≢ i → InOrder (at (parent k) es) (at k es)
  pub around : (k : ℕ) → 0 < k → k < n → parent k ≡ i → 0 < i → InOrder (at (parent i) es) (at k es)

child-parent : (i n : ℕ) (es : List EventLog) → parent (child i n es) ≡ i
child-parent i n es =
    elim (Bool-cases (ltb (2 * i + 1 + 1) n && less_at es (2 * i + 1 + 1) (2 * i + 1))) [
      | inl b ↦ rw b (omega arith)
      | inr b ↦ rw b (omega arith)
    ]

children : (i k : ℕ) → 0 < k → parent k ≡ i → (k ≡ 2 * i + 1) ⊎ (k ≡ 2 * i + 1 + 1)
children i k pos' p = elim (eq-cases k (2 * i + 1)) [ inl e ↦ inl e | inr d ↦ inr (omega arith) ]

not_less :
    (i n : ℕ) (es : List EventLog)
    → 2 * i + 1 + 1 < n
    → (ltb (2 * i + 1 + 1) n && less_at es (2 * i + 1 + 1) (2 * i + 1)) ≡ false
    → less_at es (2 * i + 1 + 1) (2 * i + 1) ≡ false
not_less i n es lt b = ground arith

is_less :
    (i n : ℕ) (es : List EventLog)
    → (ltb (2 * i + 1 + 1) n && less_at es (2 * i + 1 + 1) (2 * i + 1)) ≡ true
    → less_at es (2 * i + 1 + 1) (2 * i + 1) ≡ true
is_less i n es b = ground arith

-- The child that is taken is not behind the other one.
child-InOrder :
    (i n k : ℕ) (es : List EventLog)
    → 0 < k
    → k < n
    → parent k ≡ i
    → InOrder (at (child i n es) es) (at k es)
unfolding less_at
child-InOrder i n k es kpos klt p =
    elim (Bool-cases (ltb (2 * i + 1 + 1) n && less_at es (2 * i + 1 + 1) (2 * i + 1))) [
      | inl b ↦ elim (children i k kpos p) [
        | inl e ↦
            rw (b, e)
              (InOrder-of_less (at (2 * i + 1 + 1) es) (at (2 * i + 1) es) (is_less i n es b))
        | inr e ↦ rw (b, e) (InOrder-refl (at (2 * i + 1 + 1) es))
      ]
      | inr b ↦ elim (children i k kpos p) [
        | inl e ↦ rw (b, e) (InOrder-refl (at (2 * i + 1) es))
        | inr e ↦
            rw (b, e)
              (InOrder-of_not_less (at (2 * i + 1) es) (at (2 * i + 1 + 1) es)
                (not_less i n es (omega arith) b))
      ]
    ]

leaf : (n i : ℕ) (es : List EventLog) → DownHeap es i n → n ≤ 2 * i + 1 → HeapTo n es
leaf n i es u h k kpos klt = u.others k kpos klt (λ e. omega arith)

-- The event stays, or goes down one level.
module _ (n i j : ℕ) (es : List EventLog) (u : DownHeap es i n) (il : i < j) (jl : j < n)
    (nl : n ≤ length es) (pj : parent j ≡ i)
    (least : (k : ℕ) → 0 < k → k < n → parent k ≡ i → InOrder (at j es) (at k es)) where
  settled : InOrder (at i es) (at j es) → HeapTo n es
  settled h k kpos klt =
      let (b, e) = in_range j es (omega arith) in
      elim (eq-cases (parent k) i) [
        | inl p ↦
            in_order (ap (λ m. at m es) p) refl
              (InOrder-trans (at i es) (at j es) (at k es) b e h (least k kpos klt p))
        | inr d ↦ u.others k kpos klt d
      ]

  abbrev moved : List EventLog
  moved = swap i j es

  upper_slot : at i moved ≡ at j es
  upper_slot = at-swap_left i j es (omega arith) (omega arith)

  lower_slot : at j moved ≡ at i es
  lower_slot = at-swap_right i j es (omega arith) (omega arith) (λ e. omega arith)

  other_slot : (k : ℕ) → k ≢ i → k ≢ j → at k moved ≡ at k es
  other_slot = at-swap_other i j es (omega arith) (omega arith)

  below_upper :
      InOrder (at j es) (at i es)
      → (k : ℕ) → 0 < k
      → k < n
      → parent k ≡ i
      → InOrder (at (parent k) moved) (at k moved)
  below_upper l k kpos klt p = elim (eq-cases k j) [
    | inl e ↦ in_order (ap (λ m. at m moved) p ∙ upper_slot) (ap (λ m. at m moved) e ∙ lower_slot) l
    | inr d ↦
        in_order (ap (λ m. at m moved) p ∙ upper_slot) (other_slot k (λ e. omega arith) d)
          (least k kpos klt p)
  ]

  elsewhere :
      (k : ℕ)
      → 0 < k
      → k < n
      → parent k ≢ i
      → parent k ≢ j
      → InOrder (at (parent k) moved) (at k moved)
  elsewhere k kpos klt pi pj' = elim (eq-cases k i) [
    | inl e ↦
        in_order
          (ap (λ m. at (parent m) moved) e
            ∙ other_slot (parent i) (λ q. omega arith) (λ q. omega arith))
          (ap (λ m. at m moved) e ∙ upper_slot) (u.around j (omega arith) jl pj (omega arith))
    | inr d ↦
        in_order (other_slot (parent k) pi pj') (other_slot k d (λ e. pi (ap parent e ∙ pj)))
          (u.others k kpos klt pi)
  ]

  moved-DownHeap : InOrder (at j es) (at i es) → DownHeap moved j n
  moved-DownHeap l = record {
    others = λ k kpos klt d. elim (eq-cases (parent k) i) [
      | inl p ↦ below_upper l k kpos klt p
      | inr pi ↦ elsewhere k kpos klt pi d
    ];
    around = λ k kpos klt p jpos.
        in_order (ap (λ m. at m moved) pj ∙ upper_slot)
          (other_slot k (λ e. omega arith) (λ e. omega arith))
          (subst (λ m. InOrder (at m es) (at k es)) p (u.others k kpos klt (λ e. omega arith)));
  }

-- heap.down makes a heap of the first `n` events.
pub down-HeapTo :
    (f i n : ℕ) (es : List EventLog)
    → n ≤ f + i
    → n ≤ length es
    → DownHeap es i n
    → HeapTo n (down f i n es)
unfolding down less_at
down-HeapTo zero i n es h nl u = leaf n i es u (omega arith)
down-HeapTo (suc f) i n es h nl u = elim (Bool-cases (leb n (2 * i + 1))) [
  | inl l ↦ rw l (leaf n i es u (ground arith))
  | inr l ↦
      let j = child i n es in
      let below = child-below i n es l in
      let above = child-above i n es in
      let pj = child-parent i n es in
      let least = λ (k : ℕ) (kpos : 0 < k) (klt : k < n) (p : parent k ≡ i).
        child-InOrder i n k es kpos klt p in
      elim (Bool-cases (less_at es j i)) [
        | inr m ↦
            rw (l, m)
              (settled n i j es u above below nl pj least
                (InOrder-of_not_less (at i es) (at j es) m))
        | inl m ↦
            rw (l, m)
              (down-HeapTo f j n (swap i j es) (omega arith)
                (subst (λ s. n ≤ s) (sym (length-swap i j es (omega arith) (omega arith))) nl)
                (moved-DownHeap n i j es u above below nl pj least
                  (InOrder-of_less (at j es) (at i es) m)))
      ]
]
