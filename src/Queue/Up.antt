-- ===== src/Queue/Up.antt =====
-- heap.up restores the order of a heap at whose last index an event was put.
use vault_indexer.Prelude.{
  ℕ, zero, suc, ◌+◌, ◌-◌, ◌/◌, ◌==◌, ◌<◌, ◌≡◌, ◌≢◌, refl, sym, subst, ap, ◌∙◌, true, false, Option,
  List, [], ◌∷◌, ◌++◌, length, length-append, arith, Bool-cases, inl, inr, ◌⊎◌,
}
use vault_indexer.Queue.{EventLog, at, swap, less_at, up, insert}
use vault_indexer.Queue.Order.{InOrder, InOrder-trans, InOrder-of_less, InOrder-of_not_less}
use vault_indexer.Queue.Slots.{at-swap_left, at-swap_right, at-swap_other, length-swap, in_range}

abbrev pub parent : ℕ → ℕ
parent k = (k - 1) / 2

-- No event is behind its children.
abbrev pub Heap : List EventLog → Type 0
Heap es = (k : ℕ) → 0 < k → k < length es → InOrder (at (parent k) es) (at k es)

-- A heap but for the event at `j`, which may belong further up.
pub record UpHeap (es : List EventLog) (j : ℕ) : Type 0 where
  pub others : (k : ℕ) → 0 < k → k < length es → k ≢ j → InOrder (at (parent k) es) (at k es)
  pub around :
      (k : ℕ) → 0 < k → k < length es → parent k ≡ j → 0 < j → InOrder (at (parent j) es) (at k es)

pub eq-cases : (i j : ℕ) → (i ≡ j) ⊎ (i ≢ j)
eq-cases i j = elim (Bool-cases (i == j)) [
  | inl e ↦ inl (ground arith)
  | inr e ↦ inr (λ p. absurd (ground arith))
]

done : (es : List EventLog) (j : ℕ) → UpHeap es j → InOrder (at (parent j) es) (at j es) → Heap es
done es j u h k pos' lt = elim (eq-cases k j) [ inl e ↦ rw e h | inr d ↦ u.others k pos' lt d ]

top : (es : List EventLog) → UpHeap es 0 → Heap es
top es u k pos' lt = u.others k pos' lt (λ e. omega arith)

pub in_order : {x x' y y' : Option EventLog} → x ≡ x' → y ≡ y' → InOrder x' y' → InOrder x y
in_order {x} {x'} {y} {y'} p q h =
    subst (λ z. InOrder z y) (sym p) (subst (λ z. InOrder x' z) (sym q) h)

-- The event goes up one level.
module _ (es : List EventLog) (j : ℕ) (u : UpHeap es j) (pos' : 0 < j) (lt : j < length es)
    (l : InOrder (at j es) (at (parent j) es)) where
  abbrev i : ℕ
  i = parent j

  abbrev moved : List EventLog
  moved = swap i j es

  i-below : i < length es
  i-below = omega arith

  i-other : j ≢ i
  i-other = λ e. omega arith

  upper_slot : at i moved ≡ at j es
  upper_slot = at-swap_left i j es i-below lt

  lower_slot : at j moved ≡ at i es
  lower_slot = at-swap_right i j es i-below lt i-other

  other_slot : (k : ℕ) → k ≢ i → k ≢ j → at k moved ≡ at k es
  other_slot = at-swap_other i j es i-below lt

  -- What is behind the parent is behind the event.
  through_i : (k : ℕ) → InOrder (at i es) (at k es) → InOrder (at j es) (at k es)
  through_i k h =
      let (b, e) = in_range i es i-below in InOrder-trans (at j es) (at i es) (at k es) b e l h

  others_after :
      (k : ℕ) → 0 < k → k < length es → k ≢ i → InOrder (at (parent k) moved) (at k moved)
  others_after k kpos klt ki = elim (eq-cases k j) [
    | inl e ↦
        in_order (ap (λ m. at (parent m) moved) e ∙ upper_slot)
          (ap (λ m. at m moved) e ∙ lower_slot) l
    | inr kj ↦ elim (eq-cases (parent k) i) [
      | inl pi ↦
          in_order (ap (λ m. at m moved) pi ∙ upper_slot) (other_slot k ki kj)
            (through_i k (subst (λ m. InOrder (at m es) (at k es)) pi (u.others k kpos klt kj)))
      | inr pi ↦ elim (eq-cases (parent k) j) [
        | inl pj ↦
            in_order (ap (λ m. at m moved) pj ∙ lower_slot) (other_slot k ki kj)
              (u.around k kpos klt pj pos')
        | inr pj ↦
            in_order (other_slot (parent k) pi pj) (other_slot k ki kj) (u.others k kpos klt kj)
      ]
    ]
  ]

  around_after :
      (k : ℕ)
      → 0 < k
      → k < length es
      → parent k ≡ i
      → 0 < i
      → InOrder (at (parent i) moved) (at k moved)
  around_after k kpos klt pi ipos =
      let (b, e) = in_range i es i-below in
      let above = u.others i ipos i-below (λ e. omega arith) in
      let up_one = other_slot (parent i) (λ e. omega arith) (λ e. omega arith) in
      elim (eq-cases k j) [
        | inl e' ↦ in_order up_one (ap (λ m. at m moved) e' ∙ lower_slot) above
        | inr kj ↦ in_order up_one (other_slot k (λ e. omega arith) kj) (
            InOrder-trans (at (parent i) es) (at i es) (at k es) b e above
              (subst (λ m. InOrder (at m es) (at k es)) pi (u.others k kpos klt kj)))
      ]

  same_length : length moved ≡ length es
  same_length = length-swap i j es i-below lt

  moved-UpHeap : UpHeap moved i
  moved-UpHeap = record {
    others = λ k kpos klt ki. others_after k kpos (subst (λ n. k < n) same_length klt) ki;
    around = λ k kpos klt pi ipos. around_after k kpos (subst (λ n. k < n) same_length klt) pi ipos;
  }

root : (j : ℕ) → (parent j == j) ≡ true → j ≡ 0
root j e = ground arith

below_root : (j : ℕ) → (parent j == j) ≡ false → 0 < j
below_root zero e = absurd (ground arith)
below_root (suc j) e = omega arith

-- heap.up makes a heap of it.
up-Heap :
    (f : ℕ) (es : List EventLog) (j : ℕ) → j < f → j < length es → UpHeap es j → Heap (up f j es)
unfolding up less_at
up-Heap zero es j h lt u = absurd (omega arith)
up-Heap (suc f) es j h lt u = elim (Bool-cases (parent j == j)) [
  | inl e ↦ rw e (top es (subst (UpHeap es) (root j e) u))
  | inr n ↦ elim (Bool-cases (less_at es j (parent j))) [
    | inr b ↦ rw (n, b) (done es j u (InOrder-of_not_less (at (parent j) es) (at j es) b))
    | inl l ↦
        let pos' = below_root j n in
        let less' = InOrder-of_less (at j es) (at (parent j) es) l in
        rw (n, l)
          (up-Heap f (swap (parent j) j es) (parent j) (omega arith)
            (subst (λ m. parent j < m) (sym (same_length es j u pos' lt less')) (omega arith))
            (moved-UpHeap es j u pos' lt less'))
  ]
]

at-append :
    (k : ℕ) (es : List EventLog) (e : EventLog) → k < length es → at k (es ++ e ∷ []) ≡ at k es
unfolding at
at-append k [] e h = absurd (omega arith)
at-append zero (x ∷ es) e h = refl
at-append (suc k) (x ∷ es) e h = at-append k es e (omega arith)

narrow : (k n : ℕ) → k < n + 1 → k ≢ n → k < n
narrow k n h d = omega arith

-- Insert keeps the queue a heap.
pub insert-Heap : (e : EventLog) (es : List EventLog) → Heap es → Heap (insert e es)
unfolding insert
insert-Heap e es h =
    up-Heap (length es + 1) (es ++ e ∷ []) (length es) (omega arith) (omega (arith, longer))
      (record {
        others = λ k kpos klt d.
            let below = narrow k (length es) (subst (λ n. k < n) longer klt) d in
            in_order (at-append (parent k) es e (omega arith)) (at-append k es e below)
              (h k kpos below);
        around = λ k kpos klt p jpos. absurd (omega (arith, longer));
      })
  where
    longer : length (es ++ e ∷ []) ≡ length es + 1
    longer = length-append es (e ∷ [])
