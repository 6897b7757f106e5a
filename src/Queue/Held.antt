-- ===== src/Queue/Held.antt =====
-- The events that stand somewhere in the slice: Insert keeps them, adds its own, and no other.
use vault_indexer.Prelude.{
  ℕ, zero, suc, ◌+◌, ◌==◌, ◌<◌, ◌≡◌, refl, sym, subst, ap, ◌∙◌, Bool-cases, not, ◌||◌, inl, inr,
  ◌⊎◌, Option, none, some, List, [], ◌∷◌, ◌++◌, length, length-append, arith,
}
use vault_indexer.Queue.{EventLog, at, swap, less_at, up, insert}
use vault_indexer.Queue.Slots.{at-swap_left, at-swap_right, at-swap_other, length-swap}
use vault_indexer.Queue.Up.{parent, eq-cases}

abbrev pub Held : List EventLog → EventLog → Type 0
Held es x = (k : ℕ) × (at k es ≡ some x)

at-below : (k : ℕ) (es : List EventLog) (x : EventLog) → at k es ≡ some x → k < length es
unfolding at
at-below k [] x h = absurd (ground arith)
at-below zero (e ∷ es) x h = omega arith
at-below (suc k) (e ∷ es) x h = let r = at-below k es x h in omega (arith, r)

append-Held :
    (k : ℕ) (es : List EventLog) (e x : EventLog) → at k es ≡ some x → at k (es ++ e ∷ []) ≡ some x
unfolding at
append-Held k [] e x h = absurd (ground arith)
append-Held zero (y ∷ es) e x h = h
append-Held (suc k) (y ∷ es) e x h = append-Held k es e x h

last-Held : (es : List EventLog) (e : EventLog) → at (length es) (es ++ e ∷ []) ≡ some e
unfolding at
last-Held [] e = refl
last-Held (y ∷ es) e = last-Held es e

pub some-injective : (d x y : EventLog) → some x ≡ some y → x ≡ y
some-injective d x y h = ap (λ o. or_else d o) h
  where
    or_else : EventLog → Option EventLog → EventLog
    or_else d' none = d'
    or_else d' (some z) = z

of_append :
    (k : ℕ) (es : List EventLog) (e x : EventLog)
    → at k (es ++ e ∷ []) ≡ some x
    → (x ≡ e) ⊎ Held es x
unfolding at
of_append zero [] e x h = inl (sym (some-injective e e x h))
of_append (suc k) [] e x h = absurd (ground arith)
of_append zero (y ∷ es) e x h = inr (0, h)
of_append (suc k) (y ∷ es) e x h = elim (of_append k es e x h) [
  | inl p ↦ inl p
  | inr p ↦ inr (suc p.0, p.1)
]

module _ (i j : ℕ) (es : List EventLog) (hi : i < length es) (hj : j < length es)
    (x : EventLog) where
  -- Where an event stands after a swap.
  swap-Held : Held es x → Held (swap i j es) x
  swap-Held (k, h) = elim (eq-cases k i) [
    | inl e ↦ elim (eq-cases j i) [
      | inl q ↦ (i, at-swap_left i j es hi hj ∙ ap (λ m. at m es) (q ∙ sym e) ∙ h)
      | inr d ↦ (j, at-swap_right i j es hi hj d ∙ ap (λ m. at m es) (sym e) ∙ h)
    ]
    | inr d ↦ elim (eq-cases k j) [
      | inl e ↦ (i, at-swap_left i j es hi hj ∙ ap (λ m. at m es) (sym e) ∙ h)
      | inr d' ↦ (k, at-swap_other i j es hi hj k d d' ∙ h)
    ]
  ]

  of_swap : Held (swap i j es) x → Held es x
  of_swap (k, h) = elim (eq-cases k i) [
    | inl e ↦ (j, sym (at-swap_left i j es hi hj) ∙ ap (λ m. at m (swap i j es)) (sym e) ∙ h)
    | inr d ↦ elim (eq-cases k j) [
      | inl e ↦ (
        i,
        sym (at-swap_right i j es hi hj (λ q. d (e ∙ q)))
            ∙ ap (λ m. at m (swap i j es)) (sym e)
            ∙ h,
      )
      | inr d' ↦ (k, sym (at-swap_other i j es hi hj k d d') ∙ h)
    ]
  ]

module _ (x : EventLog) where
  up-Held : (f j : ℕ) (es : List EventLog) → j < length es → Held es x → Held (up f j es) x
  unfolding up
  up-Held zero j es h m = m
  up-Held (suc f) j es h m = elim (Bool-cases (parent j == j || not (less_at es j (parent j)))) [
    | inl s ↦ rw s m
    | inr s ↦
        let same = length-swap (parent j) j es (omega arith) h in
        rw s (
          up-Held f (parent j) (swap (parent j) j es)
            (subst (λ n. parent j < n) (sym same) (omega arith))
            (swap-Held (parent j) j es (omega arith) h x m))
  ]

  of_up : (f j : ℕ) (es : List EventLog) → j < length es → Held (up f j es) x → Held es x
  unfolding up
  of_up zero j es h m = m
  of_up (suc f) j es h m = elim (Bool-cases (parent j == j || not (less_at es j (parent j)))) [
    | inl s ↦ (rw s at m)
    | inr s ↦
        let same = length-swap (parent j) j es (omega arith) h in
        of_swap (parent j) j es (omega arith) h x (
          of_up f (parent j) (swap (parent j) j es)
            (subst (λ n. parent j < n) (sym same) (omega arith)) (rw s at m))
  ]

  long_enough : (e : EventLog) (es : List EventLog) → length es < length (es ++ e ∷ [])
  long_enough e es = let l = length-append es (e ∷ []) in omega (arith, l)

  pub insert-Held : (e : EventLog) (es : List EventLog) → Held es x → Held (insert e es) x
  unfolding insert
  insert-Held e es (k, h) =
      up-Held (length es + 1) (length es) (es ++ e ∷ []) (long_enough e es)
        (k, append-Held k es e x h)

  pub of_insert : (e : EventLog) (es : List EventLog) → Held (insert e es) x → (x ≡ e) ⊎ Held es x
  unfolding insert
  of_insert e es m =
      let (k, h) = of_up (length es + 1) (length es) (es ++ e ∷ []) (long_enough e es) m in
      of_append k es e x h

pub insert-Held_own : (e : EventLog) (es : List EventLog) → Held (insert e es) e
unfolding insert
insert-Held_own e es =
    up-Held e (length es + 1) (length es) (es ++ e ∷ []) (long_enough e e es)
      (length es, last-Held es e)
