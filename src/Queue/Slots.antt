-- ===== src/Queue/Slots.antt =====
-- What stands at an index after a swap.
use vault_indexer.Prelude.{
  ℕ, zero, suc, ◌<◌, ◌≡◌, ◌≢◌, refl, sym, subst, ap, ◌∙◌, some, List, [], ◌∷◌, length, arith,
}
use vault_indexer.Queue.{EventLog, at, set, swap}

pub at-set_same :
    (i : ℕ) (x : EventLog) (es : List EventLog) → i < length es → at i (set i x es) ≡ some x
unfolding at set
at-set_same i x [] h = absurd (omega arith)
at-set_same zero x (e ∷ es) h = refl
at-set_same (suc i) x (e ∷ es) h = at-set_same i x es (omega arith)

pub at-set_other :
    (i k : ℕ) (x : EventLog) (es : List EventLog) → k ≢ i → at k (set i x es) ≡ at k es
unfolding at set
at-set_other i k x [] h = refl
at-set_other zero zero x (e ∷ es) h = absurd (h refl)
at-set_other zero (suc k) x (e ∷ es) h = refl
at-set_other (suc i) zero x (e ∷ es) h = refl
at-set_other (suc i) (suc k) x (e ∷ es) h = at-set_other i k x es (λ p. h (ap suc p))

length-set : (i : ℕ) (x : EventLog) (es : List EventLog) → length (set i x es) ≡ length es
unfolding set
length-set i x [] = refl
length-set zero x (e ∷ es) = refl
length-set (suc i) x (e ∷ es) = ap suc (length-set i x es)

-- An index in range has an event.
pub in_range : (i : ℕ) (es : List EventLog) → i < length es → (e : EventLog) × (at i es ≡ some e)
unfolding at
in_range i [] h = absurd (omega arith)
in_range zero (e ∷ es) h = (e, refl)
in_range (suc i) (e ∷ es) h = in_range i es (omega arith)

module _ (i j : ℕ) (es : List EventLog) (a b : EventLog) (ha : at i es ≡ some a)
    (hb : at j es ≡ some b) where
  swapped : swap i j es ≡ set i b (set j a es)
  unfolding swap
  swapped = rw (ha, hb) refl

-- A swap of two indices in range.
module _ (i j : ℕ) (es : List EventLog) (hi : i < length es) (hj : j < length es) where
  pub swapped_as :
      (a b : EventLog) × (at i es ≡ some a)
      × (at j es ≡ some b)
      × (swap i j es ≡ set i b (set j a es))
  swapped_as =
      let (a, ha) = in_range i es hi in
      let (b, hb) = in_range j es hj in (a, b, ha, hb, swapped i j es a b ha hb)

  pub at-swap_left : at i (swap i j es) ≡ at j es
  at-swap_left =
      let (a, b, ha, hb, e) = swapped_as in
      ap (at i) e
      ∙ at-set_same i b (set j a es) (subst (λ n. i < n) (sym (length-set j a es)) hi)
      ∙ sym hb

  pub at-swap_right : j ≢ i → at j (swap i j es) ≡ at i es
  at-swap_right d =
      let (a, b, ha, hb, e) = swapped_as in
      ap (at j) e ∙ at-set_other i j b (set j a es) d ∙ at-set_same j a es hj ∙ sym ha

  pub at-swap_other : (k : ℕ) → k ≢ i → k ≢ j → at k (swap i j es) ≡ at k es
  at-swap_other k ki kj =
      let (a, b, ha, hb, e) = swapped_as in
      ap (at k) e ∙ at-set_other i k b (set j a es) ki ∙ at-set_other j k a es kj

  pub length-swap : length (swap i j es) ≡ length es
  length-swap =
      let (a, b, ha, hb, e) = swapped_as in
      ap length e ∙ length-set i b (set j a es) ∙ length-set j a es
