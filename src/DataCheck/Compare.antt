-- ===== src/DataCheck/Compare.antt =====
-- The comparisons find no difference exactly where the compared columns of all rows agree.
use vault_indexer.Prelude.{
  ℕ, suc, ◌==◌, ◌≡◌, ◌↔◌, refl, ap, Bool, true, none, some, List, [], ◌∷◌, length, map, Bool-cases,
  inl, inr, arith,
}
use vault_indexer.DataCheck.{
  Table, events_table, rate_updates_table, withdraw_requests_table, positions_table, events,
  rate_updates, withdraw_requests, positions, compare_fn, Rows, input_types, compare_loop,
  compare_slices, same_event, same_rate_update, same_withdraw_request, same_position,
  compare_events, compare_rate_updates, compare_withdraw_requests, compare_positions,
}
use vault_indexer.DataCheck.Columns.{
  event_columns, rate_update_columns, withdraw_request_columns, position_columns, Compares,
  events-Compares, rate_updates-Compares, withdraw_requests-Compares, positions-Compares,
}

abbrev head_or : {A : Type 0} → A → List A → A
head_or d [] = d
head_or d (x ∷ xs) = x

abbrev tail : {A : Type 0} → List A → List A
tail [] = []
tail (x ∷ xs) = xs

module _ {A V : Type 0} (columns : A → V) (same : A → A → Bool)
    (compares : Compares columns same) where
  loop→eq :
      (i : ℕ) (l r : List A)
      → length l ≡ length r
      → compare_loop same i l r ≡ none
      → map columns l ≡ map columns r
  unfolding compare_loop
  loop→eq i [] [] n h = refl
  loop→eq i [] (b ∷ r) n h = absurd (omega arith)
  loop→eq i (a ∷ l) [] n h = absurd (omega arith)
  loop→eq i (a ∷ l) (b ∷ r) n h = elim (Bool-cases (same a b)) [
    | inl e ↦
        let rest = loop→eq (suc i) l r (omega arith) (rw e at h) in
        let first = compares.agree a b e in λ k. first k ∷ rest k
    | inr e ↦ absurd (ground arith)
  ]

  eq→loop :
      (i : ℕ) (l r : List A)
      → map columns l ≡ map columns r
      → (length l ≡ length r) × (compare_loop same i l r ≡ none)
  unfolding compare_loop
  eq→loop i [] [] h = (refl, refl)
  eq→loop i [] (b ∷ r) h = absurd (ground arith)
  eq→loop i (a ∷ l) [] h = absurd (ground arith)
  eq→loop i (a ∷ l) (b ∷ r) h =
      let e = compares.accepts a b (ap (λ xs. head_or (columns a) xs) h) in
      let (n, rest) = eq→loop (suc i) l r (ap tail h) in (ap suc n, rw e rest)

  slices_correct :
      (l r : List A) → (compare_slices same l r ≡ none) ↔ (map columns l ≡ map columns r)
  slices_correct l r = (λ h. forward h, λ h. backward h)
    where
      forward : compare_slices same l r ≡ none → map columns l ≡ map columns r
      forward h = elim (Bool-cases (length l == length r)) [
        | inl e ↦ loop→eq 0 l r (ground arith) (rw e at h)
        | inr e ↦ absurd (ground arith)
      ]

      backward : map columns l ≡ map columns r → compare_slices same l r ≡ none
      backward h =
          let (n, rest) = eq→loop 0 l r h in
          let e : (length l == length r) ≡ true = ground arith in rw e rest

-- The rows are of the table, and agree in the compared columns, one by one.
abbrev pub Agree : Table → Rows → Rows → Type 0
Agree events_table (events l) (events r) = map event_columns l ≡ map event_columns r
Agree rate_updates_table (rate_updates l) (rate_updates r) =
    map rate_update_columns l ≡ map rate_update_columns r
Agree withdraw_requests_table (withdraw_requests l) (withdraw_requests r) =
    map withdraw_request_columns l ≡ map withdraw_request_columns r
Agree positions_table (positions l) (positions r) = map position_columns l ≡ map position_columns r
Agree _ _ _ = ⊥

refused : (some input_types ≡ none) ↔ ⊥
refused = (λ h. ground arith, λ h. absurd h)

-- A CompareFn finds no difference exactly if the rows are of its table and agree, one by one, in the columns
-- that it compares: of a withdraw request the owner is not among them.
pub compare_fn_correct : (t : Table) (l r : Rows) → (compare_fn t l r ≡ none) ↔ Agree t l r
unfolding compare_events compare_rate_updates compare_withdraw_requests compare_positions
compare_fn_correct events_table (events l) (events r) =
    slices_correct event_columns same_event events-Compares l r
compare_fn_correct rate_updates_table (rate_updates l) (rate_updates r) =
    slices_correct rate_update_columns same_rate_update rate_updates-Compares l r
compare_fn_correct withdraw_requests_table (withdraw_requests l) (withdraw_requests r) =
    slices_correct withdraw_request_columns same_withdraw_request withdraw_requests-Compares l r
compare_fn_correct positions_table (positions l) (positions r) =
    slices_correct position_columns same_position positions-Compares l r
compare_fn_correct events_table (events l) (rate_updates r) = refused
compare_fn_correct events_table (events l) (withdraw_requests r) = refused
compare_fn_correct events_table (events l) (positions r) = refused
compare_fn_correct events_table (rate_updates l) (events r) = refused
compare_fn_correct events_table (rate_updates l) (rate_updates r) = refused
compare_fn_correct events_table (rate_updates l) (withdraw_requests r) = refused
compare_fn_correct events_table (rate_updates l) (positions r) = refused
compare_fn_correct events_table (withdraw_requests l) (events r) = refused
compare_fn_correct events_table (withdraw_requests l) (rate_updates r) = refused
compare_fn_correct events_table (withdraw_requests l) (withdraw_requests r) = refused
compare_fn_correct events_table (withdraw_requests l) (positions r) = refused
compare_fn_correct events_table (positions l) (events r) = refused
compare_fn_correct events_table (positions l) (rate_updates r) = refused
compare_fn_correct events_table (positions l) (withdraw_requests r) = refused
compare_fn_correct events_table (positions l) (positions r) = refused
compare_fn_correct rate_updates_table (events l) (events r) = refused
compare_fn_correct rate_updates_table (events l) (rate_updates r) = refused
compare_fn_correct rate_updates_table (events l) (withdraw_requests r) = refused
compare_fn_correct rate_updates_table (events l) (positions r) = refused
compare_fn_correct rate_updates_table (rate_updates l) (events r) = refused
compare_fn_correct rate_updates_table (rate_updates l) (withdraw_requests r) = refused
compare_fn_correct rate_updates_table (rate_updates l) (positions r) = refused
compare_fn_correct rate_updates_table (withdraw_requests l) (events r) = refused
compare_fn_correct rate_updates_table (withdraw_requests l) (rate_updates r) = refused
compare_fn_correct rate_updates_table (withdraw_requests l) (withdraw_requests r) = refused
compare_fn_correct rate_updates_table (withdraw_requests l) (positions r) = refused
compare_fn_correct rate_updates_table (positions l) (events r) = refused
compare_fn_correct rate_updates_table (positions l) (rate_updates r) = refused
compare_fn_correct rate_updates_table (positions l) (withdraw_requests r) = refused
compare_fn_correct rate_updates_table (positions l) (positions r) = refused
compare_fn_correct withdraw_requests_table (events l) (events r) = refused
compare_fn_correct withdraw_requests_table (events l) (rate_updates r) = refused
compare_fn_correct withdraw_requests_table (events l) (withdraw_requests r) = refused
compare_fn_correct withdraw_requests_table (events l) (positions r) = refused
compare_fn_correct withdraw_requests_table (rate_updates l) (events r) = refused
compare_fn_correct withdraw_requests_table (rate_updates l) (rate_updates r) = refused
compare_fn_correct withdraw_requests_table (rate_updates l) (withdraw_requests r) = refused
compare_fn_correct withdraw_requests_table (rate_updates l) (positions r) = refused
compare_fn_correct withdraw_requests_table (withdraw_requests l) (events r) = refused
compare_fn_correct withdraw_requests_table (withdraw_requests l) (rate_updates r) = refused
compare_fn_correct withdraw_requests_table (withdraw_requests l) (positions r) = refused
compare_fn_correct withdraw_requests_table (positions l) (events r) = refused
compare_fn_correct withdraw_requests_table (positions l) (rate_updates r) = refused
compare_fn_correct withdraw_requests_table (positions l) (withdraw_requests r) = refused
compare_fn_correct withdraw_requests_table (positions l) (positions r) = refused
compare_fn_correct positions_table (events l) (events r) = refused
compare_fn_correct positions_table (events l) (rate_updates r) = refused
compare_fn_correct positions_table (events l) (withdraw_requests r) = refused
compare_fn_correct positions_table (events l) (positions r) = refused
compare_fn_correct positions_table (rate_updates l) (events r) = refused
compare_fn_correct positions_table (rate_updates l) (rate_updates r) = refused
compare_fn_correct positions_table (rate_updates l) (withdraw_requests r) = refused
compare_fn_correct positions_table (rate_updates l) (positions r) = refused
compare_fn_correct positions_table (withdraw_requests l) (events r) = refused
compare_fn_correct positions_table (withdraw_requests l) (rate_updates r) = refused
compare_fn_correct positions_table (withdraw_requests l) (withdraw_requests r) = refused
compare_fn_correct positions_table (withdraw_requests l) (positions r) = refused
compare_fn_correct positions_table (positions l) (events r) = refused
compare_fn_correct positions_table (positions l) (rate_updates r) = refused
compare_fn_correct positions_table (positions l) (withdraw_requests r) = refused
