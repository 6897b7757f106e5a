-- ===== src/SqlBuilder/Clauses.antt =====
-- BuildUpdate: the columns that are present, numbered in order, and parted by key.
use mathlib.Core.List.{append_assoc, append-nil}
use vault_indexer.Prelude.{
  Text, ℕ, ◌+◌, ◌≡◌, refl, true, false, List, [], ◌∷◌, ◌++◌, map, subst, Result, ok, err, ◌>>=◌,
  text, if◌then◌else◌, Bool-cases, inl, inr, ap, ◌∙◌, sym, arith, length,
}
use vault_indexer.SqlBuilder.{
  Scalar, Field, Any, to_db_value, fields_of, is_skipped, member, Statement, equation,
  UpdateClauses, no_clauses, add_where, add_set, update_loop, finish_update, update_query,
  build_update,
}
use vault_indexer.SqlBuilder.Numbered.{Bound, present, every, prepend, prepend-bind, value-cases}

-- The bound columns that are keys, and those that are not.
abbrev pub keyed : List Text → List Bound → List Bound
keyed keys [] = []
keyed keys (b ∷ bs) = if member keys b.column then b ∷ keyed keys bs else keyed keys bs

abbrev pub unkeyed : List Text → List Bound → List Bound
unkeyed keys [] = []
unkeyed keys (b ∷ bs) = if member keys b.column then unkeyed keys bs else b ∷ unkeyed keys bs

abbrev pub clauses_of : List Bound → List Text
clauses_of bs = map (λ b. equation b.column b.number) bs

unfoldable pub extend : List Text → UpdateClauses → List Bound → UpdateClauses
extend keys c bs = record {
  set_clauses = c.set_clauses ++ clauses_of (unkeyed keys bs);
  where_clauses = c.where_clauses ++ clauses_of (keyed keys bs);
  args = c.args ++ map (λ b. b.arg) bs;
  arg_index = c.arg_index + length bs;
}

pub extend-nil : (keys : List Text) (c : UpdateClauses) → extend keys c [] ≡ c
unfolding extend
extend-nil keys c =
    ground (arith, append-nil c.set_clauses, append-nil c.where_clauses, append-nil c.args)

module _ (keys : List Text) (c : UpdateClauses) (column : Text) (arg : Scalar) where
  abbrev bound : Bound
  bound = record { column = column; arg = arg; number = c.arg_index }

  pub extend-where :
      member keys column ≡ true
      → (bs : List Bound) → extend keys (add_where column arg c) bs ≡ extend keys c (bound ∷ bs)
  unfolding extend add_where
  extend-where e bs = rw e (
      ground (
        arith,
        append_assoc c.where_clauses (equation column c.arg_index ∷ [])
            (clauses_of (keyed keys bs)),
        append_assoc c.args (arg ∷ []) (map (λ (b : Bound). b.arg) bs),
      ))

  extend-set :
      member keys column ≡ false
      → (bs : List Bound) → extend keys (add_set column arg c) bs ≡ extend keys c (bound ∷ bs)
  unfolding extend add_set
  extend-set e bs = rw e (
      ground (
        arith,
        append_assoc c.set_clauses (equation column c.arg_index ∷ [])
            (clauses_of (unkeyed keys bs)),
        append_assoc c.args (arg ∷ []) (map (λ (b : Bound). b.arg) bs),
      ))

  -- A round that binds the column, and the rounds behind it.
  pub bind_round :
      (rest : ℕ → Result (List Bound)) (loop : Result UpdateClauses) (c' : UpdateClauses)
      → c'.arg_index ≡ c.arg_index + 1
      → ((bs : List Bound) → extend keys c' bs ≡ extend keys c (bound ∷ bs))
      → loop ≡ (rest c'.arg_index >>= λ bs. ok (extend keys c' bs))
      → loop ≡ (prepend bound (rest (c.arg_index + 1)) >>= λ bs. ok (extend keys c bs))
  bind_round rest loop c' next same ih =
      subst (λ j. loop ≡ (rest j >>= λ bs. ok (extend keys c' bs))) next ih
      ∙ prepend-bind bound (extend keys c) (extend keys c') same (rest (c.arg_index + 1))

pub add_where-index :
    (column : Text) (arg : Scalar) (c : UpdateClauses)
    → (add_where column arg c).arg_index ≡ c.arg_index + 1
unfolding add_where
add_where-index column arg c = refl

add_set-index :
    (column : Text) (arg : Scalar) (c : UpdateClauses)
    → (add_set column arg c).arg_index ≡ c.arg_index + 1
unfolding add_set
add_set-index column arg c = refl

update_loop-present :
    (keys : List Text) (fs : List Field) (c : UpdateClauses)
    → update_loop keys fs c ≡ (present every fs c.arg_index >>= λ bs. ok (extend keys c bs))
unfolding update_loop present
update_loop-present keys [] c = ap ok (sym (extend-nil keys c))
update_loop-present keys (f ∷ fs) c = elim (Bool-cases (is_skipped f.column)) [
  | inl e ↦ rw e (update_loop-present keys fs c)
  | inr e ↦ elim (value-cases (to_db_value f.cell)) [
    | inl v ↦ rw (e, v) (update_loop-present keys fs c)
    | inr (inl (a, v)) ↦ elim (Bool-cases (member keys f.column)) [
      | inl k ↦
          rw (e, v, k)
            (bind_round keys c f.column a (present every fs) _ (add_where f.column a c)
              (add_where-index f.column a c) (extend-where keys c f.column a k)
              (update_loop-present keys fs (add_where f.column a c)))
      | inr k ↦
          rw (e, v, k)
            (bind_round keys c f.column a (present every fs) _ (add_set f.column a c)
              (add_set-index f.column a c) (extend-set keys c f.column a k)
              (update_loop-present keys fs (add_set f.column a c)))
    ]
    | inr (inr (m, v)) ↦ rw (e, v) refl
  ]
]

-- The statement of BuildUpdate: the columns that are no keys are set, those that are keys select the
-- rows, and each placeholder has the number of its argument.
abbrev pub update_of : Text → List Bound → List Bound → List Bound → Result Statement
update_of table [] wheres bs = err (text "no fields to update")
update_of table (s ∷ sets) [] bs = err (text "no WHERE condition provided")
update_of table (s ∷ sets) (w ∷ wheres) bs = ok (record {
  query = update_query table (clauses_of (s ∷ sets)) (clauses_of (w ∷ wheres));
  args = map (λ b. b.arg) bs;
})

update_parts :
    (table : Text) (sets wheres bs : List Bound) (n : ℕ)
    → finish_update table (record {
      set_clauses = clauses_of sets;
      where_clauses = clauses_of wheres;
      args = map (λ b. b.arg) bs;
      arg_index = n;
    })
      ≡ update_of table sets wheres bs
unfolding finish_update
update_parts table [] wheres bs n = refl
update_parts table (s ∷ sets) [] bs n = refl
update_parts table (s ∷ sets) (w ∷ wheres) bs n = refl

-- BuildUpdate is the statement of the present columns, numbered from 1 and parted by key; an error of
-- a value, of a value that is no struct, and of missing SET or WHERE columns is returned.
pub build_update_correct :
    (table : Text) (s : Any) (keys : List Text)
    → build_update table s keys ≡ (
        fields_of s >>= λ fs.
        present every fs 1 >>= λ bs. update_of table (unkeyed keys bs) (keyed keys bs) bs)
unfolding build_update extend
build_update_correct table s keys = of_fields (fields_of s)
  where
    of_bound :
        (r : Result (List Bound))
        → ((r >>= λ bs. ok (extend keys no_clauses bs)) >>= λ c. finish_update table c)
          ≡ (r >>= λ bs. update_of table (unkeyed keys bs) (keyed keys bs) bs)
    of_bound (ok bs) = (update_parts table (unkeyed keys bs) (keyed keys bs) bs (1 + length bs))
    of_bound (err e) = refl

    of_fields :
        (r : Result (List Field))
        → (r >>= λ fs. update_loop keys fs no_clauses >>= λ c. finish_update table c) ≡ (
            r >>= λ fs.
            present every fs 1 >>= λ bs. update_of table (unkeyed keys bs) (keyed keys bs) bs)
    of_fields (ok fs) = rw (update_loop-present keys fs no_clauses) (of_bound (present every fs 1))
    of_fields (err e) = refl
