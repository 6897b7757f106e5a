-- ===== src/SqlBuilder/Deletes.antt =====
-- BuildDelete: the key columns that are present, numbered in order.
use vault_indexer.Prelude.{
  if◌then◌else◌, ◌++◌, none, some, Text, ℕ, ◌+◌, ◌≡◌, refl, true, List, [], ◌∷◌, map, Result, ok,
  err, ◌>>=◌, text, Bool-cases, inl, inr, ap, sym, length,
}
use vault_indexer.SqlBuilder.{
  Field, Any, to_db_value, fields_of, is_skipped, member, Statement, UpdateClauses, no_clauses,
  add_where, join,
}
use vault_indexer.SqlBuilder.Numbered.{Bound, present, prepend, value-cases}
use vault_indexer.SqlBuilder.Clauses.{
  keyed, unkeyed, clauses_of, extend, extend-nil, extend-where, bind_round, add_where-index,
}

-- One round of the loop of BuildDelete, which passes over every column that is no key.
delete_field : List Text → Field → UpdateClauses → Result UpdateClauses
delete_field keys f c =
    if is_skipped f.column
    then ok c
    else if member keys f.column
    then (to_db_value f.cell >>= λ v. elim v [
      | none ↦ ok c
      | some arg ↦ ok (add_where f.column arg c)
    ])
    else ok c

delete_loop : List Text → List Field → UpdateClauses → Result UpdateClauses
unfolding delete_field
delete_loop keys [] c = ok c
delete_loop keys (f ∷ fs) c = delete_field keys f c >>= delete_loop keys fs

unfoldable pub delete_query : Text → List Text → Text
delete_query table where_clauses =
    text "DELETE FROM " ++ table ++ text " WHERE " ++ join (text " AND ") where_clauses

finish_delete : Text → UpdateClauses → Result Statement
finish_delete table c = elim c.where_clauses [
  | [] ↦ err (text "no WHERE condition provided")
  | _ ∷ _ ↦ ok (record { query = delete_query table c.where_clauses; args = c.args })
]

unfoldable pub build_delete : Text → Any → List Text → Result Statement
unfolding delete_loop finish_delete
build_delete table s keys =
    fields_of s >>= λ fs. delete_loop keys fs no_clauses >>= λ c. finish_delete table c

-- The statement of BuildDelete: the columns that are keys select the rows.
abbrev delete_of : Text → List Bound → Result Statement
delete_of table [] = err (text "no WHERE condition provided")
delete_of table (w ∷ wheres) = ok (record {
  query = delete_query table (clauses_of (w ∷ wheres));
  args = map (λ b. b.arg) (w ∷ wheres);
})

delete_loop-present :
    (keys : List Text) (fs : List Field) (c : UpdateClauses)
    → delete_loop keys fs c ≡ (present (member keys) fs c.arg_index >>= λ bs. ok (extend keys c bs))
unfolding delete_loop present
delete_loop-present keys [] c = ap ok (sym (extend-nil keys c))
delete_loop-present keys (f ∷ fs) c = elim (Bool-cases (is_skipped f.column)) [
  | inl e ↦ rw e (delete_loop-present keys fs c)
  | inr e ↦ elim (Bool-cases (member keys f.column)) [
    | inr k ↦ rw (e, k) (delete_loop-present keys fs c)
    | inl k ↦ elim (value-cases (to_db_value f.cell)) [
      | inl v ↦ rw (e, k, v) (delete_loop-present keys fs c)
      | inr (inl (a, v)) ↦
          rw (e, k, v)
            (bind_round keys c f.column a (present (member keys) fs) _ (add_where f.column a c)
              (add_where-index f.column a c) (extend-where keys c f.column a k)
              (delete_loop-present keys fs (add_where f.column a c)))
      | inr (inr (m, v)) ↦ rw (e, k, v) refl
    ]
  ]
]

delete_parts :
    (table : Text) (sets : List Text) (wheres : List Bound) (n : ℕ)
    → finish_delete table (record {
      set_clauses = sets;
      where_clauses = clauses_of wheres;
      args = map (λ b. b.arg) wheres;
      arg_index = n;
    })
      ≡ delete_of table wheres
unfolding finish_delete
delete_parts table sets [] n = refl
delete_parts table sets (w ∷ wheres) n = refl

keyed-prepend :
    (keys : List Text) (b : Bound)
    → member keys b.column ≡ true
    → (r : Result (List Bound)) → (r >>= λ bs. ok (keyed keys bs)) ≡ r
    → (prepend b r >>= λ bs. ok (keyed keys bs)) ≡ prepend b r
keyed-prepend keys b k (ok bs) h = let e : keyed keys bs ≡ bs = cc in rw (k, e) refl
keyed-prepend keys b k (err m) h = refl

-- The columns that BuildDelete looks at are all keys.
keyed-present :
    (keys : List Text) (fs : List Field) (i : ℕ)
    → (present (member keys) fs i >>= λ bs. ok (keyed keys bs)) ≡ present (member keys) fs i
unfolding present
keyed-present keys [] i = refl
keyed-present keys (f ∷ fs) i = elim (Bool-cases (is_skipped f.column)) [
  | inl e ↦ rw e (keyed-present keys fs i)
  | inr e ↦ elim (Bool-cases (member keys f.column)) [
    | inr k ↦ rw (e, k) (keyed-present keys fs i)
    | inl k ↦ elim (value-cases (to_db_value f.cell)) [
      | inl v ↦ rw (e, k, v) (keyed-present keys fs i)
      | inr (inl (a, v)) ↦
          rw (e, k, v)
            (keyed-prepend keys _ k (present (member keys) fs (i + 1))
              (keyed-present keys fs (i + 1)))
      | inr (inr (m, v)) ↦ rw (e, k, v) refl
    ]
  ]
]

-- BuildDelete is the statement of the present key columns, numbered from 1; an error of a key's value,
-- of a value that is no struct, and of missing key columns is returned.
build_delete_correct :
    (table : Text) (s : Any) (keys : List Text)
    → build_delete table s keys
      ≡ (fields_of s >>= λ fs. present (member keys) fs 1 >>= delete_of table)
unfolding build_delete extend
build_delete_correct table s keys = of_fields (fields_of s)
  where
    of_bound :
        (r : Result (List Bound))
        → (r >>= λ bs. ok (keyed keys bs)) ≡ r
        → ((r >>= λ bs. ok (extend keys no_clauses bs)) >>= λ c. finish_delete table c)
          ≡ (r >>= delete_of table)
    of_bound (ok bs) h =
        let e : keyed keys bs ≡ bs = cc in
        rw e (delete_parts table (clauses_of (unkeyed keys bs)) bs (1 + length bs))
    of_bound (err m) h = refl

    of_fields :
        (r : Result (List Field))
        → (r >>= λ fs. delete_loop keys fs no_clauses >>= λ c. finish_delete table c)
          ≡ (r >>= λ fs. present (member keys) fs 1 >>= delete_of table)
    of_fields (ok fs) =
        rw (delete_loop-present keys fs no_clauses)
          (of_bound (present (member keys) fs 1) (keyed-present keys fs 1))
    of_fields (err m) = refl
