-- ===== src/SqlBuilder/Numbered.antt =====
-- The three builders against one description: the columns that are present, numbered in order.
use mathlib.Core.List.{append_assoc, append-nil}
use vault_indexer.Prelude.{
  Text, ℕ, ◌+◌, ◌≡◌, refl, Bool, true, ◌&&◌, not, Option, none, some, List, [], ◌∷◌, ◌++◌, map,
  Result, ok, err, ◌>>=◌, text, if◌then◌else◌, Bool-cases, inl, inr, ap, ◌∙◌, sym, arith, length,
  ◌⊎◌,
}
use vault_indexer.SqlBuilder.{
  Scalar, Field, Any, to_db_value, fields_of, is_skipped, Statement, placeholder, Columns,
  insert_loop, finish_insert, insert_query, build_insert, no_columns,
}

-- A column that goes into the statement, with the number of its placeholder.
pub record Bound : Type 0 where
  pub column : Text
  pub arg : Scalar
  pub number : ℕ

abbrev pub prepend : Bound → Result (List Bound) → Result (List Bound)
prepend b r = r >>= λ bs. ok (b ∷ bs)

abbrev bind_value :
    Field → ℕ → (ℕ → Result (List Bound)) → Result (Option Scalar) → Result (List Bound)
bind_value f i rest (err e) = err e
bind_value f i rest (ok none) = rest i
bind_value f i rest (ok (some arg)) =
    prepend (record { column = f.column; arg = arg; number = i }) (rest (i + 1))

-- The columns that are wanted and present, numbered from `i`.
unfoldable pub present : (Text → Bool) → List Field → ℕ → Result (List Bound)
present wanted [] i = ok []
present wanted (f ∷ fs) i =
    if not (is_skipped f.column) && wanted f.column
    then bind_value f i (present wanted fs) (to_db_value f.cell)
    else present wanted fs i

abbrev pub every : Text → Bool
every column = true

pub value-cases :
    (r : Result (Option Scalar))
    → (r ≡ ok none) ⊎ ((a : Scalar) × (r ≡ ok (some a))) ⊎ ((e : Text) × (r ≡ err e))
value-cases (ok none) = inl refl
value-cases (ok (some a)) = inr (inl (a, refl))
value-cases (err e) = inr (inr (e, refl))

extend : Columns → List Bound → Columns
extend c bs = record {
  columns = c.columns ++ map (λ b. b.column) bs;
  placeholders = c.placeholders ++ map (λ b. placeholder b.number) bs;
  args = c.args ++ map (λ b. b.arg) bs;
  arg_index = c.arg_index + length bs;
}

abbrev add_column : Columns → Text → Scalar → Columns
add_column c column arg = record {
  columns = c.columns ++ column ∷ [];
  placeholders = c.placeholders ++ placeholder c.arg_index ∷ [];
  args = c.args ++ arg ∷ [];
  arg_index = c.arg_index + 1;
}

extend-nil : (c : Columns) → extend c [] ≡ c
unfolding extend
extend-nil c = ground (arith, append-nil c.columns, append-nil c.placeholders, append-nil c.args)

extend-cons :
    (c : Columns) (column : Text) (arg : Scalar) (bs : List Bound)
    → extend (add_column c column arg) bs
      ≡ extend c (record { column = column; arg = arg; number = c.arg_index } ∷ bs)
unfolding extend
extend-cons c column arg bs = ground (
  arith,
  append_assoc c.columns (column ∷ []) (map (λ (b : Bound). b.column) bs),
  append_assoc c.placeholders (placeholder c.arg_index ∷ [])
      (map (λ (b : Bound). placeholder b.number) bs),
  append_assoc c.args (arg ∷ []) (map (λ (b : Bound). b.arg) bs),
)

-- The rounds that are left go through the same columns, behind the one that was bound.
module _ {C : Type 0} (b : Bound) (before after : List Bound → C)
    (same : (bs : List Bound) → after bs ≡ before (b ∷ bs)) where
  pub prepend-bind :
      (r : Result (List Bound))
      → (r >>= λ bs. ok (after bs)) ≡ (prepend b r >>= λ bs. ok (before bs))
  prepend-bind (ok bs) = ap ok (same bs)
  prepend-bind (err e) = refl

insert_loop-present :
    (fs : List Field) (c : Columns)
    → insert_loop fs c ≡ (present every fs c.arg_index >>= λ bs. ok (extend c bs))
unfolding insert_loop present
insert_loop-present [] c = ap ok (sym (extend-nil c))
insert_loop-present (f ∷ fs) c = elim (Bool-cases (is_skipped f.column)) [
  | inl e ↦ rw e (insert_loop-present fs c)
  | inr e ↦ elim (value-cases (to_db_value f.cell)) [
    | inl v ↦ rw (e, v) (insert_loop-present fs c)
    | inr (inl (a, v)) ↦
        rw (e, v)
          (insert_loop-present fs (add_column c f.column a)
            ∙ prepend-bind _ (extend c) (extend (add_column c f.column a))
                (extend-cons c f.column a) (present every fs (c.arg_index + 1)))
    | inr (inr (m, v)) ↦ rw (e, v) refl
  ]
]

-- The statement of BuildInsert: the present columns in order, each with its own placeholder and,
-- at that place among the arguments, its value.
abbrev pub insert_of : Text → List Bound → Result Statement
insert_of table [] = err (text "no fields to insert")
insert_of table (b ∷ bs) = ok (record {
  query =
      insert_query table (map (λ b. b.column) (b ∷ bs)) (map (λ b. placeholder b.number) (b ∷ bs));
  args = map (λ b. b.arg) (b ∷ bs);
})

finish_insert-extend :
    (table : Text) (r : Result (List Bound))
    → ((r >>= λ bs. ok (extend no_columns bs)) >>= λ c. finish_insert table c)
      ≡ (r >>= insert_of table)
unfolding finish_insert extend
finish_insert-extend table (ok []) = refl
finish_insert-extend table (ok (b ∷ bs)) = refl
finish_insert-extend table (err e) = refl

-- BuildInsert is the statement of the present columns, numbered from 1; an error of a value, of a
-- value that is no struct, and of a struct without a present column is returned.
pub build_insert_correct :
    (table : Text) (s : Any)
    → build_insert table s ≡ (fields_of s >>= λ fs. present every fs 1 >>= insert_of table)
unfolding build_insert
build_insert_correct table s = of_fields (fields_of s)
  where
    of_fields :
        (r : Result (List Field))
        → (r >>= λ fs. insert_loop fs no_columns >>= λ c. finish_insert table c)
          ≡ (r >>= λ fs. present every fs 1 >>= insert_of table)
    of_fields (ok fs) =
        rw (insert_loop-present fs no_columns) (finish_insert-extend table (present every fs 1))
    of_fields (err e) = refl
