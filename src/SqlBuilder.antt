-- ===== src/SqlBuilder.antt =====
-- The SQL builder (go-indexer/dbutil/sql-builder.go). A value is what `reflect` shows of it; of a
-- struct inside a struct, that is what `json.Marshal` makes of it.
pub mod Numbered
pub mod Clauses
pub mod Deletes
pub mod Tests
pub mod Rows
use vault_indexer.Prelude.{
  Text, ℕ, ◌+◌, ℤ, Bool, true, false, ◌||◌, Option, none, some, List, [], ◌∷◌, ◌++◌, Result, ok,
  err, ◌>>=◌, text, eq_text, join, print_ℕ, if◌then◌else◌,
}

-- A value by its type; `dynamic` is what an `interface{}` holds of a further type, under the type's name.
pub data Scalar : Type 0 where
  string : Text → Scalar
  int64 : ℤ → Scalar
  bool : Bool → Scalar
  time : Text → Scalar
  bytes : Text → Scalar
  struct : Result Text → Scalar
  dynamic : Text → Scalar

-- A field's value: no value, nil, a pointer's target, or the value itself.
pub data Cell : Type 0 where
  invalid nil_pointer nil_interface : Cell
  pointer value : Scalar → Cell

pub record Field : Type 0 where
  pub column : Text
  pub cell : Cell

mutual
  pub data Any : Type 0 where
    struct : List Field → Any
    pointer : Any → Any
    slice : Items → Any
    other : Text → Any

  pub data Items : Type 0 where
    nil : Items
    cons : Any → Items → Items

-- `v.Interface()`, a struct as the text of its JSON.
interface_of : Scalar → Result (Option Scalar)
interface_of (Scalar.struct json) = json >>= λ s. ok (some (string s))
interface_of (string s) = ok (some (string s))
interface_of (int64 n) = ok (some (int64 n))
interface_of (bool b) = ok (some (bool b))
interface_of (time t) = ok (some (time t))
interface_of (Scalar.bytes s) = ok (some (Scalar.bytes s))
interface_of (dynamic kind) = ok (some (dynamic kind))

-- toDBValue: `none` is nil.
unfoldable pub to_db_value : Cell → Result (Option Scalar)
unfolding interface_of
to_db_value invalid = ok none
to_db_value nil_pointer = ok none
to_db_value nil_interface = ok none
to_db_value (Cell.pointer v) = interface_of v
to_db_value (value v) = interface_of v

elem : Any → Any
elem (Any.pointer v) = v
elem (Any.struct fs) = Any.struct fs
elem (slice vs) = slice vs
elem (other kind) = other kind

as_struct : Any → Result (List Field)
as_struct (Any.struct fs) = ok fs
as_struct (Any.pointer v) = err (text "expected struct or slice of structs, got ptr")
as_struct (slice vs) = err (text "expected struct or slice of structs, got slice")
as_struct (other kind) = err (text "expected struct or slice of structs, got " ++ kind)

-- The first element of a slice stands for it.
first_element : Any → Result (List Field)
unfolding elem as_struct
first_element (slice nil) = err (text "empty slice provided")
first_element (slice (cons v vs)) = as_struct (elem v)
first_element (Any.struct fs) = as_struct (Any.struct fs)
first_element (Any.pointer v) = as_struct (Any.pointer v)
first_element (other kind) = as_struct (other kind)

-- The struct that the three builders go through: a pointer is followed, and of a slice the first
-- element is taken.
unfoldable pub fields_of : Any → Result (List Field)
unfolding elem first_element
fields_of s = first_element (elem s)

unfoldable pub is_skipped : Text → Bool
is_skipped column = eq_text column (text "-") || eq_text column []

unfoldable pub member : List Text → Text → Bool
member [] column = false
member (key ∷ keys) column = eq_text key column || member keys column

pub record Statement : Type 0 where
  pub query : Text
  pub args : List Scalar

-- `$1`, `$2`, …
unfoldable pub placeholder : ℕ → Text
placeholder i = text "$" ++ print_ℕ i

unfoldable pub equation : Text → ℕ → Text
unfolding placeholder
equation column i = column ++ text " = " ++ placeholder i

pub record Columns : Type 0 where
  pub columns : List Text
  pub placeholders : List Text
  pub args : List Scalar
  pub arg_index : ℕ

-- One round of the loop of BuildInsert.
insert_field : Field → Columns → Result Columns
insert_field f c =
    if is_skipped f.column
    then ok c
    else (to_db_value f.cell >>= λ v. elim v [
      | none ↦ ok c
      | some arg ↦ ok (record {
        columns = c.columns ++ f.column ∷ [];
        placeholders = c.placeholders ++ placeholder c.arg_index ∷ [];
        args = c.args ++ arg ∷ [];
        arg_index = c.arg_index + 1;
      })
    ])

insert_loop : List Field → Columns → Result Columns
unfolding insert_field
insert_loop [] c = ok c
insert_loop (f ∷ fs) c = insert_field f c >>= insert_loop fs

abbrev comma : Text
comma = text ", "

unfoldable pub insert_query : Text → List Text → List Text → Text
insert_query table columns placeholders =
    text "INSERT INTO "
    ++ table
    ++ text " ("
    ++ join comma columns
    ++ text ") VALUES ("
    ++ join comma placeholders
    ++ text ")"

finish_insert : Text → Columns → Result Statement
finish_insert table c = elim c.columns [
  | [] ↦ err (text "no fields to insert")
  | _ ∷ _ ↦ ok (record { query = insert_query table c.columns c.placeholders; args = c.args })
]

abbrev pub no_columns : Columns
no_columns = record { columns = []; placeholders = []; args = []; arg_index = 1 }

unfoldable pub build_insert : Text → Any → Result Statement
unfolding insert_loop finish_insert
build_insert table s =
    fields_of s >>= λ fs. insert_loop fs no_columns >>= λ c. finish_insert table c

pub record UpdateClauses : Type 0 where
  pub set_clauses : List Text
  pub where_clauses : List Text
  pub args : List Scalar
  pub arg_index : ℕ

abbrev pub no_clauses : UpdateClauses
no_clauses = record { set_clauses = []; where_clauses = []; args = []; arg_index = 1 }

unfoldable pub add_where : Text → Scalar → UpdateClauses → UpdateClauses
add_where column arg c = record c {
  where_clauses = c.where_clauses ++ equation column c.arg_index ∷ [];
  args = c.args ++ arg ∷ [];
  arg_index = c.arg_index + 1;
}

unfoldable pub add_set : Text → Scalar → UpdateClauses → UpdateClauses
add_set column arg c = record c {
  set_clauses = c.set_clauses ++ equation column c.arg_index ∷ [];
  args = c.args ++ arg ∷ [];
  arg_index = c.arg_index + 1;
}

-- One round of the loop of BuildUpdate.
update_field : List Text → Field → UpdateClauses → Result UpdateClauses
update_field keys f c =
    if is_skipped f.column
    then ok c
    else (to_db_value f.cell >>= λ v. elim v [
      | none ↦ ok c
      | some arg ↦
          ok (if member keys f.column then add_where f.column arg c else add_set f.column arg c)
    ])

update_loop : List Text → List Field → UpdateClauses → Result UpdateClauses
unfolding update_field
update_loop keys [] c = ok c
update_loop keys (f ∷ fs) c = update_field keys f c >>= update_loop keys fs

unfoldable pub update_query : Text → List Text → List Text → Text
update_query table set_clauses where_clauses =
    text "UPDATE "
    ++ table
    ++ text " SET "
    ++ join comma set_clauses
    ++ text " WHERE "
    ++ join (text " AND ") where_clauses

finish_update : Text → UpdateClauses → Result Statement
finish_update table c = elim c.set_clauses [
  | [] ↦ err (text "no fields to update")
  | _ ∷ _ ↦ elim c.where_clauses [
    | [] ↦ err (text "no WHERE condition provided")
    | _ ∷ _ ↦
        ok (record { query = update_query table c.set_clauses c.where_clauses; args = c.args })
  ]
]

unfoldable pub build_update : Text → Any → List Text → Result Statement
unfolding update_loop finish_update
build_update table s keys =
    fields_of s >>= λ fs. update_loop keys fs no_clauses >>= λ c. finish_update table c
