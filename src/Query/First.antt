-- ===== src/Query/First.antt =====
-- The answer to a query for one row, the first in the order of an integer column.
use vault_indexer.Prelude.{
  Text, ℤ, ◌≡◌, subst, Bool, true, false, Option, some, List, [], ◌∷◌, All, All_of, Any, ◌⊎◌, inl,
  inr, arith,
}
use vault_indexer.Query.{Query, Filter}
use vault_indexer.Query.Answers.{Selected, Precedes, Directed, AnswersOf}

reflexive : (b : Bool) (z : ℤ) → Directed b z z
reflexive true z = ground arith
reflexive false z = ground arith

module _ {Row : Type 0} (named : Text → Row → Option Text) (integer : Text → Row → Option ℤ)
    (table_name columns column : Text) (filters : List Filter) (ascending single : Bool) where
  abbrev first_query : Query
  first_query = record {
    table = table_name;
    columns = columns;
    filters = filters;
    order = some (column, ascending);
    limit = some 1;
    single = single;
  }

  -- No row is selected if the answer has none.
  pub no_row :
      (table : List Row)
      → AnswersOf named integer first_query table []
      → All (λ r. ¬ (Selected named integer first_query r)) table
  no_row table a = All_of (λ r h s. nowhere (h s)) table a.complete
    where
      nowhere : ⊥ ⊎ (⊥ × Unit {0}) → ⊥
      nowhere (inl a) = a
      nowhere (inr a) = a.0

  module _ (number : Row → ℤ) (reads : (r : Row) → integer column r ≡ some (number r)) where
    in_order :
        (p r : Row)
        → ((p ≡ r) ⊎ ⊥)
          ⊎ (Unit {0} × (Precedes named integer (some (column, ascending)) p r × Unit {0}))
        → Directed ascending (number p) (number r)
    in_order p r (inl (inl e)) =
        subst (λ q. Directed ascending (number p) (number q)) e (reflexive ascending (number p))
    in_order p r (inl (inr a)) = absurd a
    in_order p r (inr (u, (h, v))) = h (number p) (number r) (reads p) (reads r)

    -- Else its first row is a selected row of the table, and no selected row comes before it.
    pub first_row :
        (table ps : List Row) (p : Row)
        → AnswersOf named integer first_query table (p ∷ ps)
        → Any (λ q. q ≡ p) table
          × Selected named integer first_query p
          × All
              (λ r. Selected named integer first_query r → Directed ascending (number p) (number r))
              table
    first_row table [] p a =
        (a.selected.0.0, a.selected.0.1, All_of (λ r h s. in_order p r (h s)) table a.complete)
    first_row table (q ∷ ps) p a = absurd a.within
