-- ===== src/Query/Answers.antt =====
-- What the database answers to a query on one of its tables: the rows that satisfy the filters, in the order
-- and up to the limit that the query names. This is the documented behaviour of PostgREST.
use vault_indexer.Prelude.{
  Text, ℕ, zero, suc, ℤ, ◌≤ℤ◌, ◌<ℤ◌, ◌≡◌, Bool, true, false, Option, none, some, List, [], ◌∷◌, All,
  Any, ◌⊎◌, set_string,
}
use vault_indexer.Query.{Query, Filter, Reply, failed, malformed, body}

-- The order of two numbers, ascending or not.
abbrev pub Directed : Bool → ℤ → ℤ → Type 0
Directed true a b = a ≤ℤ b
Directed false a b = b ≤ℤ a

-- The columns of the table's rows by their names: those that are texts, and those that are integers.
module _ {Row : Type 0} (named : Text → Row → Option Text) (integer : Text → Row → Option ℤ) where
  -- A comparison of an integer column with a bound that is given as its text.
  abbrev Compared : (ℤ → ℤ → Type 0) → Text → Text → Row → Type 0
  Compared R column value p =
      (a : ℤ) × (b : ℤ) × (integer column p ≡ some a) × (set_string value ≡ some b) × R a b

  abbrev Satisfies : Filter → Row → Type 0
  Satisfies (Filter.eq column value) p = named column p ≡ some value
  Satisfies (Filter.gt column value) p = Compared (λ a b. b <ℤ a) column value p
  Satisfies (Filter.lte column value) p = Compared (λ a b. a ≤ℤ b) column value p

  abbrev pub Selected : Query → Row → Type 0
  Selected q p = All (λ f. Satisfies f p) q.filters

  -- By `order`, the column and whether it is ascending, `p` may stand before `r`.
  abbrev pub Precedes : Option (Text × Bool) → Row → Row → Type 0
  Precedes none p r = Unit {0}
  Precedes (some (column, ascending)) p r =
      (a b : ℤ) → integer column p ≡ some a → integer column r ≡ some b → Directed ascending a b

  abbrev Ordered : Option (Text × Bool) → List Row → Type 0
  Ordered order [] = Unit {0}
  Ordered order (p ∷ ps) = All (Precedes order p) ps × Ordered order ps

  -- No more rows than the limit; and exactly as many.
  abbrev Within : ℕ → List Row → Type 0
  Within n [] = Unit {0}
  Within zero (p ∷ ps) = ⊥
  Within (suc n) (p ∷ ps) = Within n ps

  abbrev Fills : ℕ → List Row → Type 0
  Fills zero ps = Unit {0}
  Fills (suc n) [] = ⊥
  Fills (suc n) (p ∷ ps) = Fills n ps

  abbrev WithinLimit : Option ℕ → List Row → Type 0
  WithinLimit none ps = Unit {0}
  WithinLimit (some n) ps = Within n ps

  abbrev FillsLimit : Option ℕ → List Row → Type 0
  FillsLimit none ps = ⊥
  FillsLimit (some n) ps = Fills n ps

  -- A row that the answer lacks comes after all its rows, which are as many as the limit allows.
  abbrev Covers : Query → List Row → Row → Type 0
  Covers q ps r =
      Selected q r
      → Any (λ p. p ≡ r) ps ⊎ (FillsLimit q.limit ps × All (λ p. Precedes q.order p r) ps)

  -- The answer has rows of the table that the filters select, in order and within the limit, and
  -- covers them all.
  pub record AnswersOf (q : Query) (table : List Row) (ps : List Row) : Type 0 where
    pub selected : All (λ p. Any (λ r. r ≡ p) table × Selected q p) ps
    pub ordered : Ordered q.order ps
    pub within : WithinLimit q.limit ps
    pub complete : All (Covers q ps) table

  -- A request may fail, and its answer may not unmarshal.
  abbrev pub RepliesOf : Query → List Row → Reply (List Row) → Type 0
  RepliesOf q table (failed e) = Unit {0}
  RepliesOf q table (malformed e) = Unit {0}
  RepliesOf q table (body ps) = AnswersOf q table ps
