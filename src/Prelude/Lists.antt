-- ===== src/Prelude/Lists.antt =====
-- Lists measured by native numbers, and predicates on all or some of their entries.
use Prim.Native.Nat.{ℕ, suc, ◌+◌}
use mathlib.Core.Path.{◌≡◌, refl, sym, ap}
use mathlib.Core.Bool.{Bool, true}
use mathlib.Core.Logic.{◌⊎◌, inl, inr}
use mathlib.Core.List.{List, [], ◌∷◌, ◌++◌, map}
use native.Mathlib.Omega.{arith}
use vault_indexer.Prelude.Tests.{if◌then◌else◌, Bool-cases}

module _ {ℓ} {A : Type ℓ} where
  abbrev pub length : List A → ℕ
  length [] = 0
  length (x ∷ xs) = suc (length xs)

  abbrev pub All {κ} : (A → Type κ) → List A → Type κ
  All P [] = Unit
  All P (x ∷ xs) = P x × All P xs

  abbrev pub Any : (A → Type 0) → List A → Type 0
  Any P [] = ⊥
  Any P (x ∷ xs) = P x ⊎ Any P xs

  pub Any-map : {P Q : A → Type 0} (f : (x : A) → P x → Q x) (xs : List A) → Any P xs → Any Q xs
  Any-map f [] a = a
  Any-map f (x ∷ xs) (inl p) = inl (f x p)
  Any-map f (x ∷ xs) (inr a) = inr (Any-map f xs a)

  pub length-append : (xs ys : List A) → length (xs ++ ys) ≡ length xs + length ys
  length-append [] ys = omega arith
  length-append (x ∷ xs) ys = omega (arith, length-append xs ys)

  abbrev pub keep : (A → Bool) → List A → List A
  keep p [] = []
  keep p (x ∷ xs) = if p x then x ∷ keep p xs else keep p xs

  pub keep-All {κ} :
      {P : A → Type κ} (p : A → Bool)
      → ((x : A) → p x ≡ true → P x)
      → (xs : List A) → All P (keep p xs)
  keep-All p h [] = tt
  keep-All p h (x ∷ xs) = elim (Bool-cases (p x)) [
    | inl e ↦ rw e (h x e, keep-All p h xs)
    | inr e ↦ rw e (keep-All p h xs)
  ]

  pub keep-of_All {κ} :
      {P : A → Type κ} (p : A → Bool)
      → ((x : A) → P x → p x ≡ true)
      → (xs : List A) → All P xs
      → keep p xs ≡ xs
  keep-of_All p h [] a = refl
  keep-of_All p h (x ∷ xs) a = rw (h x a.0) (ap (λ ys. x ∷ ys) (keep-of_All p h xs a.1))

  pub map-All {κ} :
      {P : A → Type κ} (Q : A → Type κ) (f : A → A)
      → ((x : A) → P x → Q (f x))
      → (xs : List A) → All P xs
      → All Q (map f xs)
  map-All Q f h [] a = tt
  map-All Q f h (x ∷ xs) a = (h x a.0, map-All Q f h xs a.1)

  pub map-of_All {κ} :
      {P : A → Type κ} (f : A → A)
      → ((x : A) → P x → f x ≡ x)
      → (xs : List A) → All P xs
      → map f xs ≡ xs
  map-of_All f h [] a = refl
  map-of_All f h (x ∷ xs) a = rw (h x a.0, map-of_All f h xs a.1) refl

module _ {A : Type 0} where
  pub All_of : {P Q : A → Type 0} (f : (x : A) → P x → Q x) (xs : List A) → All P xs → All Q xs
  All_of f [] a = tt
  All_of f (x ∷ xs) a = (f x a.0, All_of f xs a.1)

  pub All_append : (P : A → Type 0) (xs ys : List A) → All P xs → All P ys → All P (xs ++ ys)
  All_append P [] ys a b = b
  All_append P (x ∷ xs) ys a b = (a.0, All_append P xs ys a.1 b)

  abbrev pub Contains : List A → A → Type 0
  Contains xs x = Any (λ y. x ≡ y) xs

  pub keep-Contains :
      (p : A → Bool) (x : A) (xs : List A) → p x ≡ true → Contains xs x → Contains (keep p xs) x
  keep-Contains p x [] e m = elim m [ ]
  keep-Contains p x (y ∷ ys) e (inl h) = rw (sym h, e) (inl refl)
  keep-Contains p x (y ∷ ys) e (inr m) = elim (Bool-cases (p y)) [
    | inl t ↦ rw t (inr (keep-Contains p x ys e m))
    | inr f ↦ rw f (keep-Contains p x ys e m)
  ]

  pub map-Contains : (f : A → A) (x : A) (xs : List A) → Contains xs x → Contains (map f xs) (f x)
  map-Contains f x [] m = elim m [ ]
  map-Contains f x (y ∷ ys) (inl h) = inl (ap f h)
  map-Contains f x (y ∷ ys) (inr m) = inr (map-Contains f x ys m)

  pub left_Contains : (xs ys : List A) (x : A) → Contains xs x → Contains (xs ++ ys) x
  left_Contains [] ys x m = elim m [ ]
  left_Contains (y ∷ xs) ys x (inl q) = inl q
  left_Contains (y ∷ xs) ys x (inr m) = inr (left_Contains xs ys x m)

  pub right_Contains : (xs ys : List A) (x : A) → Contains ys x → Contains (xs ++ ys) x
  right_Contains [] ys x m = m
  right_Contains (y ∷ xs) ys x m = inr (right_Contains xs ys x m)

  pub own_Contains : (xs : List A) → All (Contains xs) xs
  own_Contains [] = tt
  own_Contains (x ∷ xs) = (inl refl, All_of (λ y m. inr m) xs (own_Contains xs))
