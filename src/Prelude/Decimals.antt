-- ===== src/Prelude/Decimals.antt =====
-- Numbers and integers as decimal text: `strconv.FormatInt`, and `SetString` and `String` of math/big.
use Prim.Native.Nat.{ℕ, zero, suc, ◌+◌, ◌-◌, ◌*◌, ◌/◌, ◌%◌, ◌≤◌, ◌<◌}
use mathlib.Core.Path.{◌≡◌, refl, ap, ◌∙◌}
use mathlib.Core.Logic.{inl, inr}
use mathlib.Core.Bool.{Bool, false, ◌&&◌}
use mathlib.Core.Option
use mathlib.Core.Option.{Option, none, some, none-ne-some}
use mathlib.Core.List.{[], ◌∷◌, ◌++◌}
use native.Mathlib.Omega.{arith}
use vault_indexer.Prelude.Tests.{ltb, leb, ◌==◌, if◌then◌else◌, Bool-cases}
use vault_indexer.Prelude.Int.{ℤ, pos, negsuc}
use vault_indexer.Prelude.Results.{Text}
use vault_indexer.Prelude.Strings.{text}

-- The decimal digits of a number, the last one split off each round.
print_digits : ℕ → ℕ → Text
print_digits zero n = []
print_digits (suc f) n =
    let rest = print_digits f (n / 10) ++ (b'0' + n % 10) ∷ [] in
    if ltb n 10 then (b'0' + n) ∷ [] else rest

-- A number in decimal. `n + 1` rounds are enough, since each divides `n` by ten.
unfoldable pub print_ℕ : ℕ → Text
unfolding print_digits
print_ℕ n = print_digits (n + 1) n

is_digit : ℕ → Bool
is_digit c = leb b'0' c && leb c b'9'

-- Reads digits to the end of the text.
unfoldable pub scan_digits : Text → ℕ → Option ℕ
unfolding is_digit
scan_digits [] n = some n
scan_digits (c ∷ s) n = if is_digit c then scan_digits s (n * 10 + (c - b'0')) else none

scan-append :
    (s : Text) (c n m : ℕ)
    → scan_digits s n ≡ some m
    → scan_digits (s ++ c ∷ []) n ≡ scan_digits (c ∷ []) m
unfolding scan_digits
scan-append [] c n m h = let e : n ≡ m = cc in rw e refl
scan-append (d ∷ s) c n m h = elim (Bool-cases (is_digit d)) [
  | inl e ↦ rw e (scan-append s c (n * 10 + (d - b'0')) m (rw e at h))
  | inr e ↦ absurd (none-ne-some m (rw e at h))
]

scan_one : (d m : ℕ) → d < 10 → scan_digits ((b'0' + d) ∷ []) m ≡ some (m * 10 + d)
unfolding scan_digits
scan_one d m h = ground arith

scan-print : (f n : ℕ) → n < f → scan_digits (print_digits f n) 0 ≡ some n
unfolding print_digits
scan-print zero n h = absurd (omega arith)
scan-print (suc f) n h = elim (Bool-cases (ltb n 10)) [
  | inl e ↦ rw e (scan_one n 0 (ground arith) ∙ ap some (omega arith))
  | inr e ↦
      rw
        (
          e,
          scan-append (print_digits f (n / 10)) (b'0' + n % 10) 0 (n / 10)
              (scan-print f (n / 10) (ground arith)),
          scan_one (n % 10) (n / 10) (omega arith),
        )
        (ap some (omega arith))
]

pub scan_digits-print_ℕ : (n : ℕ) → scan_digits (print_ℕ n) 0 ≡ some n
unfolding print_ℕ
scan_digits-print_ℕ n = scan-print (n + 1) n (omega arith)

-- `big.Int.SetString(s, 10)`: an optional sign, then digits to the end, at least one of them.
unfoldable pub scan_ℕ : Text → Option ℕ
scan_ℕ [] = none
scan_ℕ (c ∷ s) = scan_digits (c ∷ s) 0

negate : ℕ → ℤ
negate zero = pos 0
negate (suc n) = negsuc n

unfoldable pub set_string : Text → Option ℤ
unfolding scan_ℕ negate
set_string [] = none
set_string (c ∷ s) =
    if c == b'-'
    then Option.map negate (scan_ℕ s)
    else if c == b'+'
    then Option.map pos (scan_ℕ s)
    else Option.map pos (scan_ℕ (c ∷ s))

-- `big.Int.String`
unfoldable pub print_ℤ : ℤ → Text
print_ℤ (pos n) = print_ℕ n
print_ℤ (negsuc n) = b'-' ∷ print_ℕ (suc n)

-- A printed number begins with a digit, so no sign is read there.
IsDigits : Text → Type 0
IsDigits [] = ⊥
IsDigits (c ∷ s) = (b'0' ≤ c) × (c ≤ b'9')

IsDigits-append : (s t : Text) → IsDigits s → IsDigits (s ++ t)
unfolding IsDigits
IsDigits-append [] t h = absurd h
IsDigits-append (c ∷ s) t h = h

print_digits-IsDigits : (f n : ℕ) → n < f → IsDigits (print_digits f n)
unfolding print_digits IsDigits
print_digits-IsDigits zero n h = absurd (omega arith)
print_digits-IsDigits (suc f) n h = elim (Bool-cases (ltb n 10)) [
  | inl e ↦ rw e (ground arith)
  | inr e ↦ rw e (
      IsDigits-append (print_digits f (n / 10)) _ (print_digits-IsDigits f (n / 10) (ground arith)))
]

set_string_digits :
    (s : Text) (n : ℕ) → IsDigits s → scan_digits s 0 ≡ some n → set_string s ≡ some (pos n)
unfolding set_string IsDigits
set_string_digits [] n h e = absurd h
set_string_digits (c ∷ s) n h e =
    let m : (c == b'-') ≡ false = ground arith in
    let p : (c == b'+') ≡ false = ground arith in rw (m, p, e) refl

-- A decimal that is printed is read back.
pub set_string-print_ℕ : (n : ℕ) → set_string (print_ℕ n) ≡ some (pos n)
unfolding print_ℕ
set_string-print_ℕ n =
    set_string_digits _ n (print_digits-IsDigits (n + 1) n (omega arith)) (scan_digits-print_ℕ n)

set_string_negative :
    (s : Text) (n : ℕ)
    → IsDigits s
    → scan_digits s 0 ≡ some (suc n)
    → set_string (b'-' ∷ s) ≡ some (negsuc n)
unfolding set_string IsDigits
set_string_negative [] n h e = absurd h
set_string_negative (c ∷ s) n h e = rw e refl

pub set_string-print_ℤ : (z : ℤ) → set_string (print_ℤ z) ≡ some z
unfolding print_ℤ print_ℕ
set_string-print_ℤ (pos n) = set_string-print_ℕ n
set_string-print_ℤ (negsuc n) =
    set_string_negative _ n (print_digits-IsDigits (suc n + 1) (suc n) (omega arith))
      (scan_digits-print_ℕ (suc n))

-- Two numbers with the same decimal are equal.
pub print_ℕ_inj : (a b : ℕ) → print_ℕ a ≡ print_ℕ b → a ≡ b
print_ℕ_inj a b e =
    let d : scan_digits (print_ℕ a) 0 ≡ scan_digits (print_ℕ b) 0 = ap (λ s. scan_digits s 0) e in
    cc (scan_digits-print_ℕ a, scan_digits-print_ℕ b)

set_string_tests :
    (set_string (text "-12") ≡ some (negsuc 11))
    × (set_string (text "+7") ≡ some (pos 7))
    × (set_string (text "1_000") ≡ none)
    × (set_string (text "-") ≡ none)
    × (print_ℤ (negsuc 11) ≡ text "-12")
unfolding set_string text print_ℤ print_ℕ scan_digits
set_string_tests = (refl, refl, refl, refl, refl)
