-- ===== src/Positions/Amounts.antt =====
-- The arithmetic of computeNewAmountShares, and of the heights.
use vault_indexer.Prelude.{
  Text, ℕ, ◌+◌, ◌-◌, ◌^◌, ◌≤◌, ◌<◌, ◌≡◌, refl, pos, ◌+ℤ◌, ◌-ℤ◌, ltb_ℤ, to_int64, inl, inr, Bool,
  true, false, none, some, arith, Bool-cases, ◌==◌, if◌then◌else◌, text, eq_text, eq_text→eq,
  eq_text_refl, set_string, print_ℕ, print_ℤ, print_ℕ_inj,
}
use vault_indexer.Database.{PublicPositionsSelect}
use vault_indexer.Positions.{compute_new_amount_shares, end_height}

-- The text is a decimal of the number.
abbrev pub Reads : Text → ℕ → Type 0
Reads s n = set_string s ≡ some (pos n)

-- The new amount, as a number: a sum, or a difference that stops at zero.
abbrev pub moved : Bool → ℕ → ℕ → ℕ
moved true a x = a + x
moved false a x = a - x

clamp_lem :
    (a x : ℕ) → (if ltb_ℤ (pos a -ℤ pos x) (pos 0) then pos 0 else pos a -ℤ pos x) ≡ pos (a - x)
unfolding ◌-ℤ◌
clamp_lem a x = ground arith

add_lem : (a x : ℕ) → pos a +ℤ pos x ≡ pos (a + x)
unfolding ◌+ℤ◌
add_lem a x = ground arith

-- computeNewAmountShares on two decimals adds, or subtracts and stops at zero, and never fails.
pub compute_new_amount_shares_decimal :
    (p : PublicPositionsSelect) (x : Text) (is_addition : Bool) (a b : ℕ)
    → Reads p.amount_shares a
    → Reads x b
    → compute_new_amount_shares (some p) x is_addition ≡ (print_ℕ (moved is_addition a b), none)
unfolding compute_new_amount_shares print_ℤ
compute_new_amount_shares_decimal p x is_addition a b ha hb =
    ground (arith, add_lem a b, clamp_lem a b)

pub eq_text-print_zero : (n : ℕ) → eq_text (print_ℕ n) (text "0") ≡ (n == 0)
unfolding text print_ℕ
eq_text-print_zero n = elim (Bool-cases (eq_text (print_ℕ n) (text "0"))) [
  | inl e ↦ let z : n ≡ 0 = print_ℕ_inj n 0 (eq_text→eq _ _ e) in rw (e, z) refl
  | inr e ↦ elim (Bool-cases (n == 0)) [
    | inl z ↦ let z' : n ≡ 0 = ground arith in rw (e, z) (absurd (false_ne (rw z' at e)))
    | inr z ↦ rw (e, z) refl
  ]
]
  where
    false_ne : eq_text (print_ℕ 0) (text "0") ≡ false → ⊥
    false_ne e = cc (eq_text_refl (text "0"))

pub end_height_lem : (b : ℕ) → 1 ≤ b → b < 2 ^ 63 → end_height b ≡ pos (b - 1)
unfolding end_height to_int64
end_height_lem b h k = ground arith

pub to_int64_lem : (b : ℕ) → b < 2 ^ 63 → to_int64 b ≡ pos b
unfolding to_int64
to_int64_lem b k = ground arith
