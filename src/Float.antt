-- ===== src/Float.antt =====
-- float64, as far as the handlers use it: a JSON number that is an integer, read into a float64 and
-- printed by `%.0f`. The value is rounded to 53 significant bits, to even on a tie. The numbers of an
-- event are below 2 ^ 256, so they do not overflow.
use native.Mathlib.Nat.{pow-suc, mul_left_comm, mul-mod_right}
use vault_indexer.Prelude.{
  lt→ltb, ℕ, zero, suc, ◌+◌, ◌*◌, ◌/◌, ◌%◌, ◌^◌, ◌≤◌, ◌<◌, ◌≡◌, refl, ◌≢◌, false, ◌&&◌, ◌||◌, ltb,
  ◌==◌, if◌then◌else◌, arith,
}

-- The bits beyond the 53rd: each round halves the number.
extra_bits : ℕ → ℕ → ℕ
extra_bits zero n = 0
extra_bits (suc f) n = let rest = suc (extra_bits f (n / 2)) in if ltb n (2 ^ 53) then 0 else rest

-- The multiple of `2 ^ suc e` that is nearest.
round_even : ℕ → ℕ → ℕ
round_even zero n = n
round_even (suc e) n =
    let unit = 2 ^ suc e in
    let q = n / unit in
    let r = n % unit in
    let half = 2 ^ e in (if ltb half r || (half == r && (q % 2 == 1)) then q + 1 else q) * unit

-- The float64 of an integer; 1024 rounds are enough for any that does not overflow.
unfoldable pub float64 : ℕ → ℕ
unfolding extra_bits round_even
float64 n =
    let rounded = round_even (suc (extra_bits 1024 (n / 2))) n in
    if ltb n (2 ^ 53) then n else rounded

-- An integer below 2 ^ 53 is a float64.
pub float64_exact : (n : ℕ) → n < 2 ^ 53 → float64 n ≡ n
unfolding float64
float64_exact n h = rw (lt→ltb n (2 ^ 53) h) refl

float64_large : (n : ℕ) → 2 ^ 53 ≤ n → float64 n ≡ round_even (suc (extra_bits 1024 (n / 2))) n
unfolding float64
float64_large n h = let e : ltb n (2 ^ 53) ≡ false = not_below n (2 ^ 53) h in rw e refl
  where
    not_below : (a b : ℕ) → b ≤ a → ltb a b ≡ false
    not_below a b h = ground arith

odd_ne_even : (a b : ℕ) → a % 2 ≡ 0 → b % 2 ≡ 1 → a ≢ b
odd_ne_even a b p q e = omega arith

round_even-mod_two : (e n : ℕ) → round_even (suc e) n % 2 ≡ 0
unfolding round_even
round_even-mod_two e n = even_multiple _ (2 ^ suc e) (pow_even e)
  where
    pow_even : (e : ℕ) → 2 ^ suc e ≡ 2 * 2 ^ e
    pow_even e = rw pow-suc (omega arith)

    even_multiple : (k u : ℕ) → u ≡ 2 * 2 ^ e → (k * u) % 2 ≡ 0
    even_multiple k u h = rw (h, mul_left_comm k 2 (2 ^ e)) (mul-mod_right 2 (k * 2 ^ e))

-- From 2 ^ 53 on no odd integer is: it is replaced by an even one.
pub float64_odd : (n : ℕ) → 2 ^ 53 ≤ n → n % 2 ≡ 1 → float64 n ≢ n
float64_odd n h odd =
    rw (float64_large n h) (odd_ne_even _ n (round_even-mod_two (extra_bits 1024 (n / 2)) n) odd)

rounded :
    (float64 (2 ^ 53 + 1) ≡ 2 ^ 53)
    × (float64 (2 ^ 53 + 3) ≡ 2 ^ 53 + 4)
    × (float64 1000000000000000001 ≡ 1000000000000000000)
unfolding float64
rounded = (refl, refl, refl)
