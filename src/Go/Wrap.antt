-- ===== src/Go/Wrap.antt =====
-- Sums of Go's int, 64 bits wide.
use Prim.Native.Nat.{◌%◌, ◌<◌}
use dql.Prelude.{ℕ, suc, ◌+◌, ◌-◌, true, ◌≡◌, refl, arith, ltb, if◌then◌else◌}
use dql.Prelude.Int.{ℤ, pos, negsuc}

-- 2^63.
abbrev pub half_range : ℕ
half_range = 9223372036854775808

-- 2^64.
abbrev pub whole_range : ℕ
whole_range = 18446744073709551616

-- The remainder below 2^64, read as a signed number: from 2^63 up it stands for itself less 2^64,
-- and the negative numbers mirror that.
unfoldable pub wrap_int : ℤ → ℤ
wrap_int (pos n) =
    let m = n % whole_range in if ltb m half_range then pos m else negsuc (whole_range - suc m)
wrap_int (negsuc n) =
    let m = n % whole_range in if ltb m half_range then negsuc m else pos (whole_range - suc m)

-- An integer and a natural number, without the wrap-around.
abbrev pub plus_nat : ℤ → ℕ → ℤ
plus_nat (pos a) n = pos (a + n)
plus_nat (negsuc a) n = if ltb a n then pos (n - suc a) else negsuc (a - n)

-- `a + n` on ints.
unfoldable pub add_int : ℤ → ℕ → ℤ
unfolding wrap_int
add_int a n = wrap_int (plus_nat a n)

pub add_int-small : (a n : ℕ) → a + n < half_range → add_int (pos a) n ≡ pos (a + n)
unfolding add_int
add_int-small a n h =
    let same : (a + n) % whole_range ≡ a + n = omega (arith, h) in
    let low : ltb (a + n) half_range ≡ true = ground (arith, h) in rw (same, low) refl
