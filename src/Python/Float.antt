-- ===== src/Python/Float.antt =====
-- Order of Python's floats, on their binary64 bit patterns.
use computecloud_node.Prelude.{ℕ, ◌*◌, ◌/◌, ◌%◌, ◌^◌, Bool, ◌&&◌, not, ltb, ◌==◌, if◌then◌else◌}
use computecloud_node.Prelude.Int.{ℤ, pos, ltb_ℤ}
use computecloud_node.Python.Convert.{negate}

unfoldable pub is_nan : ℕ → Bool
is_nan bits = ltb (2047 * 2 ^ 52) (bits % 2 ^ 63)

-- An integer in the order of the values: the zeros are one.
unfoldable pub rank : ℕ → ℤ
rank bits = if (bits / 2 ^ 63) % 2 == 0 then pos (bits % 2 ^ 63) else negate (bits % 2 ^ 63)

-- `a >= b`
unfoldable pub float_ge : ℕ → ℕ → Bool
unfolding is_nan rank
float_ge a b = not (is_nan a) && not (is_nan b) && not (ltb_ℤ (rank a) (rank b))
