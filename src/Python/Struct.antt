-- ===== src/Python/Struct.antt =====
-- `struct.pack` and `struct.unpack` of Python for the formats of the client, little-endian. The
-- conversions of the float formats are a parameter; `q` is written out.
pub mod RoundTrip
use computecloud_node.Prelude.{
  ℕ, zero, suc, ◌+◌, ◌-◌, ◌*◌, ◌/◌, ◌%◌, ◌^◌, Bool, List, [], ◌∷◌, ◌++◌, take, drop, ltb,
  if◌then◌else◌,
}
use computecloud_node.Prelude.Int.{ℤ, pos, negsuc}
use computecloud_node.Python.Errors.{Result, ok, raise, other_error, ◌>>=◌}
use computecloud_node.Python.Data.{Value, null, bool, int, float, str, arr, obj}

-- One format character: the bytes of an element, how it is packed, and how it is read.
pub record Format : Type 0 where
  pub size : ℕ
  pub pack_one : Value → Result (List ℕ)
  pub unpack_one : List ℕ → Value

-- The bytes of a number, lowest first.
unfoldable pub le_bytes : ℕ → ℕ → List ℕ
le_bytes zero n = []
le_bytes (suc k) n = (n % 256) ∷ le_bytes k (n / 256)

unfoldable pub from_le : List ℕ → ℕ
from_le [] = 0
from_le (b ∷ bytes) = b + 256 * from_le bytes

-- Two's complement in 64 bits.
abbrev pub to_word : ℤ → ℕ
to_word (pos n) = n
to_word (negsuc n) = 2 ^ 64 - 1 - n

abbrev pub from_word : ℕ → ℤ
from_word w = if ltb w (2 ^ 63) then pos w else negsuc (2 ^ 64 - 1 - w)

abbrev pub fits_word : ℤ → Bool
fits_word (pos n) = ltb n (2 ^ 63)
fits_word (negsuc n) = ltb n (2 ^ 63)

unfoldable pub pack_int : ℤ → Result (List ℕ)
unfolding le_bytes
pack_int z = if fits_word z then ok (le_bytes 8 (to_word z)) else raise other_error

-- `struct.error` at what is no integer, or out of range.
unfoldable pub pack_q : Value → Result (List ℕ)
unfolding pack_int
pack_q (int z) = pack_int z
pack_q (bool b) = pack_int (pos (if b then 1 else 0))
pack_q (float bits) = raise other_error
pack_q (str s) = raise other_error
pack_q null = raise other_error
pack_q (arr xs) = raise other_error
pack_q (obj d) = raise other_error

abbrev pub format_q : Format
format_q = record {
  size = 8;
  pack_one = pack_q;
  unpack_one = λ bytes. int (from_word (from_le bytes));
}

-- `struct.pack(f"<{n}{c}", *values)`
unfoldable pub pack : Format → List Value → Result (List ℕ)
pack f [] = ok []
pack f (v ∷ vs) = let rest = pack f vs in do bytes ← f.pack_one v; more ← rest; ok (bytes ++ more)

-- `struct.unpack(f"<{n}{c}", raw)`, where `raw` has the length that the format wants.
unfoldable pub unpack : Format → ℕ → List ℕ → List Value
unpack f zero raw = []
unpack f (suc n) raw = f.unpack_one (take f.size raw) ∷ unpack f n (drop f.size raw)
