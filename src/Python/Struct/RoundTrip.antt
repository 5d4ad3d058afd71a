-- ===== src/Python/Struct/RoundTrip.antt =====
-- Values that a format keeps exactly come back from their bytes.
use computecloud_node.Prelude.{
  ℕ, zero, suc, ◌*◌, ◌/◌, ◌^◌, ◌<◌, ◌≡◌, refl, ap, ap₂, ◌∙◌, true, List, [], ◌∷◌, ◌++◌, length,
  length-append, drop-append_self, take-append_self, All, arith,
}
use computecloud_node.Prelude.Int.{ℤ, pos, negsuc}
use computecloud_node.Python.Errors.{ok}
use computecloud_node.Python.Data.{Value, int}
use computecloud_node.Python.Base64.{AllBytes}
use computecloud_node.Python.Struct.{
  Format, le_bytes, from_le, to_word, from_word, fits_word, pack_int, pack_q, format_q, pack,
  unpack,
}

-- A value that a format packs without loss.
pub record IsExact (f : Format) (v : Value) : Type 0 where
  pub bytes : List ℕ
  pub packs : f.pack_one v ≡ ok bytes
  pub sized : length bytes ≡ f.size
  pub reads : f.unpack_one bytes ≡ v
  pub in_range : AllBytes bytes

le_bytes-AllBytes : (k n : ℕ) → AllBytes (le_bytes k n)
unfolding le_bytes
le_bytes-AllBytes zero n = tt
le_bytes-AllBytes (suc k) n = (omega arith, le_bytes-AllBytes k (n / 256))

length-le_bytes : (k n : ℕ) → length (le_bytes k n) ≡ k
unfolding le_bytes
length-le_bytes zero n = refl
length-le_bytes (suc k) n = ap suc (length-le_bytes k (n / 256))

from_le-le_bytes : (n : ℕ) → n < 2 ^ 64 → from_le (le_bytes 8 n) ≡ n
unfolding le_bytes from_le
from_le-le_bytes n h = omega arith

to_word-lt : (z : ℤ) → fits_word z ≡ true → to_word z < 2 ^ 64
to_word-lt (pos n) h = ground arith
to_word-lt (negsuc n) h = ground arith

from_word-to_word : (z : ℤ) → fits_word z ≡ true → from_word (to_word z) ≡ z
from_word-to_word (pos n) h = ground arith
from_word-to_word (negsuc n) h = ground arith

-- `q` keeps every integer of 64 bits.
pub int-IsExact : (z : ℤ) → fits_word z ≡ true → IsExact format_q (int z)
unfolding pack_q pack_int
int-IsExact z h = record {
  bytes = le_bytes 8 (to_word z);
  packs = rw h;
  sized = length-le_bytes 8 (to_word z);
  reads =
      ap int (ap from_word (from_le-le_bytes (to_word z) (to_word-lt z h)) ∙ from_word-to_word z h);
  in_range = le_bytes-AllBytes 8 (to_word z);
}

-- Values that are packed without loss, one after the other.
pub record ArePacked (f : Format) (vs : List Value) : Type 0 where
  pub bytes : List ℕ
  pub packs : pack f vs ≡ ok bytes
  pub sized : length bytes ≡ length vs * f.size
  pub reads : unpack f (length vs) bytes ≡ vs
  pub in_range : AllBytes bytes

AllBytes-append : (xs ys : List ℕ) → AllBytes xs → AllBytes ys → AllBytes (xs ++ ys)
AllBytes-append [] ys h k = k
AllBytes-append (x ∷ xs) ys (first, h) k = (first, AllBytes-append xs ys h k)

pub pack-IsExact : (f : Format) (vs : List Value) → All (IsExact f) vs → ArePacked f vs
unfolding pack unpack
pack-IsExact f [] h = record {
  bytes = [];
  packs = refl;
  sized = omega arith;
  reads = refl;
  in_range = tt;
}
pack-IsExact f (v ∷ vs) (exact, h) =
    let rest = pack-IsExact f vs h in
    record {
      bytes = exact.bytes ++ rest.bytes;
      packs = rw (exact.packs) (rw (rest.packs));
      sized = grind (arith, length-append exact.bytes rest.bytes, exact.sized, rest.sized);
      reads =
          ap₂ ◌∷◌
            (ap f.unpack_one (take-append_self f.size exact.bytes rest.bytes exact.sized)
              ∙ exact.reads)
            (ap (unpack f (length vs)) (drop-append_self f.size exact.bytes rest.bytes exact.sized)
              ∙ rest.reads);
      in_range = AllBytes-append exact.bytes rest.bytes exact.in_range rest.in_range;
    }
