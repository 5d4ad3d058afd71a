-- ===== src/Python/Base64/RoundTrip.antt =====
-- Decoding takes an encoding back to its bytes.
use Prim.Native.Char.{code}
use computecloud_node.Prelude.{
  ℕ, ◌+◌, ◌*◌, ◌/◌, ◌%◌, ◌<◌, ◌≡◌, refl, Bool, true, false, none, some, List, [], ◌∷◌, ◌&&◌, not,
  ltb, ◌==◌, arith, table, table-lt,
}
use computecloud_node.Python.Errors.{ok}
use computecloud_node.Python.Convert.{codes}
use computecloud_node.Python.Base64.{
  sextet_char, sextet_of, encode, Quad, first, second, third, fourth, next, kept, emit, decode_loop,
  is_ascii, decode, AllBytes,
}

-- A character of the alphabet is read as its six bits, and is no padding.
is_read : ℕ → Bool
is_read d =
    elim (sextet_of (code (sextet_char d))) [ none ↦ false | some e ↦ e == d ]
    && not (code (sextet_char d) == 61)
    && ltb (code (sextet_char d)) 128

read_table : table is_read 64 ≡ true
unfolding is_read table sextet_char sextet_of
read_table = refl

sextet_lem :
    (d : ℕ)
    → d < 64
    → (sextet_of (code (sextet_char d)) ≡ some d)
      × ((code (sextet_char d) == 61) ≡ false)
      × (ltb (code (sextet_char d)) 128 ≡ true)
unfolding is_read
sextet_lem d h = ground (arith, table-lt is_read 64 d h read_table)

-- One character of the alphabet.
decode_char :
    (q : Quad) (left pads d : ℕ) (s : List ℕ)
    → d < 64
    → decode_loop q left pads (code (sextet_char d) ∷ s)
      ≡ emit q left d (decode_loop (next q) (kept q d) 0 s)
unfolding decode_loop
decode_char q left pads d s h =
    let (found, no_pad, plain) = sextet_lem d h in
    rw (no_pad, decode_loop) (rw (found, decode_loop))

-- The padding of a last group ends the text.
pad_two : (left : ℕ) → decode_loop third left 0 (61 ∷ 61 ∷ []) ≡ ok []
unfolding decode_loop
pad_two left = refl

pad_one : (left : ℕ) → decode_loop fourth left 0 (61 ∷ []) ≡ ok []
unfolding decode_loop
pad_one left = refl

-- What the loop reads of an encoding is the bytes.
decode_loop-encode :
    (bytes : List ℕ) → AllBytes bytes → decode_loop first 0 0 (codes (encode bytes)) ≡ ok bytes
unfolding encode
decode_loop-encode [] h = unfold decode_loop in refl
decode_loop-encode (a ∷ []) (ha, h) =
    let first_eq : a / 4 * 4 + a % 4 * 16 / 16 ≡ a = omega arith in
    rw (
      decode_char first 0 0 (a / 4) _ (omega arith),
      decode_char second (a / 4) 0 (a % 4 * 16) _ (omega arith),
      pad_two (a % 4 * 16 % 16),
      first_eq,
    )
decode_loop-encode (a ∷ b ∷ []) (ha, (hb, h)) =
    let first_eq : a / 4 * 4 + (a % 4 * 16 + b / 16) / 16 ≡ a = omega arith in
    let second_eq : (a % 4 * 16 + b / 16) % 16 * 16 + b % 16 * 4 / 4 ≡ b = omega arith in
    rw (
      decode_char first 0 0 (a / 4) _ (omega arith),
      decode_char second (a / 4) 0 (a % 4 * 16 + b / 16) _ (omega arith),
      decode_char third ((a % 4 * 16 + b / 16) % 16) 0 (b % 16 * 4) _ (omega arith),
      pad_one (b % 16 * 4 % 4),
      first_eq,
      second_eq,
    )
decode_loop-encode (a ∷ b ∷ c ∷ rest) (ha, (hb, (hc, h))) =
    let first_eq : a / 4 * 4 + (a % 4 * 16 + b / 16) / 16 ≡ a = omega arith in
    let second_eq : (a % 4 * 16 + b / 16) % 16 * 16 + (b % 16 * 4 + c / 64) / 4 ≡ b = omega arith in
    let third_eq : (b % 16 * 4 + c / 64) % 4 * 64 + c % 64 ≡ c = omega arith in
    rw (
      decode_char first 0 0 (a / 4) _ (omega arith),
      decode_char second (a / 4) 0 (a % 4 * 16 + b / 16) _ (omega arith),
      decode_char third ((a % 4 * 16 + b / 16) % 16) 0 (b % 16 * 4 + c / 64) _ (omega arith),
      decode_char fourth ((b % 16 * 4 + c / 64) % 4) 0 (c % 64) _ (omega arith),
      decode_loop-encode rest h,
      first_eq,
      second_eq,
      third_eq,
    )

ascii_char :
    (d : ℕ) (s : List ℕ) → d < 64 → is_ascii s ≡ true → is_ascii (code (sextet_char d) ∷ s) ≡ true
unfolding is_ascii
ascii_char d s h rest = ground (arith, (sextet_lem d h).2, rest)

is_ascii-encode : (bytes : List ℕ) → AllBytes bytes → is_ascii (codes (encode bytes)) ≡ true
unfolding encode
is_ascii-encode [] h = unfold is_ascii in refl
is_ascii-encode (a ∷ []) (ha, h) =
    ascii_char _ _ (omega arith) (ascii_char _ _ (omega arith) (unfold is_ascii in refl))
is_ascii-encode (a ∷ b ∷ []) (ha, (hb, h)) =
    ascii_char _ _ (omega arith)
      (ascii_char _ _ (omega arith) (ascii_char _ _ (omega arith) (unfold is_ascii in refl)))
is_ascii-encode (a ∷ b ∷ c ∷ rest) (ha, (hb, (hc, h))) = ascii_char _ _ (omega arith) (
    ascii_char _ _ (omega arith)
      (ascii_char _ _ (omega arith) (ascii_char _ _ (omega arith) (is_ascii-encode rest h))))

-- Decoding an encoding gives the bytes.
pub decode-encode : (bytes : List ℕ) → AllBytes bytes → decode (encode bytes) ≡ ok bytes
unfolding decode
decode-encode bytes h = rw (is_ascii-encode bytes h) (decode_loop-encode bytes h)
