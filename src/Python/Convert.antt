-- ===== src/Python/Convert.antt =====
-- Conversions: `int(v)` of a payload's value, and decimal text.
use Prim.Native.Char.{code}
use computecloud_node.Prelude.{
  ℕ, zero, suc, ◌+◌, ◌-◌, ◌*◌, ◌/◌, ◌%◌, ◌^◌, String, ◌<>◌, Bool, true, false, ◌&&◌, ◌||◌, Option,
  none, some, List, [], ◌∷◌, leb, ltb, ◌==◌, if◌then◌else◌,
}
use computecloud_node.Prelude.Int.{ℤ, pos, negsuc}
use computecloud_node.Python.Errors.{Result, ok, raise, value_error, type_error, overflow_error}
use computecloud_node.Python.Data.{
  Value, null, bool, int, float, str, arr, obj, Items, nil, cons, Fields, empty, entry,
}

-- The code points of a text. A text that the program walks is a list of them.
abbrev pub codes : String → List ℕ
codes String.[] = []
codes (String.◌∷◌ c s) = code c ∷ codes s

-- `str.isspace` of one character, as `str.strip` uses it.
abbrev pub is_space : ℕ → Bool
is_space c =
    (leb 9 c && leb c 13)
    || (leb 28 c && leb c 32)
    || (c == 133)
    || (c == 160)
    || (c == 5760)
    || (leb 8192 c && leb c 8202)
    || (c == 8232)
    || (c == 8233)
    || (c == 8239)
    || (c == 8287)
    || (c == 12288)

unfoldable pub strip_left : List ℕ → List ℕ
strip_left [] = []
strip_left (c ∷ s) = let rest = strip_left s in if is_space c then rest else c ∷ s

-- The text without its trailing space: a run of space is kept only if something follows it.
unfoldable pub strip_right : List ℕ → List ℕ
strip_right [] = []
strip_right (c ∷ s) = elim (strip_right s) [
  | [] ↦ if is_space c then [] else c ∷ []
  | d ∷ t ↦ c ∷ d ∷ t
]

-- `s.strip()`
unfoldable pub strip : List ℕ → List ℕ
unfolding strip_left strip_right
strip s = strip_right (strip_left s)

abbrev pub is_digit : ℕ → Bool
is_digit c = leb 48 c && leb c 57

-- Decimal digits, with single underscores between digits, as `int(text)` reads them (ASCII).
unfoldable pub read_digits : Bool → ℕ → List ℕ → Option ℕ
read_digits after_digit n [] = if after_digit then some n else none
read_digits after_digit n (c ∷ s) =
    let digit = read_digits true (n * 10 + (c - 48)) s in
    let skip = read_digits false n s in
    if is_digit c then digit else if after_digit && c == 95 then skip else none

abbrev pub negate : ℕ → ℤ
negate zero = pos zero
negate (suc n) = negsuc n

unfoldable pub read_signed : List ℕ → Option ℤ
unfolding read_digits
read_signed [] = none
read_signed (c ∷ s) =
    if c == 45
    then elim (read_digits false 0 s) [ none ↦ none | some n ↦ some (negate n) ]
    else elim (read_digits false 0 (if c == 43 then s else c ∷ s)) [
      | none ↦ none
      | some n ↦ some (pos n)
    ]

-- `int(x)` of a binary64: infinities and NaN raise, else the fraction is cut off.
unfoldable pub truncate : ℕ → Result ℤ
truncate bits =
    let exponent = (bits / 2 ^ 52) % 2048 in
    let fraction = bits % 2 ^ 52 in
    let mantissa = if exponent == 0 then fraction else 2 ^ 52 + fraction in
    let whole =
      if leb 1075 exponent
      then mantissa * 2 ^ (exponent - 1075)
      else mantissa / 2 ^ (1075 - (if exponent == 0 then 1 else exponent)) in
    if exponent == 2047
    then raise (if fraction == 0 then overflow_error else value_error)
    else ok (if (bits / 2 ^ 63) % 2 == 1 then negate whole else pos whole)

-- `int(v)`
unfoldable pub to_int : Value → Result ℤ
unfolding truncate read_signed strip
to_int (int z) = ok z
to_int (bool b) = ok (pos (if b then 1 else 0))
to_int (float bits) = truncate bits
to_int (str s) = elim (read_signed (strip (codes s))) [ none ↦ raise value_error | some z ↦ ok z ]
to_int null = raise type_error
to_int (arr xs) = raise type_error
to_int (obj d) = raise type_error

abbrev digit : ℕ → String
digit d =
    if d == 0
    then "0"
    else if d == 1
    then "1"
    else if d == 2
    then "2"
    else if d == 3
    then "3"
    else if d == 4
    then "4"
    else if d == 5
    then "5"
    else if d == 6
    then "6"
    else if d == 7
    then "7"
    else if d == 8
    then "8"
    else "9"

decimal_loop : ℕ → ℕ → String → String
decimal_loop zero n acc = acc
decimal_loop (suc f) n acc =
    let acc' = digit (n % 10) <> acc in
    let rest = decimal_loop f (n / 10) acc' in if ltb n 10 then acc' else rest

-- `str(n)` of a natural number. A number has at most as many digits as its value plus one.
unfoldable pub decimal : ℕ → String
unfolding decimal_loop
decimal n = decimal_loop (suc n) n ""

-- `str(z)` of an integer.
unfoldable pub decimal_ℤ : ℤ → String
unfolding decimal
decimal_ℤ (pos n) = decimal n
decimal_ℤ (negsuc n) = "-" <> decimal (suc n)

abbrev chars : String → Items
chars String.[] = nil
chars (String.◌∷◌ c s) = cons (str (String.◌∷◌ c String.[])) (chars s)

abbrev key_items : Fields → Items
key_items empty = nil
key_items (entry k v d) = cons (str k) (key_items d)

-- `list(v)`
unfoldable pub to_list : Value → Result Items
to_list (arr xs) = ok xs
to_list (str s) = ok (chars s)
to_list (obj d) = ok (key_items d)
to_list null = raise type_error
to_list (bool b) = raise type_error
to_list (int z) = raise type_error
to_list (float bits) = raise type_error
