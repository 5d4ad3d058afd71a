-- ===== src/Python/Base64.antt =====
-- `base64.b64encode` and `base64.b64decode` of Python, over bytes as numbers.
pub mod RoundTrip
use Prim.Native.Char.{Char, nul}
use computecloud_node.Prelude.{
  ℕ, zero, suc, ◌+◌, ◌-◌, ◌*◌, ◌/◌, ◌%◌, ◌<◌, String, Bool, true, false, Option, none, some, List,
  [], ◌∷◌, ◌&&◌, leb, ltb, ◌==◌, if◌then◌else◌, All,
}
use computecloud_node.Python.Errors.{Result, ok, raise, value_error}
use computecloud_node.Python.Convert.{codes}

alphabet : String
alphabet = "ABCDEFGHIJKLMNOPQRSTUVWXYZabcdefghijklmnopqrstuvwxyz0123456789+/"

nth_char : ℕ → String → Char
nth_char n String.[] = nul
nth_char zero (String.◌∷◌ c s) = c
nth_char (suc n) (String.◌∷◌ c s) = nth_char n s

-- The character that stands for six bits.
unfoldable pub sextet_char : ℕ → Char
unfolding alphabet nth_char
sextet_char n = nth_char n alphabet

-- `base64.b64encode(data).decode("ascii")`
unfoldable pub encode : List ℕ → String
encode [] = ""
encode (a ∷ []) = String.◌∷◌ (sextet_char (a / 4)) (String.◌∷◌ (sextet_char (a % 4 * 16)) "==")
encode (a ∷ b ∷ []) =
    String.◌∷◌ (sextet_char (a / 4))
      (String.◌∷◌ (sextet_char (a % 4 * 16 + b / 16)) (String.◌∷◌ (sextet_char (b % 16 * 4)) "="))
encode (a ∷ b ∷ c ∷ rest) = String.◌∷◌ (sextet_char (a / 4)) (
    String.◌∷◌ (sextet_char (a % 4 * 16 + b / 16)) (
      String.◌∷◌ (sextet_char (b % 16 * 4 + c / 64))
        (String.◌∷◌ (sextet_char (c % 64)) (encode rest))))

-- The six bits that a character stands for; `none` is a character that the decoder skips.
pub sextet_of : ℕ → Option ℕ
sextet_of c =
    if leb 65 c && leb c 90
    then some (c - 65)
    else if leb 97 c && leb c 122
    then some (c - 71)
    else if leb 48 c && leb c 57
    then some (c + 4)
    else if c == 43
    then some 62
    else if c == 47
    then some 63
    else none

-- The place of a character in its group of four.
pub data Quad : Type 0 where
  first second third fourth : Quad

abbrev pub next : Quad → Quad
next first = second
next second = third
next third = fourth
next fourth = first

-- The bits of a character that are kept for the next byte.
abbrev pub kept : Quad → ℕ → ℕ
kept first d = d
kept second d = d % 16
kept third d = d % 4
kept fourth d = 0

-- The byte that a character completes.
abbrev pub emit : Quad → ℕ → ℕ → Result (List ℕ) → Result (List ℕ)
emit q left d (raise exc) = raise exc
emit first left d (ok bytes) = ok bytes
emit second left d (ok bytes) = ok ((left * 4 + d / 16) ∷ bytes)
emit third left d (ok bytes) = ok ((left * 16 + d / 4) ∷ bytes)
emit fourth left d (ok bytes) = ok ((left * 64 + d) ∷ bytes)

-- Padding can end the text only after two characters of a group.
abbrev pub may_end : Quad → Bool
may_end third = true
may_end fourth = true
may_end _ = false

abbrev pub is_complete : Quad → Bool
is_complete first = true
is_complete _ = false

abbrev pub position : Quad → ℕ
position first = 0
position second = 1
position third = 2
position fourth = 3

-- The loop of the decoder: the place in the group, the bits that are kept, and the padding so far.
pub decode_loop : Quad → ℕ → ℕ → List ℕ → Result (List ℕ)
decode_loop q left pads [] = if is_complete q then ok [] else raise value_error
decode_loop q left pads (c ∷ s) = elim (c == 61) [
  | true ↦ elim (may_end q && leb 4 (position q + pads + 1)) [
    | true ↦ ok []
    | false ↦ decode_loop q left (if may_end q then pads + 1 else pads) s
  ]
  | false ↦ elim (sextet_of c) [
    | none ↦ decode_loop q left pads s
    | some d ↦ emit q left d (decode_loop (next q) (kept q d) 0 s)
  ]
]

pub is_ascii : List ℕ → Bool
is_ascii [] = true
is_ascii (c ∷ s) = ltb c 128 && is_ascii s

-- `base64.b64decode(text)`. Characters outside the alphabet are skipped.
unfoldable pub decode : String → Result (List ℕ)
unfolding decode_loop sextet_of is_ascii
decode s = if is_ascii (codes s) then decode_loop first 0 0 (codes s) else raise value_error

abbrev pub AllBytes : List ℕ → Type 0
AllBytes = All (λ b. b < 256)
