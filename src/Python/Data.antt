-- ===== src/Python/Data.antt =====
-- The values of a decoded JSON payload. A float is the bit pattern of its IEEE-754 binary64.
use computecloud_node.Prelude.{
  ℕ, ◌*◌, ◌%◌, ◌^◌, String, Bool, true, false, List, [], ◌∷◌, ◌==◌, str_eq, not,
}
use computecloud_node.Prelude.Int.{ℤ, pos, eqb_ℤ}

mutual
  -- A `dict` with text keys, in insertion order.
  pub data Fields : Type 0 where
    empty : Fields
    entry : String → Value → Fields → Fields

  pub data Value : Type 0 where
    int : ℤ → Value
    float : ℕ → Value
    str : String → Value
    bool : Bool → Value
    null : Value
    obj : Fields → Value
    arr : Items → Value

  -- A `list`.
  pub data Items : Type 0 where
    nil : Items
    cons : Value → Items → Items

abbrev pub list_of : Items → List Value
list_of nil = []
list_of (cons x xs) = x ∷ list_of xs

abbrev pub items_of : List Value → Items
items_of [] = nil
items_of (x ∷ xs) = cons x (items_of xs)

-- A Python list of integers as JSON values.
abbrev pub int_items : List ℤ → Items
int_items [] = nil
int_items (x ∷ xs) = cons (int x) (int_items xs)

-- `bool(v)`. A float is false exactly if it is 0.0 or -0.0.
unfoldable pub truthy : Value → Bool
truthy null = false
truthy (bool b) = b
truthy (int z) = not (eqb_ℤ z (pos 0))
truthy (float bits) = not ((bits * 2) % 2 ^ 64 == 0)
truthy (str s) = not (str_eq s "")
truthy (arr nil) = false
truthy (arr (cons x xs)) = true
truthy (obj empty) = false
truthy (obj (entry k v d)) = true

-- `v == "text"`, for a payload field that is compared with a literal.
abbrev pub is_text : Value → String → Bool
is_text (str s) t = str_eq s t
is_text _ t = false

abbrev pub is_none : Value → Bool
is_none null = true
is_none _ = false

-- `isinstance(v, list)`, `isinstance(v, str)`, `isinstance(v, dict)`
abbrev pub is_list : Value → Bool
is_list (arr xs) = true
is_list _ = false

abbrev pub is_str : Value → Bool
is_str (str s) = true
is_str _ = false

-- `isinstance(v, int)`: a `bool` is an `int`.
abbrev pub is_int : Value → Bool
is_int (int z) = true
is_int (bool b) = true
is_int _ = false

-- `isinstance(v, (int, float))`
abbrev pub is_number : Value → Bool
is_number (float bits) = true
is_number v = is_int v
