-- ===== src/Python/Dict.antt =====
-- `dict` operations on the fields of a payload.
use computecloud_node.Prelude.{
  String, ◌≡◌, refl, Bool, true, false, Option, none, some, arith, str_eq, eq_iff, if◌then◌else◌,
}
use computecloud_node.Python.Errors.{Result, ok, raise, key_error}
use computecloud_node.Python.Data.{Value, null, Fields, empty, entry}

-- `d.get(k)` as an option: `none` is a missing key.
unfoldable pub lookup : String → Fields → Option Value
lookup k empty = none
lookup k (entry j v d) = if str_eq j k then some v else lookup k d

-- `d[k] = v`
unfoldable pub put : String → Value → Fields → Fields
put k v empty = entry k v empty
put k v (entry j w d) = if str_eq j k then entry j v d else entry j w (put k v d)

-- `k in d`
abbrev pub has : String → Fields → Bool
has k d = elim (lookup k d) [ none ↦ false | some v ↦ true ]

-- `d.get(k, default)`
abbrev pub get_or : String → Value → Fields → Value
get_or k default d = elim (lookup k d) [ none ↦ default | some v ↦ v ]

-- `d.get(k)`
abbrev pub get : String → Fields → Value
get k d = get_or k null d

-- `d[k]`
abbrev pub get_item : String → Fields → Result Value
get_item k d = elim (lookup k d) [ none ↦ raise key_error | some v ↦ ok v ]

-- `d.setdefault(k, v)`
abbrev pub set_default : String → Value → Fields → Fields
set_default k v d = if has k d then d else put k v d

pub lookup-put :
    (k j : String) (v : Value) (d : Fields)
    → lookup j (put k v d) ≡ (if str_eq k j then some v else lookup j d)
unfolding lookup put
lookup-put k j v empty = refl
lookup-put k j v (entry i w d) =
    ground (arith, eq_iff k j, eq_iff i k, eq_iff i j, lookup-put k j v d)

pub lookup-put_self : (k : String) (v : Value) (d : Fields) → lookup k (put k v d) ≡ some v
lookup-put_self k v d = ground (arith, lookup-put k k v d, eq_iff k k)

pub lookup-put_ne :
    (k j : String) (v : Value) (d : Fields) → str_eq k j ≡ false → lookup j (put k v d) ≡ lookup j d
lookup-put_ne k j v d h = ground (arith, lookup-put k j v d)
