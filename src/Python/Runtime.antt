-- ===== src/Python/Runtime.antt =====
-- Library functions of Python that the client calls and that are not modelled.
use computecloud_node.Prelude.{ℕ, String, List}
use computecloud_node.Python.Data.{Value, str}

pub record Runtime : Type 0 where
  -- `hashlib.sha256(text.encode()).digest()`
  pub sha256 : String → List ℕ
  -- `str(v)` of a value that is no text
  pub display : Value → String

module _ (rt : Runtime) where
  -- `str(v)`
  abbrev pub to_str : Value → String
  to_str (str s) = s
  to_str v = rt.display v
