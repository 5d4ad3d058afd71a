-- ===== src/Python/Errors.antt =====
-- Exceptions. An exception keeps its class; its text is not modelled.
use computecloud_node.Prelude.{Bool, true, false, ◌≡◌, refl, arith}

pub data Exc : Type 0 where
  value_error type_error key_error overflow_error runtime_error timeout_error : Exc
  not_found_error os_error import_error transport_error workbench_error other_error : Exc

-- What a call gives back: the value that it returns, or the exception that it raises.
pub data Result {ℓ} (A : Type ℓ) : Type ℓ where
  ok : A → Result A
  raise : Exc → Result A

module _ {ℓ κ} {A : Type ℓ} {B : Type κ} where
  infixl 5 ◌>>=◌
  abbrev pub ◌>>=◌ : Result A → (A → Result B) → Result B
  raise exc >>= next = raise exc
  ok value >>= next = next value

  infixl 5 ◌>>◌
  abbrev pub ◌>>◌ : Result A → Result B → Result B
  raise exc >> next = raise exc
  ok value >> next = next

-- `if not passed: raise exc`
abbrev pub check : Bool → Exc → Result (Unit {0})
check passed exc = elim passed [ true ↦ ok tt | false ↦ raise exc ]

module _ {ℓ κ} {A : Type ℓ} {B : Type κ} where
  -- A chain of calls that returns has returned at each call.
  pub returns :
      (m : Result A) (rest : A → Result B) (b : B)
      → (m >>= rest) ≡ ok b
      → (a : A) × (m ≡ ok a) × (rest a ≡ ok b)
  returns (ok a) rest b e = (a, refl, e)
  returns (raise exc) rest b e = absurd (ground (arith, e))
