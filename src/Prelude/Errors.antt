-- ===== src/Prelude/Errors.antt =====
-- Python's exceptions that the program raises and catches, and results of fallible code. A method
-- that mutates its object returns the object beside the result: what was written before a raise stays.
use Prim.Native.String.{String}

pub data PyError : Type 0 where
  value_error key_error type_error runtime_error permission_error os_error : String → PyError
  assertion_error attribute_error : PyError

pub data Result {ℓ} (A : Type ℓ) : Type ℓ where
  ok : A → Result A
  raise : PyError → Result A

infixl 10 ◌>>=◌
abbrev pub ◌>>=◌ {ℓ κ} : {A : Type ℓ} {B : Type κ} → Result A → (A → Result B) → Result B
ok a >>= f = f a
raise e >>= f = raise e
