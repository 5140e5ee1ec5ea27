-- ===== src/Api/Field.antt =====
-- Errors of k8s.io/apimachinery/pkg/util/validation/field, as the calls that make them. The bad
-- value of an error, which is only printed, is left out.
use Prim.Native.Nat.{ℕ}
use Prim.Native.String.{String}
use mathlib.Core.List.{List}
use ingress2gateway.Base.Int.{ℤ, pos}

-- `field.NewPath(names...)`, `p.Index(i)` and `p.Child(names...)`.
pub data FieldPath : Type 0 where
  new_path : List String → FieldPath
  at_index : FieldPath → ℤ → FieldPath
  child : FieldPath → List String → FieldPath

-- `p.Index(i)` for the index of a slice.
abbrev pub index : FieldPath → ℕ → FieldPath
index p i = at_index p (pos i)

-- `field.Invalid`, `field.InternalError` and `field.NotFound`.
pub data FieldError : Type 0 where
  invalid internal : FieldPath → String → FieldError
  not_found : FieldPath → FieldError

-- Go's pair of a pointer and an error, where exactly one of the two is set.
pub data Result (T : Type 0) : Type 0 where
  err : FieldError → Result T
  ok : T → Result T
