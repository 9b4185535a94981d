-- ===== src/Resources.antt =====
-- `k8s.io/apimachinery/pkg/api/resource` and the `ResourceList` methods of `k8s.io/api/core/v1`, which
-- the repository calls and does not hold: a parameter of the model.
use k8s_mtp.Common.{Bool, List, Option, String}

-- `must_parse` is `resource.MustParse`: `none` is its panic on a text that is no quantity.
-- `cpu` and `memory` are the methods `Cpu` and `Memory`; `zero_value` is Go's zero `Quantity`, what a
-- map returns for a key that it lacks.
pub record Resources : Type 1 where
  pub Quantity : Type 0
  pub zero_value : Quantity
  pub must_parse : String → Option Quantity
  pub equal : Quantity → Quantity → Bool
  pub is_zero : Quantity → Bool
  pub cpu : List (String × Quantity) → Quantity
  pub memory : List (String × Quantity) → Quantity
