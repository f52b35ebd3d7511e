-- ===== src/Core/Operator.antt =====
-- src/cpuattn/core/operator.py: the two operator classes.
use cpuattn.Prelude.{not, List, map, string_eq, distinct, Result, value_error, raise_if}
use cpuattn.Core.Expr.{Expr}
use cpuattn.Core.Tensor.{TensorArgSpec}
use cpuattn.Core.RowNorm.{RowNorm}
use cpuattn.Core.Transition.{Program, Readout}

pub record Parallel : Type 0 where
  pub score_mod : Expr
  pub mask_mod : Expr
  pub row_norm : RowNorm
  pub arguments : List TensorArgSpec

pub record Linear : Type 0 where
  pub transition : Program
  pub readout : Readout
  pub q_mod : Expr
  pub k_mod : Expr
  pub v_mod : Expr
  pub arguments : List TensorArgSpec

pub data Operator : Type 0 where
  parallel : Parallel → Operator
  linear : Linear → Operator

abbrev pub arguments : Operator → List TensorArgSpec
arguments (Operator.parallel p) = p.arguments
arguments (Operator.linear l) = l.arguments

-- _validate_argument_names, which both classes call in __post_init__
unfoldable pub validate_argument_names : List TensorArgSpec → Result (Unit {0})
validate_argument_names specs =
    raise_if (not (distinct (map (λ a. a.name) specs)))
      (value_error "operator argument names must be unique")
