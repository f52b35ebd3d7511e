-- ===== src/Core/Transition.antt =====
-- src/cpuattn/core/transition.py: the state program of a Linear operator and its readout.
use cpuattn.Prelude.{
  not, Option, none, some, List, [], Result, ok, err, value_error, type_error, ◌>>=◌, ◌>>◌,
  raise_if,
}
use cpuattn.Core.Expr.{ValueType, Expr, value_type}
use cpuattn.Core.Expr.Build.{Operand, as_expr, same_type, var}

pub data ReadTiming : Type 0 where
  before after : ReadTiming

pub data Step : Type 0 where
  scale : Expr → Step
  rank1 outer : Expr → Expr → Step

pub record Program : Type 0 where
  pub steps : List Step

pub record Readout : Type 0 where
  pub query : Expr
  pub timing : ReadTiming

-- _float
unfoldable pub float_expr : Operand → Result Expr
unfolding as_expr
float_expr value = do
  e ← as_expr value
  raise_if (not (same_type (value_type e) ValueType.float))
      (type_error "must be a float expression")
  ok e

-- scale, rank1, outer
unfoldable pub make_scale : Operand → Result Step
unfolding float_expr
make_scale factor = do e ← float_expr factor; ok (Step.scale e)

unfoldable pub make_rank1 : Operand → Operand → Result Step
unfolding float_expr
make_rank1 left right = do l ← float_expr left; r ← float_expr right; ok (Step.rank1 l r)

unfoldable pub make_outer : Operand → Operand → Result Step
unfolding float_expr
make_outer left right = do l ← float_expr left; r ← float_expr right; ok (Step.outer l r)

-- Program.__post_init__
unfoldable pub make_program : List Step → Result Program
make_program [] = err (value_error "a Linear transition needs at least one operation")
make_program steps = ok (record { steps = steps })

-- readout(query, timing=...): the query is the variable q where none is given.
unfoldable pub make_readout : Option Operand → ReadTiming → Result Readout
unfolding float_expr var
make_readout none timing = do
  q ← var "q" ValueType.float
  e ← float_expr (Operand.expression q)
  ok (record { query = e; timing = timing })
make_readout (some query) timing = do
  e ← float_expr query
  ok (record { query = e; timing = timing })
