-- ===== src/Core/Canonical.antt =====
-- src/cpuattn/core: the canonical dictionaries of expressions, arguments, row norms, transitions and
-- operators, and the fingerprint of an operator. A dictionary's fields stand in the source's order;
-- SHA-256 and json.dumps with sorted keys are parameters.
use cpuattn.Prelude.{String, Option, none, some, List, [], ◌∷◌, map}
use cpuattn.Prelude.Json.{Json, Jsons, Fields, array_of}
use cpuattn.Core.Expr.{ValueType, Unary, Binary, Kind, Const, Expr, Exprs, node}
use cpuattn.Core.Tensor.{Axis, TensorArgSpec}
use cpuattn.Core.RowNorm.{State, Update, Reduction, Reference, Merge, RowNorm}
use cpuattn.Core.Transition.{ReadTiming, Step, Program, Readout}
use cpuattn.Core.Operator.{Parallel, Linear, Operator}

abbrev unary_text : Unary → String
unary_text Unary.neg = "neg"
unary_text Unary.exp = "exp"
unary_text Unary.log = "log"
unary_text Unary.tanh = "tanh"
unary_text Unary.sigmoid = "sigmoid"
unary_text Unary.relu = "relu"
unary_text Unary.abs = "abs"
unary_text Unary.not = "not"

abbrev binary_text : Binary → String
binary_text Binary.add = "add"
binary_text Binary.sub = "sub"
binary_text Binary.mul = "mul"
binary_text Binary.div = "div"
binary_text Binary.max = "max"
binary_text Binary.min = "min"
binary_text Binary.lt = "lt"
binary_text Binary.le = "le"
binary_text Binary.gt = "gt"
binary_text Binary.ge = "ge"
binary_text Binary.eq = "eq"
binary_text Binary.ne = "ne"
binary_text Binary.and = "and"
binary_text Binary.or = "or"

-- The text that a node holds as its kind.
abbrev pub kind_text : Kind → String
kind_text Kind.const = "const"
kind_text Kind.var = "var"
kind_text Kind.select = "where"
kind_text (Kind.unary op) = unary_text op
kind_text (Kind.binary op) = binary_text op
kind_text (Kind.other s) = s

abbrev pub type_text : ValueType → String
type_text ValueType.float = "float"
type_text ValueType.bool = "bool"

abbrev const_json : Const → Json
const_json (Const.number x) = Json.float x
const_json (Const.truth b) = Json.boolean b

-- A field is left out where the node has no literal, no name or no arguments.
abbrev name_field : Option String → Fields
name_field none = Fields.empty
name_field (some s) = Fields.field "name" (Json.text s) Fields.empty

abbrev value_field : Option Const → Fields → Fields
value_field none rest = rest
value_field (some c) rest = Fields.field "value" (const_json c) rest

abbrev args_field : Jsons → Fields → Fields
args_field Jsons.nil rest = rest
args_field (Jsons.cons j js) rest = Fields.field "args" (Json.array (Jsons.cons j js)) rest

-- Expr.canonical
unfoldable mutual
  pub expr_json : Expr → Json
  expr_json (node k t a v n) = Json.object (
      Fields.field "kind" (Json.text (kind_text k)) (
        Fields.field "type" (Json.text (type_text t))
          (args_field (exprs_json a) (value_field v (name_field n)))))

  pub exprs_json : Exprs → Jsons
  exprs_json Exprs.nil = Jsons.nil
  exprs_json (Exprs.cons e es) = Jsons.cons (expr_json e) (exprs_json es)

-- {name: value, ...}
abbrev dictionary : List (String × Json) → Json
dictionary entries = Json.object (fields entries)
  where
    fields : List (String × Json) → Fields
    fields [] = Fields.empty
    fields ((name, value) ∷ more) = Fields.field name value (fields more)

abbrev listed : List Json → Json
listed js = Json.array (array_of js)

abbrev axis_text : Axis → String
axis_text Axis.batch = "batch"
axis_text Axis.query_head = "query_head"
axis_text Axis.kv_head = "kv_head"
axis_text Axis.state_head = "state_head"
axis_text Axis.parameter_group = "parameter_group"
axis_text Axis.query = "query"
axis_text Axis.key = "key"
axis_text Axis.sequence = "sequence"
axis_text Axis.d = "d"
axis_text Axis.dv = "dv"

-- TensorArgSpec.canonical, whose dtype has one value.
unfoldable pub argument_json : TensorArgSpec → Json
argument_json a = dictionary (
    ("name", Json.text a.name)
    ∷ ("axes", listed (map (λ x. Json.text (axis_text x)) a.axes))
    ∷ ("dtype", Json.text "fp32")
    ∷ ("contiguous", Json.boolean a.contiguous)
    ∷ [])

unfoldable pub state_json : State → Json
state_json s = dictionary (("name", Json.text s.name) ∷ ("initial", Json.float s.initial) ∷ [])

unfoldable pub update_json : Update → Json
unfolding expr_json
update_json u = dictionary (("state", Json.text u.state) ∷ ("value", expr_json u.value) ∷ [])

unfoldable pub reduction_json : Reduction → Json
unfolding expr_json
reduction_json r = dictionary (
    ("name", Json.text r.name)
    ∷ ("operation", Json.text r.operation)
    ∷ ("value", expr_json r.value)
    ∷ [])

unfoldable pub reference_json : Reference → Json
unfolding expr_json reduction_json
reference_json r =
    dictionary (
      ("reductions", listed (map reduction_json r.reductions))
      ∷ ("weight", expr_json r.weight)
      ∷ [])

unfoldable pub merge_json : Option Merge → Json
unfolding expr_json update_json
merge_json none = Json.null
merge_json (some m) = dictionary (
    ("updates", listed (map update_json m.updates))
    ∷ ("left_scale", expr_json m.left_scale)
    ∷ ("right_scale", expr_json m.right_scale)
    ∷ [])

unfoldable pub row_norm_json : RowNorm → Json
unfolding expr_json state_json update_json reference_json merge_json
row_norm_json r = dictionary (
    ("name", Json.text r.name)
    ∷ ("states", listed (map state_json r.states))
    ∷ ("updates", listed (map update_json r.updates))
    ∷ ("rescale", expr_json r.rescale)
    ∷ ("weight", expr_json r.weight)
    ∷ ("final_scale", expr_json r.final_scale)
    ∷ ("reference", reference_json r.reference)
    ∷ ("merge", merge_json r.merge)
    ∷ [])

unfoldable pub step_json : Step → Json
unfolding expr_json
step_json (Step.scale factor) =
    dictionary (("operation", Json.text "scale") ∷ ("factor", expr_json factor) ∷ [])
step_json (Step.rank1 left right) =
    dictionary (
      ("operation", Json.text "rank1") ∷ ("left", expr_json left) ∷ ("right", expr_json right) ∷ [])
step_json (Step.outer left right) =
    dictionary (
      ("operation", Json.text "outer") ∷ ("left", expr_json left) ∷ ("right", expr_json right) ∷ [])

abbrev timing_text : ReadTiming → String
timing_text ReadTiming.before = "before"
timing_text ReadTiming.after = "after"

unfoldable pub program_json : Program → Json
unfolding step_json
program_json p = dictionary (("steps", listed (map step_json p.steps)) ∷ [])

unfoldable pub readout_json : Readout → Json
unfolding expr_json
readout_json r =
    dictionary (("query", expr_json r.query) ∷ ("timing", Json.text (timing_text r.timing)) ∷ [])

-- Parallel.canonical
unfoldable pub parallel_json : Parallel → Json
unfolding expr_json argument_json row_norm_json
parallel_json p = dictionary (
    ("pattern", Json.text "parallel")
    ∷ ("score_mod", expr_json p.score_mod)
    ∷ ("mask_mod", expr_json p.mask_mod)
    ∷ ("row_norm", row_norm_json p.row_norm)
    ∷ ("arguments", listed (map argument_json p.arguments))
    ∷ [])

-- Linear.canonical
unfoldable pub linear_json : Linear → Json
unfolding expr_json argument_json program_json readout_json
linear_json l = dictionary (
    ("pattern", Json.text "linear")
    ∷ ("transition", program_json l.transition)
    ∷ ("readout", readout_json l.readout)
    ∷ ("q_mod", expr_json l.q_mod)
    ∷ ("k_mod", expr_json l.k_mod)
    ∷ ("v_mod", expr_json l.v_mod)
    ∷ ("arguments", listed (map argument_json l.arguments))
    ∷ [])

abbrev pub canonical : Operator → Json
canonical (Operator.parallel p) = parallel_json p
canonical (Operator.linear l) = linear_json l

-- _fingerprint: the digest of the text of the canonical dictionary.
unfoldable pub fingerprint : (String → String) → (Json → String) → Operator → String
unfolding parallel_json linear_json
fingerprint sha256 dumps operator = sha256 (dumps (canonical operator))
