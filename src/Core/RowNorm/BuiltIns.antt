-- ===== src/Core/RowNorm/BuiltIns.antt =====
-- src/cpuattn/core/rownorm.py: what the built-in row norms promise.
use cpuattn.Prelude.{◌≡◌, refl, List, Result, ok, length, All}
use cpuattn.Core.Float.{Float}
use cpuattn.Core.Expr.{variables}
use cpuattn.Core.Expr.Eval.{NumPy}
use cpuattn.Core.Expr.Typing.{IsTyped, gives}
use cpuattn.Core.Expr.Returns.{IsDocumented, IsFloats, divides_arrays}
use cpuattn.Core.RowNorm.{
  RowNorm, post_init, validate_variables, check_updates, check_merge, check_reductions,
  require_known, require_floats, require_float,
}
use cpuattn.Core.RowNorm.Online.{online_weights}
use cpuattn.Core.RowNorm.Interpreter.{Typed, online_weights-returns}
use cpuattn.Core.RowNorm.Protocols

ruleset builders = (IsTyped.named, IsTyped.number, IsTyped.unary, IsTyped.binary, IsTyped.select)

-- A builder that succeeds with a row norm that the constructor accepts, of expressions that the
-- builders make, without a division of Python's numbers.
abbrev pub Holds : Result RowNorm → Type 0
Holds built = (r : RowNorm) × (built ≡ ok r) × (post_init r ≡ ok tt) × Typed r

identity-Holds : Holds Protocols.identity
unfolding Protocols.identity post_init validate_variables check_updates check_merge check_reductions
    require_known require_floats require_float variables divides_arrays
identity-Holds = (
  _,
  refl,
  refl,
  record {
    updates = tt;
    rescale = (search builders, refl);
    weight = (search builders, refl);
    final_scale = (search builders, refl);
    merge = (tt, (search builders, refl), (search builders, refl));
  },
)

l1-Holds : (scale : Float) → Holds (Protocols.l1 scale)
unfolding Protocols.l1 post_init validate_variables check_updates check_merge check_reductions
    require_known require_floats require_float variables divides_arrays
l1-Holds scale = (
  _,
  refl,
  refl,
  record {
    updates = ((search builders, refl), tt);
    rescale = (search builders, refl);
    weight = (search builders, refl);
    final_scale = (search builders, refl);
    merge = (((search builders, refl), tt), (search builders, refl), (search builders, refl));
  },
)

softmax-Holds : (scale : Float) → Holds (Protocols.softmax scale)
unfolding Protocols.softmax post_init validate_variables check_updates check_merge check_reductions
    require_known require_floats require_float variables divides_arrays
softmax-Holds scale = (
  _,
  refl,
  refl,
  record {
    updates = ((search builders depth 8, refl), ((search builders depth 8, refl), tt));
    rescale = (search builders depth 8, refl);
    weight = (search builders depth 8, refl);
    final_scale = (search builders depth 8, refl);
    merge = (
      ((search builders depth 8, refl), ((search builders depth 8, refl), tt)),
      (search builders depth 8, refl),
      (search builders depth 8, refl),
    );
  },
)

sigmoid_norm-Holds : (scale : Float) → Holds (Protocols.sigmoid_norm scale)
unfolding Protocols.sigmoid_norm post_init validate_variables check_updates check_merge
    check_reductions require_known require_floats require_float variables divides_arrays
sigmoid_norm-Holds scale = (
  _,
  refl,
  refl,
  record {
    updates = ((search builders, refl), tt);
    rescale = (search builders, refl);
    weight = (search builders, refl);
    final_scale = (search builders, refl);
    merge = (((search builders, refl), tt), (search builders, refl), (search builders, refl));
  },
)

-- The row norms that the module exports.
pub data BuiltIn : Type 0 where
  of_softmax of_identity of_l1 of_sigmoid_norm : BuiltIn

abbrev pub build : BuiltIn → Float → Result RowNorm
build BuiltIn.of_softmax scale = Protocols.softmax scale
build BuiltIn.of_identity _ = Protocols.identity
build BuiltIn.of_l1 scale = Protocols.l1 scale
build BuiltIn.of_sigmoid_norm scale = Protocols.sigmoid_norm scale

build-Holds : (b : BuiltIn) (scale : Float) → Holds (build b scale)
build-Holds BuiltIn.of_softmax scale = softmax-Holds scale
build-Holds BuiltIn.of_identity _ = identity-Holds
build-Holds BuiltIn.of_l1 scale = l1-Holds scale
build-Holds BuiltIn.of_sigmoid_norm scale = sigmoid_norm-Holds scale

-- Each built-in row norm is built without an exception at every scale, and with the documented
-- behaviour of numbers and of NumPy its online interpreter gives one weight for each score, without an
-- exception, for every list of scores that are floats of NumPy.
pub build-online_weights :
    (np : NumPy) (doc : IsDocumented np) (b : BuiltIn) (scale : Float) (scores : List np.Value)
    → All (IsFloats np doc) scores
    → (r : RowNorm) × (build b scale ≡ ok r)
      × (ws : List np.Value) × (online_weights np r scores ≡ ok ws)
      × (length ws ≡ length scores)
build-online_weights np doc b scale scores floats =
    let (r, built, accepted, typed) = build-Holds b scale in
    let (ws, gives, same) = online_weights-returns np doc r accepted typed scores floats in
    (r, built, ws, gives, same)
