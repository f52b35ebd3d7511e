-- ===== src/Core/Expr/Canonical.antt =====
-- src/cpuattn/core/expr.py: `canonical`, as what it is used for: a comparison of two expressions
-- by kind, type, arguments, literal and name. Literals are compared as Python compares them.
use cpuattn.Prelude.{
  ℕ, String, Bool, true, false, ◌&&◌, Option, none, some, nat_beq, ◌==◌, string_eq,
}
use cpuattn.Core.Float.{float_eq}
use cpuattn.Core.Expr.{Unary, Binary, Kind, Const, Expr, Exprs, node}
use cpuattn.Core.Expr.Build.{same_type}

abbrev unary_number : Unary → ℕ
unary_number Unary.neg = 0
unary_number Unary.exp = 1
unary_number Unary.log = 2
unary_number Unary.tanh = 3
unary_number Unary.sigmoid = 4
unary_number Unary.relu = 5
unary_number Unary.abs = 6
unary_number Unary.not = 7

abbrev binary_number : Binary → ℕ
binary_number Binary.add = 0
binary_number Binary.sub = 1
binary_number Binary.mul = 2
binary_number Binary.div = 3
binary_number Binary.max = 4
binary_number Binary.min = 5
binary_number Binary.lt = 6
binary_number Binary.le = 7
binary_number Binary.gt = 8
binary_number Binary.ge = 9
binary_number Binary.eq = 10
binary_number Binary.ne = 11
binary_number Binary.and = 12
binary_number Binary.or = 13

abbrev pub same_kind : Kind → Kind → Bool
same_kind Kind.const Kind.const = true
same_kind Kind.var Kind.var = true
same_kind Kind.select Kind.select = true
same_kind (Kind.unary a) (Kind.unary b) = nat_beq (unary_number a) (unary_number b)
same_kind (Kind.binary a) (Kind.binary b) = nat_beq (binary_number a) (binary_number b)
same_kind (Kind.other a) (Kind.other b) = a == b
same_kind _ _ = false

abbrev same_truth : Bool → Bool → Bool
same_truth true b = b
same_truth false true = false
same_truth false false = true

abbrev pub same_const : Option Const → Option Const → Bool
same_const none none = true
same_const (some (Const.number x)) (some (Const.number y)) = float_eq x y
same_const (some (Const.truth a)) (some (Const.truth b)) = same_truth a b
same_const _ _ = false

abbrev pub same_name : Option String → Option String → Bool
same_name none none = true
same_name (some a) (some b) = a == b
same_name _ _ = false

-- left.canonical() == right.canonical()
unfoldable mutual
  pub same_canonical : Expr → Expr → Bool
  same_canonical (node k t a v n) (node l u b w m) =
      same_kind k l && same_type t u && same_all a b && same_const v w && same_name n m

  pub same_all : Exprs → Exprs → Bool
  same_all Exprs.nil Exprs.nil = true
  same_all (Exprs.cons e es) (Exprs.cons f fs) = same_canonical e f && same_all es fs
  same_all Exprs.nil (Exprs.cons f fs) = false
  same_all (Exprs.cons e es) Exprs.nil = false
