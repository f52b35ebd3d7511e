-- ===== src/Core/Validate/Contract.antt =====
-- src/cpuattn/core/validate.py: what a validated call guarantees to the rest of the program.
use mathlib.Core.Path.{subst}
use cpuattn.Prelude.{
  ℕ, ◌%◌, ◌≤◌, ◌<◌, ◌≡◌, Bool, true, false, Option, none, some, List, [], ◌∷◌, nat_eq, contains,
  length, ok, >>=-eq-ok, ok-injective, arith, String, list_eq, list_beq_iff, ap, ◌∙◌,
}
use cpuattn.Prelude.Dict.{Dict}
use cpuattn.Core.Tensor.{Array, Value, require_array, require_panel, as_ndarray}
use cpuattn.Core.Tensor.Panel.{require_panel-eq-ok}
use cpuattn.Core.Operator.{Parallel, Linear}
use cpuattn.Core.Validate.{
  Shape4, unpack4, shape4, ParallelCall, LinearCall, validate_arguments, check_parallel_shapes,
  check_linear_shapes, bind_parallel_call, bind_linear_call, bind_state, parallel_dimensions,
  linear_dimensions,
}

require_array-eq-ok :
    (value : Value) (rank : ℕ) (a : Array)
    → require_array value rank ≡ ok a
    → (contains a.shape 0 ≡ false) × (length a.shape ≡ rank)
unfolding require_array as_ndarray
require_array-eq-ok (Value.ndarray r) rank a e = ground arith
require_array-eq-ok (Value.tensor device r) rank a e = ground arith
require_array-eq-ok Value.object rank a e = ground arith

abbrev pub IsPositive : Shape4 → Type 0
IsPositive s = (0 < s.n0) × (0 < s.n1) × (0 < s.n2) × (0 < s.n3)

IsPositive-of_shape :
    (shape : List ℕ) (s : Shape4) → unpack4 shape ≡ ok s → contains shape 0 ≡ false → IsPositive s
IsPositive-of_shape (a ∷ b ∷ c ∷ d ∷ []) s e z = ground arith
IsPositive-of_shape [] s e z = cc
IsPositive-of_shape (a ∷ []) s e z = cc
IsPositive-of_shape (a ∷ b ∷ []) s e z = cc
IsPositive-of_shape (a ∷ b ∷ c ∷ []) s e z = cc
IsPositive-of_shape (a ∷ b ∷ c ∷ d ∷ x ∷ xs) s e z = cc

-- The shapes of a validated Parallel call.
pub record ParallelContract (c : ParallelCall) : Type 0 where
  pub q : Shape4
  pub k : Shape4
  pub v : Shape4
  pub q_shape : shape4 c.q ≡ ok q
  pub k_shape : shape4 c.k ≡ ok k
  pub v_shape : shape4 c.v ≡ ok v
  pub q_positive : IsPositive q
  pub k_positive : IsPositive k
  pub v_positive : IsPositive v
  pub batches : (k.n0 ≡ q.n0) × (v.n0 ≡ q.n0)
  pub channels : k.n3 ≡ q.n3
  pub kv_heads : v.n1 ≡ k.n1
  pub lengths : v.n2 ≡ k.n2
  pub grouped : q.n1 % k.n1 ≡ 0
  pub cached : c.kv_cache ≡ true → q.n2 ≤ k.n2

check_parallel_shapes-eq-ok :
    (q k v : Shape4) (kv_cache : Bool)
    → check_parallel_shapes q k v kv_cache ≡ ok tt
    → ((k.n0 ≡ q.n0) × (v.n0 ≡ q.n0))
      × (k.n3 ≡ q.n3)
      × (v.n1 ≡ k.n1)
      × (v.n2 ≡ k.n2)
      × (q.n1 % k.n1 ≡ 0)
      × (kv_cache ≡ true → q.n2 ≤ k.n2)
unfolding check_parallel_shapes
check_parallel_shapes-eq-ok q k v true e = ground arith
check_parallel_shapes-eq-ok q k v false e = ground arith

-- A Parallel call that is accepted has four positive dimensions in each tensor, one batch size, one
-- channel width for q and k, the same heads and length for k and v, query heads that the kv heads
-- divide, and with a cache no more queries than keys.
pub bind_parallel_call-ParallelContract :
    (operator : Parallel) (q k v : Value) (arguments : Dict String Value) (kv_cache : Bool)
    (c : ParallelCall)
    → bind_parallel_call operator q k v arguments kv_cache ≡ ok c
    → ParallelContract c
unfolding bind_parallel_call
bind_parallel_call-ParallelContract operator q k v arguments kv_cache c e =
    let (qa, pq, e1) = >>=-eq-ok (require_array q 4) _ e in
    let (ka, pk, e2) = >>=-eq-ok (require_panel k 4) _ e1 in
    let (va, pv, e3) = >>=-eq-ok (require_panel v 4) _ e2 in
    let (qs, sq, e4) = >>=-eq-ok (shape4 qa) _ e3 in
    let (ks, sk, e5) = >>=-eq-ok (shape4 ka.0) _ e4 in
    let (vs, sv, e6) = >>=-eq-ok (shape4 va.0) _ e5 in
    let (u, checked, e7) = >>=-eq-ok (check_parallel_shapes qs ks vs kv_cache) _ e6 in
    let (bound, pb, e8) =
      >>=-eq-ok (validate_arguments operator.arguments arguments (parallel_dimensions qs ks vs)) _
        e7 in
    let (batches, channels, heads, lengths, grouped, cached) =
      check_parallel_shapes-eq-ok qs ks vs kv_cache checked in
    let call : ParallelCall = record {
      q = qa;
      k = ka.0;
      v = va.0;
      arguments = bound;
      kv_cache = kv_cache;
      k_pitch = ka.1;
      v_pitch = va.1;
    } in
    let same : call ≡ c = ok-injective call c e8 in
    subst ParallelContract same (record {
      q = qs;
      k = ks;
      v = vs;
      q_shape = sq;
      k_shape = sk;
      v_shape = sv;
      q_positive = IsPositive-of_shape qa.shape qs sq (require_array-eq-ok q 4 qa pq).0;
      k_positive = IsPositive-of_shape ka.0.shape ks sk (require_panel-eq-ok k 4 ka.0 ka.1 pk).1;
      v_positive = IsPositive-of_shape va.0.shape vs sv (require_panel-eq-ok v 4 va.0 va.1 pv).1;
      batches = batches;
      channels = channels;
      kv_heads = heads;
      lengths = lengths;
      grouped = grouped;
      cached = cached;
    })

-- The shapes of a validated Linear call.
pub record LinearContract (c : LinearCall) : Type 0 where
  pub q : Shape4
  pub v : Shape4
  pub q_shape : shape4 c.q ≡ ok q
  pub v_shape : shape4 c.v ≡ ok v
  pub k_shape : shape4 c.k ≡ ok q
  pub q_positive : IsPositive q
  pub v_positive : IsPositive v
  pub batches : v.n0 ≡ q.n0
  pub sequences : v.n2 ≡ q.n2
  pub grouped : v.n1 % q.n1 ≡ 0
  pub state_fits : (s : Array) → c.state ≡ some s → s.shape ≡ q.n0 ∷ v.n1 ∷ q.n3 ∷ v.n3 ∷ []

check_linear_shapes-eq-ok :
    (q k v : Shape4)
    → check_linear_shapes q k v ≡ ok tt
    → (k ≡ q) × (v.n0 ≡ q.n0) × (v.n2 ≡ q.n2) × (v.n1 % q.n1 ≡ 0)
unfolding check_linear_shapes
check_linear_shapes-eq-ok q k v e = ground arith

bind_state-eq-ok :
    (q v : Shape4) (state : Option Value) (bound : Option Array)
    → bind_state q v state ≡ ok bound
    → (s : Array) → bound ≡ some s
    → s.shape ≡ q.n0 ∷ v.n1 ∷ q.n3 ∷ v.n3 ∷ []
unfolding bind_state
bind_state-eq-ok q v none bound e s h = cc
bind_state-eq-ok q v (some value) bound e s h =
    let (a, p, e1) = >>=-eq-ok (require_array value 4) _ e in
    let expected = q.n0 ∷ v.n1 ∷ q.n3 ∷ v.n3 ∷ [] in ground (arith, list_beq_iff a.shape expected)

-- A Linear call that is accepted has positive dimensions, k of the shape of q, v of the same batch
-- and length, state heads that the parameter groups divide, and a state, if any, of the shape
-- batch, state heads, d, dv.
pub bind_linear_call-LinearContract :
    (operator : Linear) (q k v : Value) (state : Option Value) (arguments : Dict String Value)
    (c : LinearCall)
    → bind_linear_call operator q k v state arguments ≡ ok c
    → LinearContract c
unfolding bind_linear_call
bind_linear_call-LinearContract operator q k v state arguments c e =
    let (qa, pq, e1) = >>=-eq-ok (require_array q 4) _ e in
    let (ka, pk, e2) = >>=-eq-ok (require_array k 4) _ e1 in
    let (va, pv, e3) = >>=-eq-ok (require_array v 4) _ e2 in
    let (qs, sq, e4) = >>=-eq-ok (shape4 qa) _ e3 in
    let (ks, sk, e5) = >>=-eq-ok (shape4 ka) _ e4 in
    let (vs, sv, e6) = >>=-eq-ok (shape4 va) _ e5 in
    let (u, checked, e7) = >>=-eq-ok (check_linear_shapes qs ks vs) _ e6 in
    let (sa, ps, e8) = >>=-eq-ok (bind_state qs vs state) _ e7 in
    let (bound, pb, e9) =
      >>=-eq-ok (validate_arguments operator.arguments arguments (linear_dimensions qs vs)) _ e8 in
    let (same_qk, batches, sequences, grouped) = check_linear_shapes-eq-ok qs ks vs checked in
    let call : LinearCall = record { q = qa; k = ka; v = va; state = sa; arguments = bound } in
    subst LinearContract (ok-injective call c e9) (record {
      q = qs;
      v = vs;
      q_shape = sq;
      v_shape = sv;
      k_shape = sk ∙ ap ok same_qk;
      q_positive = IsPositive-of_shape qa.shape qs sq (require_array-eq-ok q 4 qa pq).0;
      v_positive = IsPositive-of_shape va.shape vs sv (require_array-eq-ok v 4 va pv).0;
      batches = batches;
      sequences = sequences;
      grouped = grouped;
      state_fits = bind_state-eq-ok qs vs state sa ps;
    })
