-- ===== src/Core/RowNorm/Online.antt =====
-- src/cpuattn/core/rownorm.py: online_weights and merge_states.
use cpuattn.Prelude.{
  String, Option, none, some, List, [], ◌∷◌, ◌++◌, string_eq, Result, ok, err, value_error,
  key_error, ◌>>=◌, traverse,
}
use cpuattn.Prelude.Dict.{get, put}
use cpuattn.Core.Expr.{Binary, Const, Expr}
use cpuattn.Core.Expr.Eval
use cpuattn.Core.Expr.Eval.{NumPy, evaluate}
use cpuattn.Core.RowNorm.{State, Update, RowNorm, Merge, prefixed}

module _ (np : NumPy) where
  open np use {Value}

  abbrev pub Env : Type 0
  Env = Eval.Env np

  -- {**env, **more}
  unfoldable pub update : Env → Env → Env
  update env [] = env
  update env ((k, v) ∷ more) = update (put k v env) more

  -- {f"{prefix}{name}": value for name, value in items}
  unfoldable pub relabel : String → Env → Env
  relabel prefix [] = []
  relabel prefix ((k, v) ∷ items) = (prefixed prefix k, v) ∷ relabel prefix items

  -- np.float32(expr.evaluate(value, env))
  unfoldable pub evaluate32 : Expr → Env → Result Value
  evaluate32 value env = do v ← evaluate np value env; np.float32 v

  -- The loop over the updates: new_values, from env and the new values so far.
  unfoldable pub run_updates : Env → Env → List Update → Result Env
  unfolding evaluate32 update
  run_updates env new [] = ok new
  run_updates env new (u ∷ us) = do
    v ← evaluate32 u.value (update env new)
    run_updates env (put (prefixed "new." u.state) v new) us

  abbrev found : Option Value → Result Value
  found none = err (key_error "new value")
  found (some v) = ok v

  -- {item.name: new_values[f"new.{item.name}"] for item in self.states}
  unfoldable pub collect : Env → List State → Result Env
  collect new [] = ok []
  collect new (s ∷ ss) = do
    v ← found (get (prefixed "new." s.name) new)
    rest ← collect new ss
    ok ((s.name, v) ∷ rest)

  -- weights *= factor
  unfoldable pub scale_all : Value → List Value → Result (List Value)
  scale_all factor weights = traverse (λ w. np.binary Binary.mul w factor) weights

  -- One score: the states before it, the weights of the scores before it.
  unfoldable pub online_step : RowNorm → Env → List Value → Value → Result (Env × List Value)
  unfolding run_updates collect scale_all
  online_step r states weights score = do
    let env = update (("score", score) ∷ []) (relabel "old." states)
    new ← run_updates env [] r.updates
    let step_env = update env new
    rescale ← evaluate32 r.rescale step_env
    scaled ← scale_all rescale weights
    weight ← evaluate32 r.weight step_env
    states' ← collect new r.states
    ok (states', scaled ++ weight ∷ [])

  unfoldable pub online_loop : RowNorm → Env → List Value → List Value → Result (Env × List Value)
  unfolding online_step
  online_loop r states weights [] = ok (states, weights)
  online_loop r states weights (score ∷ scores) = do
    next ← online_step r states weights score
    online_loop r next.0 next.1 scores

  -- {item.name: np.float32(item.initial) for item in self.states}
  unfoldable pub initial_states : List State → Result Env
  initial_states [] = ok []
  initial_states (s ∷ ss) = do
    v ← np.float32 (np.literal (some (Const.number s.initial)))
    rest ← initial_states ss
    ok ((s.name, v) ∷ rest)

  unfoldable pub online_weights : RowNorm → List Value → Result (List Value)
  unfolding initial_states online_loop
  online_weights r scores = do
    states ← initial_states r.states
    last ← online_loop r states [] scores
    scale ← evaluate32 r.final_scale (relabel "state." last.0)
    scale_all scale last.1

  -- {f"left.{name}": np.float32(value) ...}
  unfoldable pub relabel32 : String → Env → Result Env
  relabel32 prefix [] = ok []
  relabel32 prefix ((k, v) ∷ items) = do
    w ← np.float32 v
    rest ← relabel32 prefix items
    ok ((prefixed prefix k, w) ∷ rest)

  unfoldable pub merge_with : RowNorm → Merge → Env → Env → Result (Env × Value × Value)
  unfolding relabel32 run_updates collect
  merge_with r m left right = do
    l ← relabel32 "left." left
    rr ← relabel32 "right." right
    let env = update l rr
    new ← run_updates env [] m.updates
    merged ← collect new r.states
    left_scale ← evaluate32 m.left_scale (update env new)
    right_scale ← evaluate32 m.right_scale (update env new)
    ok (merged, left_scale, right_scale)

  unfoldable pub merge_states : RowNorm → Env → Env → Result (Env × Value × Value)
  unfolding merge_with
  merge_states r left right = elim r.merge [
    | none ↦ err (value_error "RowNorm does not define merge")
    | some m ↦ merge_with r m left right
  ]
