-- ===== src/Prelude/Outcomes.antt =====
-- Python exceptions as values: the class of the exception, with the fixed part of its message.
use Prim.Native.String.{String}
use mathlib.Core.Path.{◌≡◌, refl, ap}
use mathlib.Core.Bool.{Bool, true, false}
use mathlib.Core.List.{List, [], ◌∷◌}
use mathlib.Core.Option.{Option, none, some}
use cpuattn.Prelude.Lists.{All}

pub data Exception : Type 0 where
  value_error type_error runtime_error unsupported_error key_error index_error os_error
        attribute_error :
      String → Exception
  assertion_error : Exception

pub data Result {u} (T : Type u) : Type u where
  err : Exception → Result T
  ok : T → Result T

-- if test: raise e
abbrev pub raise_if : Bool → Exception → Result (Unit {0})
raise_if false e = ok tt
raise_if true e = err e

infixl 5 ◌>>=◌ ◌>>◌
abbrev pub ◌>>=◌ {u w} : {S : Type u} {T : Type w} → Result S → (S → Result T) → Result T
err e >>= rest = err e
ok s >>= rest = rest s

abbrev pub ◌>>◌ {w} : {T : Type w} → Result (Unit {0}) → Result T → Result T
check >> rest = check >>= λ _. rest

-- What a computation in two parts that returned went through.
pub >>=-eq-ok {u w} :
    {S : Type u} {T : Type w} (first : Result S) (rest : S → Result T) {t : T}
    → (first >>= rest) ≡ ok t
    → (s : S) × (first ≡ ok s) × (rest s ≡ ok t)
>>=-eq-ok (err e) rest returned = cc
>>=-eq-ok (ok s) rest returned = (s, refl, returned)

-- [f(x) for x in xs], where f may raise
module _ {ℓ κ} {A : Type ℓ} {B : Type κ} where
  abbrev pub traverse : (A → Result B) → List A → Result (List B)
  traverse f [] = ok []
  traverse f (x ∷ xs) = do y ← f x; ys ← traverse f xs; ok (y ∷ ys)

  -- for x in xs: s = f(s, x), where f may raise
  abbrev pub fold : (B → A → Result B) → B → List A → Result B
  fold f s [] = ok s
  fold f s (x ∷ xs) = f s x >>= λ t. fold f t xs

-- A computation that returns, with what holds of the value.
abbrev pub Returns {ℓ} : {A : Type ℓ} → Result A → (A → Type 0) → Type 0
Returns (ok a) P = P a
Returns (err e) P = ⊥

pub Returns-bind {ℓ κ} :
    {A : Type ℓ} {B : Type κ} (P : A → Type 0) (Q : B → Type 0) (m : Result A) (f : A → Result B)
    → Returns m P
    → ((a : A) → P a → Returns (f a) Q)
    → Returns (m >>= f) Q
Returns-bind P Q (ok a) f h k = k a h
Returns-bind P Q (err e) f h k = absurd h

abbrev value_or {ℓ} : {A : Type ℓ} → A → Result A → A
value_or d (ok a) = a
value_or d (err e) = d

pub ok-injective {ℓ} : {A : Type ℓ} (a b : A) → ok a ≡ ok b → a ≡ b
ok-injective a b p = ap (value_or a) p

abbrev some_or {ℓ} : {A : Type ℓ} → A → Option A → A
some_or d (some a) = a
some_or d none = d

pub some-injective {ℓ} : {A : Type ℓ} {a b : A} → some a ≡ some b → a ≡ b
some-injective {a = a} p = ap (some_or a) p

module _ {ℓ κ u v} {A : Type ℓ} {B : Type κ} (Q : A → Type u) (P : B → Type v) where
  -- A loop whose every step returns and keeps P.
  pub fold-keeps :
      (f : B → A → Result B)
      → ((s : B) (x : A) → P s → Q x → (t : B) × (f s x ≡ ok t) × P t)
      → (s : B) (xs : List A) → P s
      → All Q xs
      → (t : B) × (fold f s xs ≡ ok t) × P t
  fold-keeps f step s [] p q = (s, refl, p)
  fold-keeps f step s (x ∷ xs) p q =
      let (t, here, p') = step s x p q.0 in
      let (last, rest, p'') = fold-keeps f step t xs p' q.1 in (last, rw here rest, p'')

  -- A map whose every call returns.
  pub traverse-keeps :
      (f : A → Result B)
      → ((x : A) → Q x → (y : B) × (f x ≡ ok y) × P y)
      → (xs : List A) → All Q xs
      → (ys : List B) × (traverse f xs ≡ ok ys) × All P ys
  traverse-keeps f step [] q = ([], refl, tt)
  traverse-keeps f step (x ∷ xs) q =
      let (y, here, p) = step x q.0 in
      let (ys, rest, ps) = traverse-keeps f step xs q.1 in (y ∷ ys, rw (here, rest), (p, ps))
