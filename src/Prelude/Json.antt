-- ===== src/Prelude/Json.antt =====
-- Python's JSON: what json.dumps takes and json.loads gives.
use Prim.Native.Nat.{ℕ}
use Prim.Native.String.{String}
use mathlib.Core.Bool.{Bool}
use mathlib.Core.List.{List, [], ◌∷◌}

-- A value. A number that is not a natural one is a negative integer or a float.
mutual
  pub data Json : Type 0 where
    null : Json
    boolean : Bool → Json
    natural : ℕ → Json
    negative : ℕ → Json
    float : ℕ → Json
    text : String → Json
    array : Jsons → Json
    object : Fields → Json

  pub data Jsons : Type 0 where
    nil : Jsons
    cons : Json → Jsons → Jsons

  pub data Fields : Type 0 where
    empty : Fields
    field : String → Json → Fields → Fields

abbrev pub array_of : List Json → Jsons
array_of [] = Jsons.nil
array_of (j ∷ js) = Jsons.cons j (array_of js)
