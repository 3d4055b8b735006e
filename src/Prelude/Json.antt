-- ===== src/Prelude/Json.antt =====
-- Values of encoding/json and of Go's interface{}. A number stands for its text.
use Prim.Native.String.{String}
use mathlib.Core.Bool.{Bool}
use mathlib.Core.Option.{Option, none, some}
use mathlib.Core.List.{List, [], ◌∷◌}
use package.ai_aggregator.Prelude.Tests.{if◌then◌else◌}
use text.Mathlib.Text.{◌==◌}

mutual
  pub data Json : Type 0 where
    null : Json
    bool : Bool → Json
    num : String → Json
    str : String → Json
    arr : Items → Json
    obj : Fields → Json

  pub data Items : Type 0 where
    nil : Items
    cons : Json → Items → Items

  pub data Fields : Type 0 where
    end : Fields
    field : String → Json → Fields → Fields

abbrev pub items : Items → List Json
items nil = []
items (cons v vs) = v ∷ items vs

-- A member of an object: the last of those with the key, as a decoder into a map keeps it.
abbrev pub get : String → Fields → Option Json
get k end = none
get k (field j v fs) = elim (get k fs) [ some w ↦ some w | none ↦ if j == k then some v else none ]

-- The type assertion v.(string).
abbrev pub as_string : Json → Option String
as_string (str s) = some s
as_string _ = none
