-- ===== src/Values.antt =====
-- The values of type interface{} that encoding/json makes of a text, and float64: its values and
-- operations are a parameter.
pub mod Counting
use hawkular_openshift_agent.Base.{Str, ℕ, Bool, Option, [], ◌∷◌}
use hawkular_openshift_agent.Base.Map.{Map}

-- float64 with the operations that the agent uses. `parse` is strconv.ParseFloat, `of_count` the
-- conversion of a length, `square` is math.Pow(x, 2).
pub record Floats : Type 1 where
  pub Float : Type 0
  pub zero : Float
  pub one : Float
  pub nan : Float
  pub is_nan : Float → Bool
  pub lt : Float → Float → Bool
  pub add : Float → Float → Float
  pub sub : Float → Float → Float
  pub div : Float → Float → Float
  pub square : Float → Float
  pub sqrt : Float → Float
  pub of_count : ℕ → Float
  pub parse : Str → Option Float

-- `F` is the type of numbers. A text is a string of the JSON text.
mutual
  pub data Value (F : Type 0) : Type 0 where
    null : Value F
    bool : Bool → Value F
    number : F → Value F
    text : Str → Value F
    array : Items F → Value F
    object : Fields F → Value F

  pub data Items (F : Type 0) : Type 0 where
    nil : Items F
    item : Value F → Items F → Items F

  -- A map[string]interface{}, with its entries in some order.
  pub data Fields (F : Type 0) : Type 0 where
    end : Fields F
    field : Str → Value F → Fields F → Fields F

unfoldable pub entries : {F : Type 0} → Fields F → Map Str (Value F)
entries end = []
entries (field k v fields) = (k, v) ∷ entries fields
