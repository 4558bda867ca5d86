-- ===== src/Config/Params.antt =====
-- The parameters of a node, as src/config.cpp uses them. What rclcpp does with them is an argument.
use phntm_bridge.Prelude.{ℕ, Bool, Option, List, Str}

-- A double is a bit pattern.
pub data Value : Type 0 where
  int double : ℕ → Value
  flag : Bool → Value
  text : Str → Value
  texts : List Str → Value

-- The two calls of rclcpp on a store of parameters: declare_parameter of a name and a default, where
-- the exception for one that is declared already is caught, and get_parameter of a name with the
-- conversion to the type of a value. `none` is an exception that is not caught.
pub record Node (Params : Type 0) : Type 0 where
  pub declare_parameter : Str → Value → Params → Option Params
  pub get_parameter : Str → Value → Params → Option Value
