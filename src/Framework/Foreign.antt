-- ===== src/Framework/Foreign.antt =====
-- What the framework calls and does not implement: floats, and the values of the crate serde_json.
use srcport_substrate.Base.{Bool}

-- The source only stores and compares them, and writes the float 1.0.
pub record Foreign : Type 1 where
  pub Float : Type 0
  pub Json : Type 0
  pub float_eq : Float → Float → Bool
  pub json_eq : Json → Json → Bool
  pub float_one : Float
