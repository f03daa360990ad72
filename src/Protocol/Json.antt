-- ===== src/Protocol/Json.antt =====
-- What the code uses of ArduinoJson.
use beer_tab.Common.{ℕ, List, Option, Bool, Text, ℤ}

-- A value that a request puts into its document.
pub data Value : Type 0 where
  text : Text → Value
  number : ℤ → Value
  boolean : Bool → Value

-- `serialize` is the body that `serializeJson` writes when it has room, and its length is what
-- `measureJson` answers. A `Node` is a `JsonVariantConst`: `member` is `doc["key"]`, an `as_…` is the
-- conversion that the library makes (`none` for a null `const char*`), and `elements` is the array,
-- empty if there is none.
pub record ArduinoJson : Type 1 where
  pub Node : Type 0
  pub serialize : List (Text × Value) → Text
  pub deserialize : Text → Option Node
  pub member : Node → Text → Node
  pub is_bool : Node → Bool
  pub as_bool : Node → Bool
  pub as_text : Node → Option Text
  pub as_i32 : Node → ℤ
  pub as_u32 : Node → ℕ
  pub is_array : Node → Bool
  pub elements : Node → List Node
