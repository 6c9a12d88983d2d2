-- ===== src/Json.antt =====
-- serde_json's `Value`, as crates/pulsestream-core uses it. A `Number` is opaque to the code and is
-- represented by the JSON text that serde_json prints for it; an object lists its entries, which
-- have distinct keys, in the order in which the map yields them.
use pulse_stream.Common.{Text, Bool, true, false}

pub data Scalar : Type 0 where
  null : Scalar
  bool : Bool → Scalar
  number : Text → Scalar
  string : Text → Scalar

mutual
  pub data Value : Type 0 where
    scalar : Scalar → Value
    array : Items → Value
    object : Fields → Value

  pub data Fields : Type 0 where
    with_entry : Text → Value → Fields → Fields
    no_entry : Fields

  pub data Items : Type 0 where
    item : Value → Items → Items
    no_item : Items

-- `Value::is_null`.
unfoldable pub is_null : Value → Bool
is_null (scalar null) = true
is_null (scalar (bool b)) = false
is_null (scalar (number t)) = false
is_null (scalar (string t)) = false
is_null (array xs) = false
is_null (object fs) = false
