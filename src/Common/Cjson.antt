-- ===== src/Common/Cjson.antt =====
-- The part of the cJSON library that the framework builds and reads its JSON texts with. cJSON is
-- not part of the repository, so it is a parameter: objects and arrays are values, and one is added
-- to another when it is complete, as all callers do.
use mapper_framework_c.Prelude.{Bool, Option, List}
use mapper_framework_c.Prelude.Int.{ℤ}
use mapper_framework_c.Prelude.CString.{Str}

pub record Cjson : Type 1 where
  pub Node : Type 0
  pub create_object : Node
  pub add_string_to_object : Node → Str → Option Str → Node
  pub add_number_to_object : Node → Str → ℤ → Node
  pub add_item_to_object : Node → Str → Node → Node
  pub create_array : Node
  pub add_item_to_array : Node → Node → Node
  pub print_unformatted : Node → Option Str

-- An item of a parsed object, with the fields of `cJSON` that are read. `value_string` is null for
-- all but texts; `value_double` is the integer part of the number.
pub record Item : Type 0 where
  pub value_string : Option Str
  pub value_int : ℤ
  pub is_number : Bool
  pub value_double : ℤ

-- The reading side. `object_items` are the names and the items of the object that an item is, where
-- it is one.
pub record CjsonReader : Type 1 where
  pub Root : Type 0
  pub parse : Str → Option Root
  pub get_object_item : Root → Str → Option Item
  pub object_items : Root → Str → Option (List (Str × Item))
