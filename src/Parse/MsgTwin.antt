-- ===== src/Parse/MsgTwin.antt =====
-- util/parse/type.c, lines 95 to 134: twins of an event to messages of the device manager service.
use mapper_framework_c.Prelude.{Option, some, List, [], ◌∷◌}
use mapper_framework_c.Prelude.CString.{Str, codes}
use mapper_framework_c.Common.Outcome.{Outcome, done, ◌>>=◌, deref}
use mapper_framework_c.Parse.TwinConv.{GrpcTwin, GrpcTwinProperty}

-- The records of common/eventtype.h.
pub record TwinValue : Type 0 where
  pub value : Option Str
  pub timestamp : Option Str

pub record MsgTwin : Type 0 where
  pub expected : Option TwinValue
  pub actual : Option TwinValue
  pub type_name : Option (Option Str)

property_message : (value type_name timestamp : Option Str) → GrpcTwinProperty
property_message value type_name timestamp = record {
  value = value;
  metadata =
      record { key = codes "type"; value = type_name }
      ∷ record { key = codes "timestamp"; value = timestamp }
      ∷ [];
}

-- The time stamp of the actual value goes to both properties. `fault` is a null pointer.
unfoldable pub msg_twin_to_grpc : (name : Option Str) → MsgTwin → Outcome GrpcTwin
unfolding property_message
msg_twin_to_grpc name t = do
  actual ← deref t.actual
  type_name ← deref t.type_name
  expected ← deref t.expected
  done (record {
    property_name = name;
    observed_desired = some (property_message expected.value type_name actual.timestamp);
    reported = some (property_message actual.value type_name actual.timestamp);
  })

-- The names and the twins are arrays of one length.
unfoldable pub conv_msg_twin_to_grpc : List (Option Str × MsgTwin) → Outcome (List GrpcTwin)
conv_msg_twin_to_grpc [] = done []
conv_msg_twin_to_grpc ((name, t) ∷ ts) = do
  one ← msg_twin_to_grpc name t
  rest ← conv_msg_twin_to_grpc ts
  done (one ∷ rest)
