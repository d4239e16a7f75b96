-- ===== src/Common/DataModel.antt =====
-- common/datamodel.c: the record that is stored and published for one value.
use mapper_framework_c.Prelude.{Option, none}
use mapper_framework_c.Prelude.Int.{ℤ}
use mapper_framework_c.Prelude.CString.{Str}

pub record DataModel : Type 0 where
  pub device_name : Option Str
  pub property_name : Option Str
  pub namespace : Option Str
  pub value : Option Str
  pub type_name : Option Str
  pub time_stamp : ℤ

-- `now` is what `time(NULL)` returns.
pub datamodel_new : ℤ → Option Str → Option Str → Option Str → DataModel
datamodel_new now device_name property_name namespace = record {
  device_name = device_name;
  property_name = property_name;
  namespace = namespace;
  value = none;
  type_name = none;
  time_stamp = now;
}

pub datamodel_set_type : DataModel → Option Str → DataModel
datamodel_set_type dm type_name = record dm { type_name = type_name }

pub datamodel_set_value : DataModel → Option Str → DataModel
datamodel_set_value dm value = record dm { value = value }

pub datamodel_set_timestamp : ℤ → DataModel → DataModel
datamodel_set_timestamp now dm = record dm { time_stamp = now }

pub datamodel_set_timestamp_value : DataModel → ℤ → DataModel
datamodel_set_timestamp_value dm timestamp = record dm { time_stamp = timestamp }
