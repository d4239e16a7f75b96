-- ===== src/Common/ConfigMapType.antt =====
-- The records of common/configmaptype.h. A `char *` that may be null is an `Option Str`; an array
-- with its count is a list.
use mapper_framework_c.Prelude.{ℕ, Bool, Option, none, some, List, get_elem?}
use mapper_framework_c.Prelude.Int.{ℤ}
use mapper_framework_c.Prelude.CString.{Str}

pub record ProtocolConfig : Type 0 where
  pub protocol_name : Option Str
  pub config_data : Option Str

pub record DeviceMethod : Type 0 where
  pub name : Option Str
  pub description : Option Str
  pub property_names : List (Option Str)

pub record DeviceStatus : Type 0 where
  pub report_to_cloud : Bool
  pub report_cycle : ℤ

pub record ModelProperty : Type 0 where
  pub name : Option Str
  pub data_type : Option Str
  pub description : Option Str
  pub access_mode : Option Str
  pub minimum : Option Str
  pub maximum : Option Str
  pub unit : Option Str

-- `pProperty` points into the property array of a device model: it is the index there.
pub record DeviceProperty : Type 0 where
  pub name : Option Str
  pub property_name : Option Str
  pub model_name : Option Str
  pub protocol : Option Str
  pub visitors : Option Str
  pub report_to_cloud : Bool
  pub collect_cycle : ℤ
  pub report_cycle : ℤ
  pub p_property : Option ℕ

pub record Metadata : Type 0 where
  pub timestamp : Option Str
  pub type_name : Option Str

pub record TwinProperty : Type 0 where
  pub value : Option Str
  pub metadata : Metadata

-- Where a `DeviceProperty *` points: at an element of the instance's own array, or at a block of
-- its own that the twin has to free.
pub data PropertyRef : Type 0 where
  embedded : ℕ → PropertyRef
  owned : DeviceProperty → PropertyRef

pub record Twin : Type 0 where
  pub property_name : Option Str
  pub property : Option PropertyRef
  pub observed_desired : TwinProperty
  pub reported : TwinProperty

pub record DeviceInstance : Type 0 where
  pub id : Option Str
  pub name : Option Str
  pub namespace : Option Str
  pub protocol_name : Option Str
  pub p_protocol : ProtocolConfig
  pub model : Option Str
  pub twins : List Twin
  pub properties : List DeviceProperty
  pub methods : List DeviceMethod
  pub status : DeviceStatus

pub record DeviceModel : Type 0 where
  pub id : Option Str
  pub name : Option Str
  pub namespace : Option Str
  pub description : Option Str
  pub properties : List ModelProperty

-- `*ref`
abbrev pub deref : List DeviceProperty → PropertyRef → Option DeviceProperty
deref properties (embedded i) = get_elem? properties i
deref properties (owned p) = some p

-- All fields zero.
abbrev pub no_value : TwinProperty
no_value = record { value = none; metadata = record { timestamp = none; type_name = none } }
