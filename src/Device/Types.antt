-- ===== src/Device/Types.antt =====
-- The records of device/device.h and device/devicetwin.h.
use mapper_framework_c.Prelude.{ℕ, Bool, Option, List}
use mapper_framework_c.Prelude.Int.{ℤ}
use mapper_framework_c.Prelude.CString.{Str}
use mapper_framework_c.Common.ConfigMapType.{DeviceInstance, DeviceModel}
use mapper_framework_c.Driver.{CustomizedClient}

-- `data_thread` is the thread's handle, `none` for 0.
pub record Device : Type 0 where
  pub instance_of : DeviceInstance
  pub model : DeviceModel
  pub client : Option CustomizedClient
  pub status : Option Str
  pub stop_chan : Bool
  pub data_thread : Option ℕ
  pub data_thread_running : Bool

-- `devices` is the used part of the array: `deviceCount` is its length. `slots` is the size of the
-- block that the array has, which the source does not store.
pub record DeviceManager : Type 0 where
  pub devices : List Device
  pub capacity : ℕ
  pub slots : ℕ
  pub stopped : Bool

pub record TwinResult : Type 0 where
  pub succeeded : Bool
  pub value : Option Str
  pub error : Option Str
  pub timestamp : ℤ
