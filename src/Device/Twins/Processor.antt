-- ===== src/Device/Twins/Processor.antt =====
-- device/devicetwin.c, lines 256 to 276 and 304 to 375: the records of the twin processor and its
-- manager, the configuration of a visitor, and the calls that only check their pointers.
use mapper_framework_c.Prelude.{
  ℕ, Bool, true, false, is_some, ◌&&◌, if◌then◌else◌, Option, none, some, List, [],
}
use mapper_framework_c.Prelude.Int.{ℤ, pos}
use mapper_framework_c.Prelude.CString.{Str, codes}
use mapper_framework_c.Common.Const.{success, failure}
use mapper_framework_c.Common.Cjson.{CjsonReader, Item}
use mapper_framework_c.Common.ConfigMapType.{Twin}
use mapper_framework_c.Driver.{VisitorConfig}
use mapper_framework_c.Device.Types.{Device}

pub record TwinProcessor : Type 0 where
  pub property_name : Option Str
  pub data_type : Str
  pub access_mode : Str
  pub report_cycle : ℤ
  pub report_thread_running : Bool

-- `alloc` says whether `calloc` returns memory.
unfoldable pub devicetwin_processor_new : (alloc : Bool) → Option Twin → Option TwinProcessor
devicetwin_processor_new true (some t) = some (record {
  property_name = t.property_name;
  data_type = codes "string";
  access_mode = codes "ReadWrite";
  report_cycle = pos 10000;
  report_thread_running = false;
})
devicetwin_processor_new _ _ = none

pub record TwinManager : Type 0 where
  pub processors : List TwinProcessor
  pub capacity : ℕ

-- The flags: the `calloc` of the manager, that of its array and `pthread_mutex_init`.
unfoldable pub devicetwin_manager_new : (alloc array_alloc mutex_ok : Bool) → Option TwinManager
devicetwin_manager_new true true true = some (record { processors = []; capacity = 10 })
devicetwin_manager_new _ _ _ = none

protocol_in : Option Item → (old : Option Str) → Option Str
protocol_in none old = old
protocol_in (some i) old = elim i.value_string [ none ↦ old | some s ↦ some s ]

-- The code and the configuration, which is `old` before: an item that is no text leaves the name of
-- the protocol as it is.
unfoldable pub devicetwin_parse_visitor_config :
    CjsonReader → (config_data : Option Str) → (old : VisitorConfig) → ℤ × VisitorConfig
unfolding protocol_in
devicetwin_parse_visitor_config r none old = (failure, old)
devicetwin_parse_visitor_config r (some s) old = elim (r.parse s) [
  | none ↦ (failure, old)
  | some root ↦ (
    success,
    record old {
      protocol_name = protocol_in (r.get_object_item root (codes "protocolName")) old.protocol_name;
      config_data = some s;
    },
  )
]

-- Placeholders of the source.
unfoldable pub devicetwin_start_auto_report : Option Device → Option Twin → ℤ
devicetwin_start_auto_report d t = if is_some d && is_some t then success else failure

unfoldable pub devicetwin_stop_auto_report : Option Device → Option Str → ℤ
devicetwin_stop_auto_report d name = if is_some d && is_some name then success else failure
