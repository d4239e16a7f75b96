-- ===== src/Device/DataThread.antt =====
-- device/device.c, lines 158 to 218: one round of the data thread of a device, under its mutex.
pub mod Settles
use mapper_framework_c.Prelude.{
  Bool, true, false, if◌then◌else◌, Option, none, some, List, [], ◌∷◌, ◌++◌,
}
use mapper_framework_c.Prelude.CString.{Str, str_eq, snprintf, print_int}
use mapper_framework_c.Common.Const.{device_status_ok}
use mapper_framework_c.Common.ConfigMapType.{Twin, DeviceInstance}
use mapper_framework_c.Device.Types.{Device}
use mapper_framework_c.Device.World.{World, Effect}
use mapper_framework_c.Device.Simulate.{Simulation, simulate_temperature_data}
use mapper_framework_c.Device.DealTwin.{is_simulated, report, record_effects, device_deal_twin}

pub record TwinStep : Type 0 where
  pub twin : Twin
  pub simulation : Simulation
  pub effects : List Effect

-- `if (!twin->reported.value || strcmp(twin->reported.value, buf) != 0)`
refresh : World → Twin → Str → Twin
refresh w t buf = by_old t.reported.value
  where
    by_old : Option Str → Twin
    by_old none = report w t buf
    by_old (some old) = if str_eq old buf then t else report w t buf

unfoldable pub simulated_step : World → DeviceInstance → Simulation → Twin → TwinStep
unfolding refresh
simulated_step w inst s t =
    let s' = simulate_temperature_data s in
    let t' = refresh w t (snprintf 32 (print_int s'.current)) in
    record { twin = t'; simulation = s'; effects = record_effects w inst t' t'.reported.value }

unfoldable pub dealt_step : World → DeviceInstance → Simulation → Twin → TwinStep
dealt_step w inst s t =
    let d = device_deal_twin w inst t in
    record { twin = d.twin; simulation = s; effects = d.effects }

unfoldable pub named_step : World → DeviceInstance → Simulation → Twin → Option Str → TwinStep
named_step w inst s t none = record { twin = t; simulation = s; effects = [] }
named_step w inst s t (some name) =
    if is_simulated w t then simulated_step w inst s t else dealt_step w inst s t

-- The body of the loop over the twins.
unfoldable pub thread_twin : World → DeviceInstance → Simulation → Twin → TwinStep
unfolding named_step
thread_twin w inst s t = named_step w inst s t t.property_name

pub record Pass : Type 0 where
  pub twins : List Twin
  pub simulation : Simulation
  pub effects : List Effect

-- The device is read only in fields that the loop leaves alone, so `inst` is the one before it.
unfoldable pub pass_twins : World → DeviceInstance → Simulation → List Twin → Pass
pass_twins w inst s [] = record { twins = []; simulation = s; effects = [] }
pass_twins w inst s (t ∷ ts) =
    let one = thread_twin w inst s t in
    let rest = pass_twins w inst one.simulation ts in
    record {
      twins = one.twin ∷ rest.twins;
      simulation = rest.simulation;
      effects = one.effects ++ rest.effects;
    }

pub record Round : Type 0 where
  pub device : Device
  pub simulation : Simulation
  pub effects : List Effect

abbrev is_ok : Option Str → Bool
is_ok none = false
is_ok (some s) = str_eq s device_status_ok

-- A device whose status is not "ok" is left alone. Its status text is never null: `device_new`
-- sets it.
unfoldable pub data_thread_round : World → Device → Simulation → Round
data_thread_round w d s =
    let p = pass_twins w d.instance_of s d.instance_of.twins in
    if is_ok d.status
    then record {
      device = record d { instance_of = record (d.instance_of) { twins = p.twins } };
      simulation = p.simulation;
      effects = p.effects;
    }
    else record { device = d; simulation = s; effects = [] }
