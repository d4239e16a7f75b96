-- ===== src/GrpcServer/Apply.antt =====
-- grpcserver/server.cc, lines 280 to 290 and 381 to 436: the desired values of a message are put into
-- the twins of the device and written at once.
pub mod Found
pub mod Twins
pub mod Counted
use mapper_framework_c.Prelude.{
  ℕ, zero, suc, ◌+◌, Bool, true, false, ltb, ◌||◌, if◌then◌else◌, Option, none, some, List, [], ◌∷◌,
  ◌++◌, length, get_elem?, set,
}
use mapper_framework_c.Prelude.Int.{ℤ, pos, negsuc, leb_ℤ}
use mapper_framework_c.Prelude.CString.{Str}
use mapper_framework_c.Common.Const.{success, failure, is_zero}
use mapper_framework_c.Common.ConfigMapType.{Twin, TwinProperty, DeviceInstance}
use mapper_framework_c.Device.Types.{Device, DeviceManager}
use mapper_framework_c.Device.World.{World, Effect}
use mapper_framework_c.Device.Manager.{device_manager_get}
use mapper_framework_c.Device.Twins.{has_name}
use mapper_framework_c.Device.DealTwin.{Deal, device_deal_twin}
use mapper_framework_c.GrpcServer.DirectWrite.{
  get_apply_timeout_ms, get_device_timeout_ms, write_modbus_direct,
}

-- What the code reads of a `v1beta1::Device`. `desired` is `none` where the property has no desired
-- value. A text that is not set is empty.
pub record CloudProperty : Type 0 where
  pub name : Str
  pub desired : Option Str

pub record CloudDevice : Type 0 where
  pub name : Str
  pub namespace : Str
  pub spec : Option (List CloudProperty)

-- What is to be written for a property; `none` for the properties that the loops skip.
unfoldable pub wish : CloudProperty → Option Str
wish p = by_value p.desired
  where
    by_value : Option Str → Option Str
    by_value none = none
    by_value (some []) = none
    by_value (some (c ∷ s)) = some (c ∷ s)

-- How many milliseconds the calls take: that of `apply_desired_to_device`, and those of
-- `device_deal_twin` by the position of the property.
pub record Delays : Type 0 where
  pub apply_ms : ℤ
  pub deal_ms : ℕ → ℤ

-- The code where a call takes longer than its limit.
abbrev pub timed_out : ℤ
timed_out = negsuc 1

-- `fut.wait_for(limit)`. The destructor of the future waits for the call to end, so that its
-- changes and effects are there in any case.
abbrev pub within_limit : (limit took code : ℤ) → ℤ
within_limit limit took code = if leb_ℤ took limit then code else timed_out

unfoldable pub device_deal_twin_with_timeout : World → (took : ℤ) → DeviceInstance → Twin → Deal
device_deal_twin_with_timeout w took inst t =
    let deal = device_deal_twin w inst t in
    record deal { code = within_limit (get_device_timeout_ms w) took deal.code }

-- The first twin with the name, from position `i` on.
unfoldable pub match_name : Str → ℕ → List Twin → Option ℕ
match_name name i [] = none
match_name name i (t ∷ ts) =
    let rest = match_name name (suc i) ts in if has_name name t then some i else rest

unfoldable pub by_index : (i count : ℕ) → Option ℕ → Option ℕ
by_index i count (some k) = some k
by_index i count none = if ltb i count then some i else none

-- The twin that takes the value of property number `i`: by its name, or else by the number.
unfoldable pub match_index : Str → (i : ℕ) → List Twin → Option ℕ
unfolding by_index
match_index name i ts = by_index i (length ts) (match_name name 0 ts)

pub record Applied : Type 0 where
  pub twins : List Twin
  pub updated : ℕ
  pub fallback_ok : ℕ
  pub effects : List Effect

abbrev pub count_if : Bool → ℕ
count_if true = 1
count_if false = 0

-- The value is written by the command of the server.
unfoldable pub apply_directly : World → (name value : Str) → List Twin → List Effect → Applied
apply_directly w name value ts before =
    let (code, effects) = write_modbus_direct w name value in
    record {
      twins = ts;
      updated = 0;
      fallback_ok = count_if (is_zero code);
      effects = before ++ effects;
    }

abbrev pub desire : Str → Twin → Twin
desire value t = record t { observed_desired = record t.observed_desired { value = some value } }

unfoldable pub dealt : World → (name value : Str) → List Twin → ℕ → Deal → Applied
unfolding apply_directly
dealt w name value ts k deal =
    if is_zero deal.code
    then record { twins = set ts k deal.twin; updated = 1; fallback_ok = 0; effects = deal.effects }
    else apply_directly w name value (set ts k deal.twin) deal.effects

unfoldable pub apply_at :
    World → (took : ℤ) → DeviceInstance → (name value : Str) → List Twin → Option ℕ → Applied
unfolding dealt
apply_at w took inst name value ts none = apply_directly w name value ts []
apply_at w took inst name value ts (some k) = elim (get_elem? ts k) [
  | none ↦ apply_directly w name value ts []
  | some t ↦ dealt w name value ts k (device_deal_twin_with_timeout w took inst (desire value t))
]

-- One property with a desired value. `device_deal_twin` reads the instance only in fields that stay
-- as they are.
unfoldable pub apply_value :
    World → (took : ℤ) → DeviceInstance → (i : ℕ) (name value : Str) → List Twin → Applied
unfolding apply_at
apply_value w took inst i name value ts = apply_at w took inst name value ts (match_index name i ts)

abbrev pub nothing_applied : List Twin → Applied
nothing_applied ts = record { twins = ts; updated = 0; fallback_ok = 0; effects = [] }

-- One round of the loop.
unfoldable pub apply_property :
    World → (took : ℤ) → DeviceInstance → (i : ℕ) → CloudProperty → List Twin → Applied
apply_property w took inst i p ts = elim (wish p) [
  | none ↦ nothing_applied ts
  | some value ↦ apply_value w took inst i p.name value ts
]

unfoldable pub apply_properties :
    World → (took : ℕ → ℤ) → DeviceInstance → List CloudProperty → ℕ → List Twin → Applied
apply_properties w took inst [] i ts = nothing_applied ts
apply_properties w took inst (p ∷ ps) i ts =
    let one = apply_property w (took i) inst i p ts in
    let rest = apply_properties w took inst ps (suc i) one.twins in
    record {
      twins = rest.twins;
      updated = one.updated + rest.updated;
      fallback_ok = one.fallback_ok + rest.fallback_ok;
      effects = one.effects ++ rest.effects;
    }
