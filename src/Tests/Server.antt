-- ===== src/Tests/Server.antt =====
-- Witnesses of what holds for the REST server.
use mapper_framework_c.Prelude.{◌≡◌, refl, true, some, List, [], ◌∷◌, arith}
use mapper_framework_c.Prelude.CString.{codes, str_eq, after_last}
use mapper_framework_c.Prelude.Int.{pos}
use mapper_framework_c.Common.ConfigMapType.{Twin}
use mapper_framework_c.Parse.ResourceId.{get_resource_id}
use mapper_framework_c.Device.Manager.{device_manager_get, find_named, short_id}
use mapper_framework_c.Device.Twins.{find_twin}
use mapper_framework_c.Device.Panel.{done}
use mapper_framework_c.Http.Router.Scan.{IsSegment}
use mapper_framework_c.Http.Router.Paths.{get_method}
use mapper_framework_c.Http.Handlers.{plain, on_stack, router_callback}
use mapper_framework_c.Http.Handlers.Served.{
  read_answer, write_answer, router_callback-read, router_callback-write, router_callback-meta,
}
use mapper_framework_c.Tests.Samples.{
  wanted, settled_twin, sensor, with_twins, managing, plain_json,
}

default-IsSegment : IsSegment 63 (codes "default")
default-IsSegment = record { filled = cc; fits = omega arith; unslashed = refl }

sensor-IsSegment : IsSegment 63 (codes "sensor")
sensor-IsSegment = record { filled = cc; fits = omega arith; unslashed = refl }

method-IsSegment : IsSegment 63 (codes "SetProperty")
method-IsSegment = record { filled = cc; fits = omega arith; unslashed = refl }

threshold-IsSegment : IsSegment 63 (codes "threshold")
threshold-IsSegment = record { filled = cc; fits = omega arith; unslashed = refl }

seven-IsSegment : IsSegment 127 (codes "7")
seven-IsSegment = record { filled = cc; fits = omega arith; unslashed = refl }

get_by_id :
    (ts : List Twin)
    → device_manager_get
        (managing (with_twins ts ∷ []))
        (some (get_resource_id (some (codes "default")) (some (codes "sensor")) 256))
      ≡ some (with_twins ts)
unfolding device_manager_get find_named str_eq get_resource_id short_id after_last
get_by_id ts = refl

found_wanted : find_twin (codes "threshold") (wanted ∷ []) ≡ some wanted
unfolding find_twin str_eq
found_wanted = refl

router_callback-read_example :
    router_callback plain_json
      (codes "now")
      (pos 1)
      (managing (with_twins (settled_twin ∷ []) ∷ []))
      get_method
      (codes "/api/v1/device/default/sensor/threshold")
    ≡ read_answer plain_json
        (codes "now")
        (pos 1)
        (managing (with_twins (settled_twin ∷ []) ∷ []))
        (codes "default")
        (codes "sensor")
        (codes "threshold")
        (find_twin (codes "threshold") (settled_twin ∷ []))
router_callback-read_example =
    router_callback-read plain_json (codes "now") (pos 1)
      (managing (with_twins (settled_twin ∷ []) ∷ [])) (codes "default") (codes "sensor")
      (codes "threshold") default-IsSegment sensor-IsSegment threshold-IsSegment
      (get_by_id (settled_twin ∷ [])) refl

router_callback-write_example :
    router_callback plain_json
      (codes "now")
      (pos 1)
      (managing (sensor ∷ []))
      get_method
      (codes "/api/v1/devicemethod/default/sensor/SetProperty/threshold/7")
    ≡ write_answer plain_json
        (codes "now")
        (pos 1)
        (managing (sensor ∷ []))
        (codes "default")
        (codes "sensor")
        (codes "7")
        true
router_callback-write_example =
    router_callback-write plain_json (codes "now") (pos 1) (managing (sensor ∷ []))
      (codes "default") (codes "sensor") (codes "SetProperty") (codes "threshold") (codes "7")
      default-IsSegment sensor-IsSegment method-IsSegment threshold-IsSegment seven-IsSegment
      (get_by_id (wanted ∷ [])) found_wanted refl refl

router_callback-meta_example :
    router_callback plain_json
      (codes "now")
      (pos 1)
      (managing (sensor ∷ []))
      get_method
      (codes "/api/v1/meta/model/default/sensor")
    ≡ done (plain 500 (on_stack (codes "Get device model error: -1")))
router_callback-meta_example =
    router_callback-meta plain_json (codes "now") (pos 1) (managing (sensor ∷ [])) (codes "default")
      (codes "sensor") default-IsSegment sensor-IsSegment (get_by_id (wanted ∷ [])) refl refl
      (omega arith, tt)
