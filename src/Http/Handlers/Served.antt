-- ===== src/Http/Handlers/Served.antt =====
-- What a client of the REST server gets, from the path to the answer.
use mapper_framework_c.Prelude.{
  ◌≡◌, Bool, true, false, Option, none, some, is_some, [], ◌∷◌, ◌++◌, or_default,
}
use mapper_framework_c.Prelude.Int.{ℤ}
use mapper_framework_c.Prelude.CString.{Str, codes, print_int, snprintf}
use mapper_framework_c.Common.Const.{success}
use mapper_framework_c.Common.ConfigMapType.{Twin}
use mapper_framework_c.Common.Cjson.{Cjson}
use mapper_framework_c.Parse.ResourceId.{get_resource_id, printed, has_slash}
use mapper_framework_c.Device.Types.{Device, DeviceManager}
use mapper_framework_c.Device.Manager.{device_manager_get}
use mapper_framework_c.Device.Twins.{find_twin}
use mapper_framework_c.Device.Panel.{
  Outcome, done, dev_panel_get_twin_result, dev_panel_write_device, dev_panel_get_device,
}
use mapper_framework_c.Device.Panel.Reads.{
  reply_for, all_named, dev_panel_get_twin_result_lem, dev_panel_write_device_iff,
}
use mapper_framework_c.Device.Panel.Models.{ShortNamespaces, dev_panel_get_model-get_resource_id}
use mapper_framework_c.Http.Router.{api_device, api_device_method, api_meta_model}
use mapper_framework_c.Http.Router.Scan.{IsSegment, path}
use mapper_framework_c.Http.Router.Paths.{
  get_method, route-device_read, route-device_write, route-meta_get_model,
}
use mapper_framework_c.Http.Handlers.{
  on_stack, Response, plain, message_reply, data_reply, read_document, handle_device_read,
  handle_device_write, handle_meta_get_model, answer_model, handle, router_callback,
}

module _ (j : Cjson) (time : Str) (now : ℤ) (m : DeviceManager) where
  -- The answer to a read that found a twin, or found none.
  abbrev pub read_answer : (namespace name property : Str) → Option Twin → Outcome Response
  read_answer namespace name property none =
      message_reply j time now m 500 (codes "Get device data error: -1")
  read_answer namespace name property (some t) = data_reply j time now m (
      read_document j time now m namespace name property
        (or_default t.reported.value (codes "null")) (codes "string"))

  read_found :
      (namespace name property : Str) (t : Option Twin)
      → dev_panel_get_twin_result m
          (some (get_resource_id (some namespace) (some name) 256))
          property
        ≡ done (reply_for t)
      → handle_device_read j time now m namespace name property
        ≡ read_answer namespace name property t
  unfolding handle_device_read print_int
  read_found namespace name property none e = rw (e, handle_device_read)
  read_found namespace name property (some t) e = rw (e, handle_device_read)

  -- A read of a device's property over HTTP: the request is taken apart, the device is found by
  -- its identifier, and the answer is the reported value of its first twin of that name, or a
  -- failure if there is no such twin. The parts of the path are not empty, have no slash and at
  -- most 63 bytes; the device is known and its twins have names.
  pub router_callback-read :
      (namespace name property : Str) {d : Device}
      → IsSegment 63 namespace
      → IsSegment 63 name
      → IsSegment 63 property
      → device_manager_get m (some (get_resource_id (some namespace) (some name) 256)) ≡ some d
      → all_named d.instance_of.twins ≡ true
      → router_callback j time now m get_method
          (api_device ++ path (namespace ∷ name ∷ property ∷ []))
        ≡ read_answer namespace name property (find_twin property d.instance_of.twins)
  unfolding router_callback handle
  router_callback-read namespace name property {d} a b c e n =
      rw (route-device_read namespace name property a b c) (
        read_found namespace name property (find_twin property d.instance_of.twins)
          (dev_panel_get_twin_result_lem m _ property e n))

  -- The answer to a write that succeeded, and to one that failed.
  abbrev pub write_answer : (namespace name data_text : Str) → Bool → Outcome Response
  write_answer namespace name data_text true = message_reply j time now m 200 (
      snprintf 512 (
        codes "Write data "
        ++ data_text
        ++ codes " to device "
        ++ get_resource_id (some namespace) (some name) 256
        ++ codes " successfully."))
  write_answer namespace name data_text false =
      message_reply j time now m 500 (codes "Write device data error: -1")

  -- A write over HTTP answers 200 if the device has what a write needs: a client, and a first
  -- twin of that name that has a property. The parts of the path are not empty, have no slash and
  -- at most 63 bytes, the value at most 127; the device is known.
  pub router_callback-write :
      (namespace name method property data_text : Str) {d : Device} {t : Twin}
      → IsSegment 63 namespace
      → IsSegment 63 name
      → IsSegment 63 method
      → IsSegment 63 property
      → IsSegment 127 data_text
      → device_manager_get m (some (get_resource_id (some namespace) (some name) 256)) ≡ some d
      → find_twin property d.instance_of.twins ≡ some t
      → is_some t.property ≡ true
      → is_some d.client ≡ true
      → router_callback j time now m get_method
          (api_device_method ++ path (namespace ∷ name ∷ method ∷ property ∷ data_text ∷ []))
        ≡ write_answer namespace name data_text true
  unfolding router_callback handle
  router_callback-write namespace name method property data_text {d} {t} a b c p v e f q k =
      rw (route-device_write namespace name method property data_text a b c p v)
        (unfold handle_device_write in rw written)
    where
      written :
          dev_panel_write_device now m
            (some (get_resource_id (some namespace) (some name) 256))
            (some property)
            (some data_text)
          ≡ success
      written =
          (dev_panel_write_device_iff now m _ property data_text).1 (d, t, e, f, q, v.filled, k)

  -- A request for the model of a known device always fails with 500: the identifier that the
  -- handler asks the panel for is never that of a model. The parts of the path are not empty,
  -- have no slash and at most 63 bytes; the device has no slash in its namespace or its model,
  -- and all models have namespaces shorter than 255 bytes. The text of the answer is in a buffer
  -- on the stack of the handler.
  pub router_callback-meta :
      (namespace name : Str) {d : Device}
      → IsSegment 63 namespace
      → IsSegment 63 name
      → device_manager_get m (some (get_resource_id (some namespace) (some name) 256)) ≡ some d
      → has_slash (printed d.instance_of.namespace) ≡ false
      → has_slash (printed d.instance_of.model) ≡ false
      → ShortNamespaces m.devices
      → router_callback j time now m get_method (api_meta_model ++ path (namespace ∷ name ∷ []))
        ≡ done (plain 500 (on_stack (codes "Get device model error: -1")))
  unfolding router_callback handle handle_meta_get_model dev_panel_get_device
  router_callback-meta namespace name {d} a b e h k s =
      rw (route-meta_get_model namespace name a b, e, handle_meta_get_model, dev_panel_get_device)
        (unfold answer_model print_int in
          rw (
            dev_panel_get_model-get_resource_id m d.instance_of.namespace d.instance_of.model 256 s
                h k,
            answer_model,
          ))
