-- ===== src/Http/Handlers.antt =====
-- The handlers of httpserver/httpserver.c, lines 26 to 255, and the call of one of them by
-- `router_callback`.
pub mod Served
use mapper_framework_c.Prelude.{
  ℕ, Bool, true, false, if◌then◌else◌, Option, none, some, List, [], ◌∷◌, ◌++◌, or_default,
}
use mapper_framework_c.Prelude.Int.{ℤ, pos}
use mapper_framework_c.Prelude.CString.{Str, codes, print_int, snprintf}
use mapper_framework_c.Common.Const.{failure, is_zero}
use mapper_framework_c.Common.ConfigMapType.{DeviceInstance, DeviceModel}
use mapper_framework_c.Common.Cjson.{Cjson}
use mapper_framework_c.Parse.ResourceId.{get_resource_id}
use mapper_framework_c.Device.Types.{DeviceManager}
use mapper_framework_c.Device.Panel.{
  Outcome, crash, done, Reply, dev_panel_get_twin_result, dev_panel_write_device,
  dev_panel_get_device_method, dev_panel_get_device, dev_panel_get_model,
}
use mapper_framework_c.Http.Router.{
  Request, method_not_allowed, ping, database_get_data, not_found, device_read, device_write,
  get_device_method, meta_get_model, api_device_method, route,
}

-- The memory of a response: an allocation that the response owns, or a buffer on the stack of the
-- handler that queued it, which is gone when the response is sent.
pub data Body : Type 0 where
  empty : Body
  owned on_stack : Str → Body

pub record Response : Type 0 where
  pub status : ℕ
  pub json_content : Bool
  pub body : Body

abbrev pub plain : ℕ → Body → Response
plain status body = record { status = status; json_content = false; body = body }

-- The path that a method is listed with.
abbrev method_path : (namespace name method : Str) → Str
method_path namespace name method = snprintf 256 (
    api_device_method
    ++ b'/' ∷ (namespace ++ b'/' ∷ (name ++ b'/' ∷ (method ++ codes "/{propertyName}/{data}"))))

-- `time` is the text of `get_time_str`, `now` the time in milliseconds.
module _ (j : Cjson) (time : Str) (now : ℤ) (m : DeviceManager) where
  with_text : Cjson.Node j → Str → Str → Cjson.Node j
  with_text node key text = j.add_string_to_object node key (some text)

  -- A null pointer from cJSON is passed to `strlen`.
  unfoldable pub send_json_response : Cjson.Node j → ℕ → Outcome Response
  send_json_response resp status = elim (j.print_unformatted resp) [
    | none ↦ crash
    | some text ↦ done (record { status = status; json_content = true; body = owned text })
  ]

  -- The fields that all JSON answers begin with.
  unfoldable pub reply_head : ℕ → Cjson.Node j
  unfolding with_text
  reply_head status =
      with_text
        (j.add_number_to_object (with_text j.create_object (codes "apiVersion") (codes "v1"))
          (codes "statusCode") (pos status))
        (codes "timeStamp") time

  unfoldable pub message_reply : ℕ → Str → Outcome Response
  unfolding with_text send_json_response reply_head
  message_reply status msg =
      send_json_response (with_text (reply_head status) (codes "message") msg) status

  unfoldable pub data_reply : Cjson.Node j → Outcome Response
  unfolding send_json_response reply_head
  data_reply node =
      send_json_response (j.add_item_to_object (reply_head 200) (codes "data") node) 200

  unfoldable pub handle_ping : Outcome Response
  unfolding message_reply
  handle_ping = message_reply 200 (codes "This is v1 API, the server is running normally.")

  unfoldable pub read_document : (namespace name property value datatype : Str) → Cjson.Node j
  unfolding with_text
  read_document namespace name property value datatype =
      let node = with_text j.create_object (codes "deviceName") name in
      let node = with_text node (codes "propertyName") property in
      let node = with_text node (codes "deviceNamespace") namespace in
      let node = with_text node (codes "value") value in with_text node (codes "type") datatype

  abbrev answer_read : (namespace name property : Str) → Reply → Outcome Response
  answer_read namespace name property (err, found) = elim found [
    | none ↦
        if is_zero err
        then data_reply (read_document namespace name property [] [])
        else message_reply 500 (snprintf 256 (codes "Get device data error: " ++ print_int err))
    | some (value, datatype) ↦
        if is_zero err
        then data_reply (read_document namespace name property value datatype)
        else message_reply 500 (snprintf 256 (codes "Get device data error: " ++ print_int err))
  ]

  unfoldable pub handle_device_read : (namespace name property : Str) → Outcome Response
  unfolding data_reply message_reply read_document
  handle_device_read namespace name property =
      let id = get_resource_id (some namespace) (some name) 256 in
      elim (dev_panel_get_twin_result m (some id) property) [
        | crash ↦ crash
        | done reply ↦ answer_read namespace name property reply
      ]

  unfoldable pub handle_device_write :
      (namespace name method property data_text : Str) → Outcome Response
  unfolding message_reply
  handle_device_write namespace name method property data_text =
      let id = get_resource_id (some namespace) (some name) 256 in
      let err = dev_panel_write_device now m (some id) (some property) (some data_text) in
      if is_zero err
      then message_reply 200 (
          snprintf 512 (
            codes "Write data "
            ++ data_text
            ++ codes " to device "
            ++ id
            ++ codes " successfully."))
      else message_reply 500 (snprintf 512 (codes "Write device data error: " ++ print_int err))

  -- Method `i` is listed with the property at index `i` of all properties, if there is one.
  unfoldable pub add_methods :
      (namespace name : Str) → Cjson.Node j → List Str → List Str → Cjson.Node j
  unfolding with_text
  add_methods namespace name array [] properties = array
  add_methods namespace name array (method ∷ methods) properties =
      let node = with_text j.create_object (codes "name") method in
      let node = with_text node (codes "path") (method_path namespace name method) in
      let param = λ (p : Str).
        with_text (with_text j.create_object (codes "propertyName") p) (codes "valueType")
          (codes "string") in
      elim properties [
        | [] ↦
            add_methods namespace name
              (j.add_item_to_array array
                (j.add_item_to_object node (codes "parameters") j.create_array))
              methods []
        | p ∷ ps ↦
            add_methods namespace name
              (j.add_item_to_array array (
                j.add_item_to_object node (codes "parameters")
                  (j.add_item_to_array j.create_array (param p))))
              methods ps
      ]

  unfoldable pub handle_get_device_method : (namespace name : Str) → Outcome Response
  unfolding data_reply add_methods
  handle_get_device_method namespace name =
      let id = get_resource_id (some namespace) (some name) 256 in
      let (err, methods, properties) = dev_panel_get_device_method m (some id) in
      if is_zero err
      then data_reply (
          j.add_item_to_object j.create_object (codes "methods")
            (add_methods namespace name j.create_array methods properties))
      else done
          (plain 500 (on_stack (snprintf 512 (codes "Get device method error: " ++ print_int err))))

  abbrev model_document : DeviceModel → Cjson.Node j
  model_document model =
      let node = with_text j.create_object (codes "name") (or_default model.name []) in
      let node = with_text node (codes "namespace") (or_default model.namespace []) in
      with_text node (codes "description") (or_default model.description [])

  -- The codes that are printed are those of the panel's failures, -1.
  unfoldable pub answer_model : DeviceInstance → Outcome Response
  unfolding data_reply with_text
  answer_model inst =
      let id = get_resource_id inst.namespace inst.model 256 in
      elim (dev_panel_get_model m (some id)) [
        | none ↦ done (
            plain 500
              (on_stack (snprintf 512 (codes "Get device model error: " ++ print_int failure))))
        | some model ↦ data_reply (model_document model)
      ]

  unfoldable pub handle_meta_get_model : (namespace name : Str) → Outcome Response
  unfolding answer_model
  handle_meta_get_model namespace name =
      let id = get_resource_id (some namespace) (some name) 256 in
      elim (dev_panel_get_device m (some id)) [
        | none ↦
            done (
              plain 500 (on_stack (snprintf 512 (codes "Get device error: " ++ print_int failure))))
        | some inst ↦ answer_model inst
      ]

  unfoldable pub handle_database_get_data : Outcome Response
  unfolding data_reply
  handle_database_get_data = data_reply j.create_array

  unfoldable pub handle : Request → Outcome Response
  unfolding handle_ping handle_database_get_data
  handle method_not_allowed = done (plain 405 empty)
  handle ping = handle_ping
  handle (device_read ns name property) = handle_device_read ns name property
  handle (device_write ns name method property data_text) =
      handle_device_write ns name method property data_text
  handle (get_device_method ns name) = handle_get_device_method ns name
  handle (meta_get_model ns name) = handle_meta_get_model ns name
  handle database_get_data = handle_database_get_data
  handle not_found = done (plain 404 empty)

  unfoldable pub router_callback : (method url : Str) → Outcome Response
  unfolding handle
  router_callback method url = handle (route method url)
