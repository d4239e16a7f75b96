-- ===== src/Publish/Fields.antt =====
-- What the publishers share: how a field of a configuration is read, the document of a value, and
-- the test of an answer (data/publish/http/http_publisher.c and data/publish/mqtt/mqtt_publisher.c).
use mapper_framework_c.Prelude.{Bool, false, ◌&&◌, [], Option, none, some, or_default}
use mapper_framework_c.Prelude.Int.{ℤ, pos, leb_ℤ, ltb_ℤ}
use mapper_framework_c.Prelude.CString.{Str, codes}
use mapper_framework_c.Common.Cjson.{Cjson, Item}
use mapper_framework_c.Common.DataModel.{DataModel}
use mapper_framework_c.Common.Outcome.{Outcome, done, ◌>>=◌, deref}

-- `item ? strdup(item->valuestring) : strdup(default)`
abbrev pub text_field : Option Item → Str → Outcome Str
text_field none d = done d
text_field (some i) d = deref i.value_string

-- `item ? strdup(item->valuestring) : NULL`
abbrev pub optional_field : Option Item → Outcome (Option Str)
optional_field none = done none
optional_field (some i) = do t ← deref i.value_string; done (some t)

-- `item ? item->valueint : default`
abbrev pub int_field : Option Item → ℤ → ℤ
int_field none d = d
int_field (some i) d = i.value_int

-- The document that the HTTP and the MQTT publisher send.
unfoldable pub data_document : (cjson : Cjson) → DataModel → cjson.Node
data_document cjson dm =
    let text = λ (key : Str) (value : Option Str) (default : Str) (n : cjson.Node).
      cjson.add_string_to_object n key (some (or_default value default)) in
    cjson.add_number_to_object
      (text (codes "type") dm.type_name (codes "string") (
        text (codes "value") dm.value [] (
          text (codes "propertyName") dm.property_name [] (
            text (codes "namespace") dm.namespace []
              (text (codes "deviceName") dm.device_name [] cjson.create_object)))))
      (codes "timestamp") dm.time_stamp

-- `response_code >= 200 && response_code < 300` after a transfer that succeeded; `none` is a
-- transfer that failed.
abbrev pub is_delivered : Option ℤ → Bool
is_delivered none = false
is_delivered (some code) = leb_ℤ (pos 200) code && ltb_ℤ code (pos 300)
