-- ===== src/Common/Event.antt =====
-- common/event.c: the message of a twin's update.
use mapper_framework_c.Prelude.{ℕ, ◌+◌, ◌*◌, ◌/◌, Option}
use mapper_framework_c.Prelude.Int.{pos}
use mapper_framework_c.Prelude.CString.{Str, codes}
use mapper_framework_c.Common.Cjson.{Cjson}

-- The seconds and microseconds are those of `gettimeofday`.
unfoldable pub get_timestamp_ms : (seconds microseconds : ℕ) → ℕ
get_timestamp_ms seconds microseconds = seconds * 1000 + microseconds / 1000

one_text : (j : Cjson) → (key : Str) → Option Str → Cjson.Node j
one_text j key value = j.add_string_to_object j.create_object key value

unfoldable pub create_message_twin_update :
    Cjson
    → (seconds microseconds : ℕ) → (name : Str) → (value_type value expect_value : Option Str)
    → Option Str
unfolding one_text
create_message_twin_update j seconds microseconds name value_type value expect_value =
    let ts = get_timestamp_ms seconds microseconds in
    let base = j.add_number_to_object j.create_object (codes "Timestamp") (pos ts) in
    let root = j.add_item_to_object j.create_object (codes "BaseMessage") base in
    let actual =
      j.add_item_to_object j.create_object (codes "Actual") (one_text j (codes "Value") value) in
    let expected =
      j.add_item_to_object actual (codes "Expected") (one_text j (codes "Value") expect_value) in
    let item =
      j.add_item_to_object expected (codes "Metadata") (one_text j (codes "Type") value_type) in
    let twin = j.add_item_to_object j.create_object name item in
    j.print_unformatted (j.add_item_to_object root (codes "Twin") twin)
