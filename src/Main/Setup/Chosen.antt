-- ===== src/Main/Setup/Chosen.antt =====
-- The configuration text for MySQL is whole, and the publisher is the one that was asked for.
use mapper_framework_c.Prelude.{
  ℕ, ◌+◌, ◌≤◌, ◌≡◌, ◌≢◌, refl, ap, sym, true, Option, none, some, [], ◌∷◌, ◌++◌, length,
  length-append, take_all, arith, if◌then◌else◌, or_default,
}
use mapper_framework_c.Prelude.Int.{pos, ltb_ℤ}
use mapper_framework_c.Prelude.CString.{Str, codes, str_case_eq, print_int, length-print_int-le}
use mapper_framework_c.Common.Outcome.{done}
use mapper_framework_c.Config.{DatabaseMysqlConfig}
use mapper_framework_c.Config.Sections.{MysqlFits}
use mapper_framework_c.Database.Env.{Env, non_empty}
use mapper_framework_c.Publish.Publisher.{
  Publisher, Libraries, PublishMethodType, publish_method_unknown, publish_method_http,
  publish_method_mqtt, publish_method_otel, publisher_get_type_from_string,
  publisher_get_type_string, publisher_new,
}
use mapper_framework_c.Publish.Publisher.Choice.{
  IsTyped, publisher_new-IsTyped, publisher_get_type_from_string_iff,
}
use mapper_framework_c.Main.Setup.{
  or_text, mysql_json_text, mysql_json, publisher_for, setup_publisher,
}

length-or_text-le : (s d : Str) (n : ℕ) → length s ≤ n → length d ≤ n → length (or_text s d) ≤ n
length-or_text-le [] d n h k = k
length-or_text-le (c ∷ s) d n h k = h

-- The length of a text with a key and a value put behind it.
extend-le :
    (s key value : Str) (m n k : ℕ)
    → length s ≤ m
    → length value ≤ n
    → m + length key + n ≤ k
    → length (s ++ key ++ value) ≤ k
extend-le s key value m n k h v b =
    omega (arith, length-append s key, length-append (s ++ key) value)

length-mysql_json_text-le :
    (c : DatabaseMysqlConfig) → MysqlFits c → length (mysql_json_text c) ≤ 511
unfolding mysql_json_text
length-mysql_json_text-le c h =
    let (a, d, u, m, p) = h.texts in
    let addr = or_text c.addr (codes "127.0.0.1") in
    let database = or_text c.database (codes "testdb") in
    let username = or_text c.username (codes "mapper") in
    let port = print_int (if ltb_ℤ (pos 0) c.port then c.port else pos 3306) in
    let ssl_mode = or_text c.ssl_mode (codes "DISABLED") in
    let first = codes "{\"addr\":\"" ++ addr in
    let second = first ++ codes "\",\"database\":\"" ++ database in
    let third = second ++ codes "\",\"userName\":\"" ++ username in
    let fourth = third ++ codes "\",\"password\":\"" ++ c.password in
    let fifth = fourth ++ codes "\",\"port\":" ++ port in
    let l1 : length first ≤ 136 =
      extend-le [] (codes "{\"addr\":\"") addr 0 127 136 (omega arith)
        (length-or_text-le c.addr (codes "127.0.0.1") 127 (omega arith) (omega arith))
        (omega arith) in
    let l2 : length second ≤ 213 =
      extend-le first (codes "\",\"database\":\"") database 136 63 213 l1
        (length-or_text-le c.database (codes "testdb") 63 (omega arith) (omega arith))
        (omega arith) in
    let l3 : length third ≤ 290 =
      extend-le second (codes "\",\"userName\":\"") username 213 63 290 l2
        (length-or_text-le c.username (codes "mapper") 63 (omega arith) (omega arith))
        (omega arith) in
    let l4 : length fourth ≤ 367 =
      extend-le third (codes "\",\"password\":\"") c.password 290 63 367 l3 (omega arith)
        (omega arith) in
    let l5 : length fifth ≤ 397 =
      extend-le fourth (codes "\",\"port\":") port 367 21 397 l4
        (length-print_int-le (if ltb_ℤ (pos 0) c.port then c.port else pos 3306)) (omega arith) in
    let l6 =
      extend-le fifth (codes ",\"ssl_mode\":\"") ssl_mode 397 15 425 l5
        (length-or_text-le c.ssl_mode (codes "DISABLED") 15 (omega arith) (omega arith))
        (omega arith) in
    let sixth = fifth ++ codes ",\"ssl_mode\":\"" ++ ssl_mode in
    omega (arith, l6, length-append sixth (codes "\"}"))

-- For a configuration whose texts fit their arrays, the JSON text that is built for the client is not
-- cut by its buffer of 512 bytes.
pub mysql_json-whole : (c : DatabaseMysqlConfig) → MysqlFits c → mysql_json c ≡ mysql_json_text c
unfolding mysql_json
mysql_json-whole c h = take_all 511 (mysql_json_text c) (length-mysql_json_text-le c h)

publisher_new_known :
    {p : Publisher} (l : Libraries) (t : PublishMethodType) (json : Str)
    → publisher_new l t (some json) ≡ done (some p)
    → t ≢ publish_method_unknown
unfolding publisher_new
publisher_new_known l publish_method_unknown json h = absurd cc
publisher_new_known l publish_method_http json h = cc
publisher_new_known l publish_method_mqtt json h = cc
publisher_new_known l publish_method_otel json h = cc

-- What is known of a publisher that was asked for by name.
pub record Chosen (method config : Option Str) (p : Publisher) : Type 0 where
  pub is_typed : IsTyped p
  pub named : str_case_eq (or_default method []) (publisher_get_type_string p.type_of) ≡ true
  pub configured : config ≡ some p.config_json

publisher_for-Chosen :
    {p : Publisher} (l : Libraries) (method config : Option Str)
    → publisher_for l method config ≡ done (some p)
    → Chosen method config p
publisher_for-Chosen {p = p} l (some method) (some config) h =
    let t = publisher_get_type_from_string (some method) in
    let (i, e, k) = publisher_new-IsTyped l t config h in
    let n = publisher_new_known l t config h in
    record {
      is_typed = i;
      named = rw e ((publisher_get_type_from_string_iff method t n).0 refl);
      configured = ap some (sym k);
    }
publisher_for-Chosen l none config h = absurd cc
publisher_for-Chosen l (some method) none h = absurd cc

-- A publisher that `main` sets up has a handle of its own type, its type is the one that the variable
-- PUBLISH_METHOD names, in any case, and its configuration is the variable PUBLISH_CONFIG, where both
-- count as missing if they are empty.
pub setup_publisher-Chosen :
    {p : Publisher} (l : Libraries) (env : Env)
    → setup_publisher l env ≡ done (some p)
    → Chosen (non_empty (env (codes "PUBLISH_METHOD"))) (non_empty (env (codes "PUBLISH_CONFIG"))) p
unfolding setup_publisher
setup_publisher-Chosen l env h = publisher_for-Chosen l _ _ h
