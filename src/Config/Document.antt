-- ===== src/Config/Document.antt =====
-- A file with all keys is read as it is meant.
use mapper_framework_c.Prelude.{
  ◌≡◌, refl, Bool, true, false, ◌||◌, some, List, [], ◌∷◌, arith, take_all,
}
use mapper_framework_c.Prelude.CString.{Str, codes, str_eq, str_case_eq, atoi}
use mapper_framework_c.Config.Sections.{ConfigFits}
use mapper_framework_c.Config.{
  Config, CommonConfig, DatabaseMysqlConfig, Token, stream_end, key_token, value_token,
  block_mapping_start, block_end, other_token, scalar, store_grpc_server, store_common, store_mysql,
  store_value, enter, leave, step, scan_tokens, config_parse,
}

-- The tokens of a file with all keys.
abbrev opened : Str → List Token → List Token
opened key ts = key_token ∷ scalar key ∷ value_token ∷ block_mapping_start ∷ ts

abbrev entries : List (Str × Str) → List Token → List Token
entries [] ts = ts
entries ((key, v) ∷ kvs) ts = key_token ∷ scalar key ∷ value_token ∷ scalar v ∷ entries kvs ts

abbrev filled : Str → List (Str × Str) → List Token → List Token
filled key kvs ts = opened key (entries kvs (block_end ∷ ts))

abbrev pub switch_text : Bool → Str
switch_text true = codes "true"
switch_text false = codes "false"

abbrev common_entries : CommonConfig → List (Str × Str)
common_entries c =
    (codes "name", c.name)
    ∷ (codes "version", c.version)
    ∷ (codes "api_version", c.api_version)
    ∷ (codes "protocol", c.protocol)
    ∷ (codes "address", c.address)
    ∷ (codes "edgecore_sock", c.edgecore_sock)
    ∷ (codes "http_port", c.http_port)
    ∷ []

abbrev mysql_entries : (port_text : Str) → DatabaseMysqlConfig → List (Str × Str)
mysql_entries port_text c =
    (codes "enabled", switch_text c.enabled)
    ∷ (codes "addr", c.addr)
    ∷ (codes "database", c.database)
    ∷ (codes "username", c.username)
    ∷ (codes "password", c.password)
    ∷ (codes "port", port_text)
    ∷ (codes "ssl_mode", c.ssl_mode)
    ∷ []

abbrev pub document : (port_text : Str) → Config → List Token
document port_text cfg =
    let last = block_end ∷ block_end ∷ stream_end ∷ [] in
    let mysql = filled (codes "mysql") (mysql_entries port_text cfg.mysql) last in
    let common =
      filled (codes "common") (common_entries cfg.common) (opened (codes "database") mysql) in
    let server = (codes "socket_path", cfg.grpc_server.socket_path) ∷ [] in
    other_token ∷ block_mapping_start ∷ filled (codes "grpc_server") server common

switch_text-read :
    (b : Bool)
    → (str_case_eq (switch_text b) (codes "true") || str_eq (switch_text b) (codes "1")) ≡ b
unfolding str_case_eq str_eq
switch_text-read true = refl
switch_text-read false = refl

-- A configuration whose texts fit is read back from the tokens of a file that has all its keys, if
-- the text of the port is one that `atoi` reads as the port.
pub config_parse-document :
    (port_text : Str) (cfg : Config)
    → ConfigFits cfg
    → atoi port_text ≡ cfg.mysql.port
    → config_parse (document port_text cfg) ≡ some cfg
unfolding config_parse scan_tokens step enter leave store_value store_grpc_server store_common
    store_mysql str_eq
config_parse-document port_text cfg h p =
    let (n, r, i, o, a, e, q) = h.common.texts in
    let (ad, d, u, s, w) = h.mysql.texts in
    rw
      (
        take_all 255 cfg.grpc_server.socket_path (omega (arith, h.server.texts)),
        take_all 63 cfg.common.name (omega arith),
        take_all 31 cfg.common.version (omega arith),
        take_all 31 cfg.common.api_version (omega arith),
        take_all 31 cfg.common.protocol (omega arith),
        take_all 127 cfg.common.address (omega arith),
        take_all 255 cfg.common.edgecore_sock (omega arith),
        take_all 15 cfg.common.http_port (omega arith),
        take_all 127 cfg.mysql.addr (omega arith),
        take_all 63 cfg.mysql.database (omega arith),
        take_all 63 cfg.mysql.username (omega arith),
        take_all 63 cfg.mysql.password (omega arith),
        take_all 15 cfg.mysql.ssl_mode (omega arith),
        switch_text-read cfg.mysql.enabled,
        p,
      )
      refl
