-- ===== src/Config.antt =====
-- config/config.c: the configuration is read from the tokens of a YAML file. The scanner is libyaml,
-- so the tokens are the input.
pub mod Contexts
pub mod Sections
pub mod Document
use mapper_framework_c.Prelude.{
  Bool, true, false, ◌&&◌, ◌||◌, if◌then◌else◌, Option, none, some, List, [], ◌∷◌,
}
use mapper_framework_c.Prelude.Int.{ℤ, pos}
use mapper_framework_c.Prelude.CString.{Str, codes, str_eq, str_case_eq, snprintf, atoi}

pub record GrpcServerConfig : Type 0 where
  pub socket_path : Str

pub record CommonConfig : Type 0 where
  pub name : Str
  pub version : Str
  pub api_version : Str
  pub protocol : Str
  pub address : Str
  pub edgecore_sock : Str
  pub http_port : Str

pub record DatabaseMysqlConfig : Type 0 where
  pub enabled : Bool
  pub addr : Str
  pub database : Str
  pub username : Str
  pub port : ℤ
  pub ssl_mode : Str
  pub password : Str

pub record Config : Type 0 where
  pub grpc_server : GrpcServerConfig
  pub common : CommonConfig
  pub mysql : DatabaseMysqlConfig

-- All bytes zero.
abbrev pub empty_config : Config
empty_config = record {
  grpc_server = record { socket_path = [] };
  common = record {
    name = [];
    version = [];
    api_version = [];
    protocol = [];
    address = [];
    edgecore_sock = [];
    http_port = [];
  };
  mysql = record {
    enabled = false;
    addr = [];
    database = [];
    username = [];
    port = pos 0;
    ssl_mode = [];
    password = [];
  };
}

-- The token types that the parser tells apart. After an error the scanner gives `other_token` (a
-- token of type YAML_NO_TOKEN) for ever.
pub data Token : Type 0 where
  stream_end key_token value_token block_mapping_start block_end other_token : Token
  scalar : Str → Token

-- The variables of the loop.
pub record Context : Type 0 where
  pub key : Str
  pub in_grpc_server : Bool
  pub in_common : Bool
  pub in_database : Bool
  pub in_mysql : Bool
  pub config : Config

-- A text is copied with `strncpy` or `strlcpy`, each into a buffer with a zero at its end.
unfoldable pub store_grpc_server : (key value : Str) → GrpcServerConfig → GrpcServerConfig
store_grpc_server key v c =
    if str_eq key (codes "socket_path") then record { socket_path = snprintf 256 v } else c

unfoldable pub store_common : (key value : Str) → CommonConfig → CommonConfig
store_common key v c =
    if str_eq key (codes "name")
    then record c { name = snprintf 64 v }
    else if str_eq key (codes "version")
    then record c { version = snprintf 32 v }
    else if str_eq key (codes "api_version")
    then record c { api_version = snprintf 32 v }
    else if str_eq key (codes "protocol")
    then record c { protocol = snprintf 32 v }
    else if str_eq key (codes "address")
    then record c { address = snprintf 128 v }
    else if str_eq key (codes "edgecore_sock")
    then record c { edgecore_sock = snprintf 256 v }
    else if str_eq key (codes "http_port")
    then record c { http_port = snprintf 16 v }
    else c

unfoldable pub store_mysql : (key value : Str) → DatabaseMysqlConfig → DatabaseMysqlConfig
store_mysql key v c =
    if str_eq key (codes "enabled")
    then record c { enabled = str_case_eq v (codes "true") || str_eq v (codes "1") }
    else if str_eq key (codes "addr")
    then record c { addr = snprintf 128 v }
    else if str_eq key (codes "database")
    then record c { database = snprintf 64 v }
    else if str_eq key (codes "username")
    then record c { username = snprintf 64 v }
    else if str_eq key (codes "password")
    then record c { password = snprintf 64 v }
    else if str_eq key (codes "port")
    then record c { port = atoi v }
    else if str_eq key (codes "ssl_mode")
    then record c { ssl_mode = snprintf 16 v }
    else c

-- A scalar value goes where the context says.
unfoldable pub store_value : Context → Str → Config
store_value c v =
    if c.in_grpc_server
    then record (c.config) { grpc_server = store_grpc_server c.key v c.config.grpc_server }
    else if c.in_common
    then record (c.config) { common = store_common c.key v c.config.common }
    else if c.in_mysql
    then record (c.config) { mysql = store_mysql c.key v c.config.mysql }
    else c.config

abbrev at_section : Context → (grpc_server common database : Bool) → Context
at_section c g m d = record c {
  in_grpc_server = g;
  in_common = m;
  in_database = d;
  in_mysql = false;
}

-- A nested mapping begins.
unfoldable pub enter : Context → Context
enter c =
    if str_eq c.key (codes "grpc_server")
    then at_section c true false false
    else if str_eq c.key (codes "common")
    then at_section c false true false
    else if str_eq c.key (codes "database")
    then at_section c false false true
    else if c.in_database && str_eq c.key (codes "mysql")
    then record c { in_mysql = true }
    else c

-- A mapping ends.
unfoldable pub leave : Context → Context
leave c =
    if c.in_mysql
    then record c { in_mysql = false }
    else if c.in_database
    then record c { in_database = false }
    else if c.in_common
    then record c { in_common = false }
    else if c.in_grpc_server
    then record c { in_grpc_server = false }
    else c

-- Where in the body of the loop the next token is read: at its top, behind a key token, and behind
-- the key's name.
pub data Place : Type 0 where
  at_top behind_key behind_name : Place

unfoldable pub step : Place → Context → Token → Place × Context
step at_top c key_token = (behind_key, c)
step at_top c block_end = (at_top, leave c)
step at_top c t = (at_top, c)
step behind_key c (scalar v) = (behind_name, record c { key = snprintf 128 v })
step behind_key c t = (at_top, c)
step behind_name c value_token = (behind_name, c)
step behind_name c block_mapping_start = (at_top, enter c)
step behind_name c (scalar v) = (at_top, record c { config = store_value c v })
step behind_name c t = (at_top, c)

abbrev is_end : Place → Token → Bool
is_end at_top stream_end = true
is_end p t = false

abbrev pub start : Context
start = record {
  key = [];
  in_grpc_server = false;
  in_common = false;
  in_database = false;
  in_mysql = false;
  config = empty_config;
}

-- `none` where the tokens run out: then the scanner gives nothing that ends the loop.
unfoldable pub scan_tokens : Place → Context → List Token → Option Config
scan_tokens p c [] = none
scan_tokens p c (t ∷ ts) =
    let next = step p c t in
    let rest = scan_tokens next.0 next.1 ts in if is_end p t then some c.config else rest

-- The configuration that is read from the tokens of a file that can be opened.
unfoldable pub config_parse : List Token → Option Config
config_parse ts = scan_tokens at_top start ts
