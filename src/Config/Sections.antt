-- ===== src/Config/Sections.antt =====
-- The texts of the configuration fit their buffers.
use mapper_framework_c.Prelude.{
  ◌≡◌, sym, ◌<◌, Bool, true, false, ◌||◌, if◌then◌else◌, some, List, length, arith,
}
use mapper_framework_c.Prelude.CString.{
  Str, codes, str_eq, str_case_eq, snprintf, atoi, length-snprintf-lt,
}
use mathlib.Core.Path.{subst}
use mapper_framework_c.Config.Contexts.{scan_keeps}
use mapper_framework_c.Config.{
  Config, CommonConfig, DatabaseMysqlConfig, GrpcServerConfig, Token, Context, store_grpc_server,
  store_common, store_mysql, store_value, enter, leave, at_top, start, config_parse, empty_config,
}

-- Each text with its zero fits the array that it is declared as.
pub record CommonFits (c : CommonConfig) : Type 0 where
  pub texts :
      (length c.name < 64)
      × (length c.version < 32)
      × (length c.api_version < 32)
      × (length c.protocol < 32)
      × (length c.address < 128)
      × (length c.edgecore_sock < 256)
      × (length c.http_port < 16)

pub record MysqlFits (c : DatabaseMysqlConfig) : Type 0 where
  pub texts :
      (length c.addr < 128)
      × (length c.database < 64)
      × (length c.username < 64)
      × (length c.ssl_mode < 16)
      × (length c.password < 64)

pub record GrpcServerFits (c : GrpcServerConfig) : Type 0 where
  pub texts : length c.socket_path < 256

pub record ConfigFits (c : Config) : Type 0 where
  pub server : GrpcServerFits c.grpc_server
  pub common : CommonFits c.common
  pub mysql : MysqlFits c.mysql

if_both {ℓ} :
    {A : Type ℓ} (P : A → Type 0) (b : Bool) {x y : A} → P x → P y → P (if b then x else y)
if_both P true p q = p
if_both P false p q = q

CommonFits-store_common :
    (key v : Str) (c : CommonConfig) → CommonFits c → CommonFits (store_common key v c)
unfolding store_common
CommonFits-store_common key v c h =
    let (n, r, i, o, a, e, p) = h.texts in
    let short = length-snprintf-lt 32 v (omega arith) in
    if_both CommonFits _
      (record { texts = (length-snprintf-lt 64 v (omega arith), r, i, o, a, e, p) })
      (if_both CommonFits _ (record { texts = (n, short, i, o, a, e, p) })
        (if_both CommonFits _ (record { texts = (n, r, short, o, a, e, p) })
          (if_both CommonFits _ (record { texts = (n, r, i, short, a, e, p) })
            (if_both CommonFits _
              (record { texts = (n, r, i, o, length-snprintf-lt 128 v (omega arith), e, p) })
              (if_both CommonFits _
                (record { texts = (n, r, i, o, a, length-snprintf-lt 256 v (omega arith), p) })
                (if_both CommonFits _
                  (record { texts = (n, r, i, o, a, e, length-snprintf-lt 16 v (omega arith)) })
                  h))))))

MysqlFits-store_mysql :
    (key v : Str) (c : DatabaseMysqlConfig) → MysqlFits c → MysqlFits (store_mysql key v c)
unfolding store_mysql
MysqlFits-store_mysql key v c h =
    let (a, d, u, s, p) = h.texts in
    let middle = length-snprintf-lt 64 v (omega arith) in
    by_test (str_eq key (codes "enabled"))
      (record c { enabled = str_case_eq v (codes "true") || str_eq v (codes "1") })
      (record { texts = (a, d, u, s, p) })
      (by_test (str_eq key (codes "addr")) (record c { addr = snprintf 128 v })
        (record { texts = (length-snprintf-lt 128 v (omega arith), d, u, s, p) })
        (by_test (str_eq key (codes "database")) (record c { database = snprintf 64 v })
          (record { texts = (a, middle, u, s, p) })
          (by_test (str_eq key (codes "username")) (record c { username = snprintf 64 v })
            (record { texts = (a, d, middle, s, p) })
            (by_test (str_eq key (codes "password")) (record c { password = snprintf 64 v })
              (record { texts = (a, d, u, s, middle) })
              (by_test (str_eq key (codes "port")) (record c { port = atoi v })
                (record { texts = (a, d, u, s, p) })
                (by_test (str_eq key (codes "ssl_mode")) (record c { ssl_mode = snprintf 16 v })
                  (record { texts = (a, d, u, length-snprintf-lt 16 v (omega arith), p) }) h))))))
  where
    by_test :
        (b : Bool) (x : DatabaseMysqlConfig) {y : DatabaseMysqlConfig}
        → MysqlFits x
        → MysqlFits y
        → MysqlFits (if b then x else y)
    by_test b x p q = if_both MysqlFits b p q

GrpcServerFits-store :
    (key v : Str) (c : GrpcServerConfig)
    → GrpcServerFits c
    → GrpcServerFits (store_grpc_server key v c)
unfolding store_grpc_server
GrpcServerFits-store key v c h =
    if_both GrpcServerFits _ (record { texts = length-snprintf-lt 256 v (omega arith) }) h

ConfigFits-store_value :
    (c : Context) (v : Str) → ConfigFits c.config → ConfigFits (store_value c v)
unfolding store_value
ConfigFits-store_value c v h =
    if_both ConfigFits _
      (record {
        server = GrpcServerFits-store c.key v _ h.server;
        common = h.common;
        mysql = h.mysql;
      })
      (if_both ConfigFits _
        (record {
          server = h.server;
          common = CommonFits-store_common c.key v _ h.common;
          mysql = h.mysql;
        })
        (if_both ConfigFits _
          (record {
            server = h.server;
            common = h.common;
            mysql = MysqlFits-store_mysql c.key v _ h.mysql;
          })
          h))

same_config : (c : Context) → ((enter c).config ≡ c.config) × ((leave c).config ≡ c.config)
unfolding enter leave
same_config c = (ground arith, ground arith)

empty-ConfigFits : ConfigFits empty_config
empty-ConfigFits = record {
  server = record { texts = omega arith };
  common = record {
    texts =
        (omega arith, omega arith, omega arith, omega arith, omega arith, omega arith, omega arith);
  };
  mysql = record { texts = (omega arith, omega arith, omega arith, omega arith, omega arith) };
}

-- Whatever tokens the file gives, if the parser returns then every text of the configuration is in
-- its buffer, with a zero behind it.
pub config_parse-ConfigFits :
    (ts : List Token) (cfg : Config) → config_parse ts ≡ some cfg → ConfigFits cfg
unfolding config_parse
config_parse-ConfigFits ts cfg e =
    let (last, fits, same) =
      scan_keeps (λ c. ConfigFits c.config) (λ c h. subst ConfigFits (sym (same_config c).0) h)
        (λ c h. subst ConfigFits (sym (same_config c).1) h) (λ c v h. h) ConfigFits-store_value
        at_top start ts empty-ConfigFits e in
    subst ConfigFits same fits
