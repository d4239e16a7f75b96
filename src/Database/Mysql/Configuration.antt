-- ===== src/Database/Mysql/Configuration.antt =====
-- Where the port of the connection comes from.
use mapper_framework_c.Prelude.{
  ◌≡◌, refl, true, Option, none, inl, inr, Option-cases, if_holds, if◌then◌else◌,
}
use mapper_framework_c.Prelude.Int.{ℤ, pos, ltb_ℤ}
use mapper_framework_c.Prelude.CString.{Str}
use mapper_framework_c.Common.Cjson.{CjsonReader}
use mapper_framework_c.Database.Env.{Env}
use mapper_framework_c.Database.Mysql.{env_port, mysql_parse_client_config, parse_non_empty}

abbrev chosen_port : ℤ → ℤ
chosen_port p = if ltb_ℤ (pos 0) p then p else pos 3306

port_lem :
    (env : Env) (r : CjsonReader) (json : Option Str) (port : ℤ)
    → (mysql_parse_client_config env r json port).0.port ≡ chosen_port (env_port env)
unfolding mysql_parse_client_config
port_lem env r json port = elim (Option-cases (parse_non_empty r json)) [
  | inl e ↦ rw (mysql_parse_client_config, e) refl
  | inr (root, e) ↦ rw (mysql_parse_client_config, e) refl
]

-- Whatever JSON text is given, the port of the configuration is the one of the environment, or 3306,
-- and it is positive; the port of the text has no effect.
pub mysql_parse_client_config-port :
    (env : Env) (r : CjsonReader) (json : Option Str) (port : ℤ)
    → ((mysql_parse_client_config env r json port).0.port
        ≡ (mysql_parse_client_config env r none port).0.port)
      × (ltb_ℤ (pos 0) (mysql_parse_client_config env r json port).0.port ≡ true)
mysql_parse_client_config-port env r json port =
    let e = port_lem env r json port in
    let e' = port_lem env r none port in
    (
      rw (e, e') refl,
      rw e (
          if_holds (λ p. ltb_ℤ (pos 0) p ≡ true) (ltb_ℤ (pos 0) (env_port env)) (λ y. y)
            (λ n. refl)),
    )
