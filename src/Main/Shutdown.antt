-- ===== src/Main/Shutdown.antt =====
-- main.c: which resources `main` has made when it comes to its end, and `cleanup_resources` (lines 59
-- to 152), as it is compiled for Linux.
pub mod Released
use mapper_framework_c.Prelude.{
  Bool, true, false, Option, none, some, List, [], ◌∷◌, ◌++◌, if◌then◌else◌, ◌&&◌, not,
}
use mapper_framework_c.Prelude.Int.{ℤ, pos}

-- The global variables, as whether each is set.
pub record Globals : Type 0 where
  pub http_server : Bool
  pub device_manager : Bool
  pub start_thread : Bool
  pub grpc_server : Bool
  pub grpc_thread : Bool
  pub sock_path : Bool
  pub mysql : Bool
  pub publisher : Bool

abbrev pub no_globals : Globals
no_globals = record {
  http_server = false;
  device_manager = false;
  start_thread = false;
  grpc_server = false;
  grpc_thread = false;
  sock_path = false;
  mysql = false;
  publisher = false;
}

-- How each step of `main` ends.
pub record Outcomes : Type 0 where
  pub config_parsed : Bool
  pub mysql_made : Bool
  pub publisher_made : Bool
  pub manager_made : Bool
  pub grpc_server_made : Bool
  pub grpc_thread_made : Bool
  pub registered : Bool
  pub start_thread_made : Bool
  pub has_http_port : Bool
  pub http_server_made : Bool

-- The variables where `main` comes to `cleanup`, by `goto` or out of its loop.
abbrev after_registration : Outcomes → Globals → Globals
after_registration o g = record g {
  start_thread = o.start_thread_made;
  http_server = o.has_http_port && o.http_server_made;
}

abbrev after_thread : Outcomes → Globals → Globals
after_thread o g = if o.registered then after_registration o g else g

abbrev after_manager : Outcomes → Globals → Globals
after_manager o g =
    let served = record g { sock_path = true; grpc_server = true } in
    if o.grpc_server_made
    then if o.grpc_thread_made
      then after_thread o (record served { grpc_thread = true })
      else served
    else record g { sock_path = true }

abbrev after_config : Outcomes → Globals → Globals
after_config o g =
    if o.manager_made then after_manager o (record g { device_manager = true }) else g

unfoldable pub at_cleanup : Outcomes → Globals
at_cleanup o =
    if o.config_parsed
    then after_config o (record no_globals { mysql = o.mysql_made; publisher = o.publisher_made })
    else no_globals

-- The calls of `cleanup_resources`.
pub data Release : Type 0 where
  stop_http free_http stop_devices join_start_thread free_manager stop_grpc join_grpc free_grpc :
      Release
  unlink_socket close_mysql free_mysql free_publisher : Release

abbrev pub when : Bool → List Release → List Release
when b rs = if b then rs else []

-- The calls that are made, in order.
unfoldable pub cleanup_resources : Globals → List Release
cleanup_resources g =
    when g.http_server (stop_http ∷ free_http ∷ [])
    ++ when g.device_manager (stop_devices ∷ [])
    ++ when g.start_thread (join_start_thread ∷ [])
    ++ when g.device_manager (free_manager ∷ [])
    ++ when g.grpc_server (stop_grpc ∷ when g.grpc_thread (join_grpc ∷ []) ++ free_grpc ∷ [])
    ++ when g.sock_path (unlink_socket ∷ [])
    ++ when g.mysql (close_mysql ∷ free_mysql ∷ [])
    ++ when g.publisher (free_publisher ∷ [])

-- The calls that `main` makes at its end, and the code that it returns.
unfoldable pub main_end : Outcomes → List Release × ℤ
unfolding at_cleanup cleanup_resources
main_end o = (cleanup_resources (at_cleanup o), pos 0)
