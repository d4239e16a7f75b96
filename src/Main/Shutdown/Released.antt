-- ===== src/Main/Shutdown/Released.antt =====
-- The calls at the end of `main`, made one after the other, each of which is taken to return: which
-- of them finds what it needs, and what is left of what the global variables hold.
use mapper_framework_c.Prelude.{
  ◌≡◌, Bool, true, false, not, ◌&&◌, Option, none, some, List, [], ◌∷◌, if◌then◌else◌,
}
use mapper_framework_c.Main.Shutdown.{
  Globals, Release, stop_http, free_http, stop_devices, join_start_thread, free_manager, stop_grpc,
  join_grpc, free_grpc, unlink_socket, close_mysql, free_mysql, free_publisher,
}

-- What the global variables hold, and what of it still works. The server of gRPC works while its
-- thread is there, if it has not been stopped.
pub record Alive : Type 0 where
  pub globals : Globals
  pub http_runs : Bool
  pub grpc_runs : Bool
  pub mysql_open : Bool

abbrev guard : Bool → Alive → Option Alive
guard b a = if b then some a else none

-- All that there is works.
abbrev pub working : Globals → Alive
working g = record {
  globals = g;
  http_runs = g.http_server;
  grpc_runs = g.grpc_thread;
  mysql_open = g.mysql;
}

-- What the threads need has been made before them.
pub record Supported (g : Globals) : Type 0 where
  pub starter : g.start_thread ≡ true → g.device_manager ≡ true
  pub server : g.grpc_thread ≡ true → g.grpc_server ≡ true
  pub manager : g.grpc_thread ≡ true → g.device_manager ≡ true

-- The state before each part of the cleanup, with the resources that are left.
abbrev left : (h m s gs gt sp my pu : Bool) → Alive
left h m s gs gt sp my pu = working (record {
  http_server = h;
  device_manager = m;
  start_thread = s;
  grpc_server = gs;
  grpc_thread = gt;
  sock_path = sp;
  mysql = my;
  publisher = pu;
})

module _ (busy : Bool) where
  -- What a call leaves, if it finds what it needs: what it stops or frees is there, a server is freed
  -- when it is stopped, and what uses a resource is gone before that is freed. The manager is used by
  -- the thread that starts the devices, by the HTTP server, and by the gRPC server while it works, if
  -- `busy`: if the edge core has a call there at that time. The database and the publisher are used by
  -- the devices.
  pub release : Alive → Release → Option Alive
  release a stop_http =
      guard (a.globals.http_server && a.http_runs) (record a { http_runs = false })
  release a free_http =
      guard (a.globals.http_server && not a.http_runs)
        (record a { globals = record a.globals { http_server = false } })
  release a stop_devices = guard a.globals.device_manager a
  release a join_start_thread =
      guard (a.globals.start_thread && a.globals.device_manager)
        (record a { globals = record a.globals { start_thread = false } })
  release a free_manager =
      guard
        (a.globals.device_manager
          && not a.globals.start_thread
          && not a.globals.http_server
          && not (busy && a.grpc_runs))
        (record a { globals = record a.globals { device_manager = false } })
  release a stop_grpc = guard a.globals.grpc_server (record a { grpc_runs = false })
  release a join_grpc =
      guard (a.globals.grpc_thread && not a.grpc_runs)
        (record a { globals = record a.globals { grpc_thread = false } })
  release a free_grpc =
      guard (a.globals.grpc_server && not a.globals.grpc_thread && not a.grpc_runs)
        (record a { globals = record a.globals { grpc_server = false } })
  release a unlink_socket =
      guard a.globals.sock_path (record a { globals = record a.globals { sock_path = false } })
  release a close_mysql =
      guard (a.globals.mysql && a.mysql_open && not a.globals.device_manager)
        (record a { mysql_open = false })
  release a free_mysql =
      guard (a.globals.mysql && not a.mysql_open)
        (record a { globals = record a.globals { mysql = false } })
  release a free_publisher =
      guard (a.globals.publisher && not a.globals.device_manager)
        (record a { globals = record a.globals { publisher = false } })

  pub release_all : Option Alive → List Release → Option Alive
  release_all none rs = none
  release_all (some a) [] = some a
  release_all (some a) (r ∷ rs) = release_all (release a r) rs
