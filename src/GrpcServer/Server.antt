-- ===== src/GrpcServer/Server.antt =====
-- grpcserver/server.cc, lines 198 to 253 and 441 to 510: making, starting and stopping the server.
pub mod Balance
pub mod Stopped
use mapper_framework_c.Prelude.{
  ℕ, zero, suc, ◌+◌, Bool, true, false, not, is_some, if◌then◌else◌, Option, none, some, List, [],
  ◌∷◌, ◌++◌,
}
use mapper_framework_c.Prelude.Int.{ℤ}
use mapper_framework_c.Prelude.CString.{Str, codes}
use mapper_framework_c.Common.Const.{success, failure}
use mapper_framework_c.Device.Types.{DeviceManager}

pub record ServerConfig : Type 0 where
  pub sock_path : Str
  pub protocol : Str

-- `address` is that of the server that gRPC has built, `none` for a null `server_`.
pub record GrpcServer : Type 0 where
  pub cfg : ServerConfig
  pub address : Option Str
  pub stopped : Bool

-- `new_ok` says whether `new` returns without an exception.
unfoldable pub server_config_new :
    (new_ok : Bool) → (sock_path protocol : Option Str) → Option ServerConfig
server_config_new new_ok (some sock_path) (some protocol) =
    if new_ok then some (record { sock_path = sock_path; protocol = protocol }) else none
server_config_new new_ok _ _ = none

-- The server, and what the global pointer to the manager is set to; it is set even if the server
-- cannot be made. `none` for a pointer that is left as it is.
unfoldable pub grpcserver_new :
    (new_ok : Bool)
    → Option ServerConfig
    → Option DeviceManager
    → Option GrpcServer × Option DeviceManager
grpcserver_new new_ok (some config) (some m) = (
  if new_ok then some (record { cfg = config; address = none; stopped = false }) else none,
  some m,
)
grpcserver_new new_ok _ _ = (none, none)

-- What the server asks of the system and of gRPC. To destroy the server at an address is what the
-- assignment to `server_` does with the one that was there, and it ends that server.
pub data Call : Type 0 where
  unlink : Str → Call
  build_and_start : Str → Call
  chmod : Str → Call
  usleep : Call
  wait : Call
  shutdown : Call
  destroy : Str → Call

-- What the system does: whether the socket is there before the start, whether it can be removed,
-- whether gRPC builds a server, and what `stat` finds at each poll.
pub record Surroundings : Type 0 where
  pub exists : Bool
  pub unlink_ok : Bool
  pub build_ok : Bool
  pub stat_ok : ℕ → Bool

-- The wait for the socket: `n` polls are left.
unfoldable pub wait_socket : (stat_ok : ℕ → Bool) → (path : Str) (n polls : ℕ) → List Call
wait_socket stat_ok path zero polls = []
wait_socket stat_ok path (suc n) polls =
    let rest = wait_socket stat_ok path n (suc polls) in
    if stat_ok polls then chmod path ∷ [] else usleep ∷ rest

-- The server behind the call, its code, and the calls in order. `Wait` ends when the server is
-- shut down.
pub record Started : Type 0 where
  pub server : GrpcServer
  pub code : ℤ
  pub calls : List Call

abbrev pub replaced : Option Str → List Call
replaced none = []
replaced (some address) = destroy address ∷ []

unfoldable pub serve : Surroundings → GrpcServer → (before : List Call) → Started
unfolding wait_socket
serve env s before =
    let address = codes "unix://" ++ s.cfg.sock_path in
    let assigned = before ++ (build_and_start address ∷ replaced s.address) in
    if env.build_ok
    then record {
      server = record s { address = some address };
      code = success;
      calls = assigned ++ (wait_socket env.stat_ok s.cfg.sock_path 100 0 ++ wait ∷ []);
    }
    else record { server = record s { address = none }; code = failure; calls = assigned }

unfoldable pub start : Surroundings → GrpcServer → Started
unfolding serve
start env s =
    if env.exists
    then if env.unlink_ok
      then serve env s (unlink s.cfg.sock_path ∷ [])
      else record { server = s; code = failure; calls = unlink s.cfg.sock_path ∷ [] }
    else serve env s []

-- The server behind the call, and the calls.
unfoldable pub stop : GrpcServer → GrpcServer × List Call
stop s =
    if s.stopped
    then (s, [])
    else (record s { stopped = true }, if is_some s.address then shutdown ∷ [] else [])

-- An exception is the code -1 as well.
unfoldable pub grpcserver_start :
    Surroundings → Option GrpcServer → Option GrpcServer × ℤ × List Call
grpcserver_start env none = (none, failure, [])
grpcserver_start env (some s) = let r = start env s in (some r.server, r.code, r.calls)

unfoldable pub grpcserver_stop : Option GrpcServer → Option GrpcServer × List Call
grpcserver_stop none = (none, [])
grpcserver_stop (some s) = let (left, calls) = stop s in (some left, calls)
