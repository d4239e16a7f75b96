-- ===== src/GrpcClient.antt =====
-- grpcclient/register.cc: the mapper registers at the edge core, and takes over the devices and the
-- models that it is given.
pub mod Schemes
use mapper_framework_c.Prelude.{
  ◌==◌, Bool, true, false, if◌then◌else◌, Option, none, some, List, [], ◌∷◌, ◌++◌, map,
}
use mapper_framework_c.Prelude.Int.{ℤ, pos}
use mapper_framework_c.Prelude.CString.{Str, codes, starts_with}
use mapper_framework_c.Common.Const.{success, failure, device_status_ok}
use mapper_framework_c.Common.ConfigMapType.{DeviceInstance, DeviceModel, ProtocolConfig}
use mapper_framework_c.Common.Cjson.{Cjson}
use mapper_framework_c.Common.Outcome.{Outcome, fault, done, ◌>>=◌, deref}
use mapper_framework_c.Config.{Config, CommonConfig}
use mapper_framework_c.Parse.FromGrpc.{DeviceMessage}
use mapper_framework_c.Parse.FromGrpc.Instance.{
  ModelMessage, get_device_model_from_grpc, get_device_from_grpc,
}

with_scheme : Str → Str
with_scheme [] = codes "unix:///"
with_scheme (c ∷ s) =
    if starts_with (c ∷ s) (codes "unix://")
    then c ∷ s
    else if c == b'/'
    then codes "unix://" ++ c ∷ s
    else codes "unix:///" ++ c ∷ s

unfoldable pub uds_with_scheme : Option Str → Str
unfolding with_scheme
uds_with_scheme none = codes "unix:///tmp/mapper_dmi.sock"
uds_with_scheme (some []) = codes "unix:///tmp/mapper_dmi.sock"
uds_with_scheme (some (c ∷ s)) = with_scheme (c ∷ s)

pub record MapperInfo : Type 0 where
  pub name : Str
  pub version : Str
  pub api_version : Str
  pub protocol : Str
  pub address : Str
  pub state : Str

-- `p[0] ? p : d`
abbrev or_text : Str → Str → Str
or_text [] d = d
or_text (c ∷ s) d = c ∷ s

-- The socket of the edge core and the configuration, where it was needed. `env_sock` is the
-- variable EDGECORE_SOCK; `here` and `above` are what `config_parse` gives for the two files.
unfoldable pub find_socket :
    (env_sock : Option Str) (here above : Option Config) → Option (Str × Option Config)
find_socket env_sock here above = by_env env_sock
  where
    by_file : Option Config → Option (Str × Option Config)
    by_file none = none
    by_file (some cfg) =
        some (or_text cfg.common.edgecore_sock (codes "/var/lib/kubeedge/kubeedge.sock"), some cfg)

    either : Option Config → Option (Str × Option Config)
    either none = by_file above
    either (some cfg) = by_file (some cfg)

    by_env : Option Str → Option (Str × Option Config)
    by_env none = either here
    by_env (some []) = either here
    by_env (some (c ∷ s)) = some (c ∷ s, none)

unfoldable pub mapper_info : Option Config → MapperInfo
mapper_info none = record {
  name = codes "arduino-mapper";
  version = codes "v1.13.0";
  api_version = codes "v1.0.0";
  protocol = codes "modbus-tcp";
  address = codes "/tmp/mapper_dmi.sock";
  state = device_status_ok;
}
mapper_info (some cfg) = record {
  name = cfg.common.name;
  version = cfg.common.version;
  api_version = cfg.common.api_version;
  protocol = or_text cfg.common.protocol (codes "modbus-tcp");
  address = cfg.grpc_server.socket_path;
  state = device_status_ok;
}

pub record RegisterRequest : Type 0 where
  pub target : Str
  pub with_data : Bool
  pub mapper : MapperInfo

-- The request that is sent, `none` where there is no configuration.
unfoldable pub register_request :
    (with_data : Bool) (env_sock : Option Str) (here above : Option Config) → Option RegisterRequest
register_request with_data env_sock here above = elim (find_socket env_sock here above) [
  | none ↦ none
  | some (path, cfg) ↦ some (record {
    target = uds_with_scheme (some path);
    with_data = with_data;
    mapper = mapper_info cfg;
  })
]

-- A device or a model of the response; `none` where it cannot be packed and unpacked again.
pub record RegisterResponse : Type 0 where
  pub device_list : List (Option DeviceMessage)
  pub model_list : List (Option ModelMessage)

-- All bytes zero.
abbrev pub empty_instance : DeviceInstance
empty_instance = record {
  id = none;
  name = none;
  namespace = none;
  protocol_name = none;
  p_protocol = record { protocol_name = none; config_data = none };
  model = none;
  twins = [];
  properties = [];
  methods = [];
  status = record { report_to_cloud = false; report_cycle = pos 0 };
}

abbrev pub empty_model : DeviceModel
empty_model = record {
  id = none;
  name = none;
  namespace = none;
  description = none;
  properties = [];
}

module _ (j : Cjson) where
  one_device : Option DeviceMessage → Outcome DeviceInstance
  one_device none = done empty_instance
  one_device (some d) = deref (get_device_from_grpc j d none empty_instance)

  unfoldable pub out_devices : List (Option DeviceMessage) → Outcome (List DeviceInstance)
  unfolding one_device
  out_devices [] = done []
  out_devices (d ∷ ds) = do inst ← one_device d; rest ← out_devices ds; done (inst ∷ rest)

one_model : Option ModelMessage → DeviceModel
one_model none = empty_model
one_model (some m) = get_device_model_from_grpc m

unfoldable pub out_models : List (Option ModelMessage) → List DeviceModel
unfolding one_model
out_models ms = map one_model ms

pub record Registered : Type 0 where
  pub code : ℤ
  pub devices : List DeviceInstance
  pub models : List DeviceModel

abbrev pub unregistered : Registered
unregistered = record { code = failure; devices = []; models = [] }

-- `rpc` is the call of the edge core, `none` where its status is not OK. The pointers for the
-- results are not null, as in main.c.
unfoldable pub register_mapper :
    Cjson
    → (rpc : RegisterRequest → Option RegisterResponse)
    → (with_data : Bool) (env_sock : Option Str) (here above : Option Config) → Outcome Registered
register_mapper j rpc with_data env_sock here above =
    answer (register_request with_data env_sock here above)
  where
    taken : Option RegisterResponse → Outcome Registered
    taken none = done unregistered
    taken (some r) = do
      ds ← out_devices j r.device_list
      done (record { code = success; devices = ds; models = out_models r.model_list })

    answer : Option RegisterRequest → Outcome Registered
    answer none = done unregistered
    answer (some q) = taken (rpc q)
