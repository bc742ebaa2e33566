-- ===== src/Manager.antt =====
-- cmd/main.go: from the command line to the running manager. The flag package, zap and
-- controller-runtime are unknown; logging is left out. `err e` stands for os.Exit(1) after `e` is
-- logged.
pub mod Laws
use capi_noplane.Prelude.{
  String, Bool, true, false, not, List, [], ◌∷◌, ◌++◌, Option, ◌==◌, string_eq, if◌then◌else◌,
}
use capi_noplane.Errors.{Result}
use capi_noplane.Exec.{Op, Exec, call, ◌>>=◌, ◌>>◌}

-- The values of the flags.
pub record Flags : Type 0 where
  pub metrics_addr : String
  pub metrics_cert_path : String
  pub metrics_cert_name : String
  pub metrics_cert_key : String
  pub webhook_cert_path : String
  pub webhook_cert_name : String
  pub webhook_cert_key : String
  pub enable_leader_election : Bool
  pub probe_addr : String
  pub secure_metrics : Bool
  pub enable_http2 : Bool

-- Without arguments.
unfoldable pub default_flags : Flags
default_flags = record {
  metrics_addr = "0";
  metrics_cert_path = "";
  metrics_cert_name = "tls.crt";
  metrics_cert_key = "tls.key";
  webhook_cert_path = "";
  webhook_cert_name = "tls.crt";
  webhook_cert_key = "tls.key";
  enable_leader_election = false;
  probe_addr = ":8081";
  secure_metrics = true;
  enable_http2 = false;
}

-- tls.Config, of which the code writes one field.
pub record TlsConfig : Type 0 where
  pub next_protos : List String

abbrev pub TlsOption : Type 0
TlsOption = TlsConfig → TlsConfig

unfoldable pub disable_http2 : TlsOption
disable_http2 c = record c { next_protos = "http/1.1" ∷ [] }

unfoldable pub tls_opts : Flags → List TlsOption
unfolding disable_http2
tls_opts flags = if not flags.enable_http2 then disable_http2 ∷ [] else []

-- webhook.Options and metricsserver.Options
pub record ServerOptions : Type 0 where
  pub bind_address : String
  pub secure_serving : Bool
  pub tls_opts : List TlsOption
  -- filters.WithAuthenticationAndAuthorization is set.
  pub filter_provider : Bool
  pub cert_dir : String
  pub cert_name : String
  pub key_name : String

abbrev pub with_certificate : String → String → String → ServerOptions → ServerOptions
with_certificate path name key options =
    if not (path == "")
    then record options { cert_dir = path; cert_name = name; key_name = key }
    else options

unfoldable pub webhook_options : Flags → ServerOptions
unfolding tls_opts
webhook_options flags =
    with_certificate flags.webhook_cert_path flags.webhook_cert_name flags.webhook_cert_key
      (record {
        bind_address = "";
        secure_serving = false;
        tls_opts = tls_opts flags;
        filter_provider = false;
        cert_dir = "";
        cert_name = "";
        key_name = "";
      })

unfoldable pub metrics_options : Flags → ServerOptions
unfolding tls_opts
metrics_options flags =
    with_certificate flags.metrics_cert_path flags.metrics_cert_name flags.metrics_cert_key (
      let options : ServerOptions = record {
        bind_address = flags.metrics_addr;
        secure_serving = flags.secure_metrics;
        tls_opts = tls_opts flags;
        filter_provider = false;
        cert_dir = "";
        cert_name = "";
        key_name = "";
      } in
      if flags.secure_metrics then record options { filter_provider = true } else options)

-- ctrl.Options
pub record ManagerOptions : Type 0 where
  pub metrics : ServerOptions
  pub webhook_server : ServerOptions
  pub health_probe_bind_address : String
  pub leader_election : Bool
  pub leader_election_id : String

unfoldable pub manager_options : Flags → ManagerOptions
unfolding metrics_options webhook_options
manager_options flags = record {
  metrics = metrics_options flags;
  webhook_server = webhook_options flags;
  health_probe_bind_address = flags.probe_addr;
  leader_election = flags.enable_leader_election;
  leader_election_id = "25d1ccc8.noplane.io";
}

pub data SetupCall : Type 0 where
  get_config : SetupCall
  new_manager : ManagerOptions → SetupCall
  set_up_control_plane_controller : SetupCall
  set_up_template_controller : SetupCall
  add_healthz_check : SetupCall
  add_readyz_check : SetupCall
  start_manager : SetupCall

-- controller-runtime: `C` and `G` are the types of *rest.Config and of a manager. GetConfigOrDie ends
-- the process itself, so an error of it is an exit too.
pub record Runtime (W C G : Type 0) : Type 0 where
  pub get_config : Op W C
  pub new_manager : C → ManagerOptions → Op W G
  pub set_up_control_plane_controller : G → Op W (Unit {0})
  pub set_up_template_controller : G → Op W (Unit {0})
  pub add_healthz_check : G → Op W (Unit {0})
  pub add_readyz_check : G → Op W (Unit {0})
  pub start : G → Op W (Unit {0})

unfoldable pub main : {W C G : Type 0} → Runtime W C G → Flags → Exec W SetupCall (Unit {0})
unfolding manager_options
main runtime flags = do
  config ← call SetupCall.get_config runtime.get_config
  mgr ←
      call (SetupCall.new_manager (manager_options flags))
        (runtime.new_manager config (manager_options flags))
  call SetupCall.set_up_control_plane_controller (runtime.set_up_control_plane_controller mgr)
  call SetupCall.set_up_template_controller (runtime.set_up_template_controller mgr)
  call SetupCall.add_healthz_check (runtime.add_healthz_check mgr)
  call SetupCall.add_readyz_check (runtime.add_readyz_check mgr)
  call SetupCall.start_manager (runtime.start mgr)
