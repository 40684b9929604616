-- ===== src/Tests.antt =====
-- A concrete deployment: one administrator, one profile, a builder that always gives the same keys.
pub mod Runs
pub mod Values
pub mod Vpn
pub mod Status
use Prim.Native.String.{[] as empty, ◌∷◌ as ◌∷ˢ◌}
use vpn_control_panel.Prelude.{
  ℕ, String, Bool, true, false, ◌≡◌, ◌≢◌, refl, ap, Option, none, some, List, [], ◌∷◌, arith, ok,
  err, strip, lower, runtime_error, ◌=ˢ◌,
}
use vpn_control_panel.Json.{Json, null, bool, num, str, scalar, arr, obj, nil, cons, end, field}
use vpn_control_panel.Json.FieldCrypto.{FieldEncryptor}
use vpn_control_panel.Json.FieldCrypto.Inverse.{IsFaithful}
use vpn_control_panel.Domain.Enums.{ConfigProfile, VpnProtocolType}
use vpn_control_panel.Domain.Settings.{PanelSettings, VpnProfileSettings}
use vpn_control_panel.Persistence.Models.{Db}
use vpn_control_panel.Persistence.Consistency.{IsConsistent}
use vpn_control_panel.Application.Session.{Committed, BrokerReply, accepted}
use vpn_control_panel.Application.ConfigUseCases.{CreateArguments, default}
use vpn_control_panel.Application.ConfigData.{ConfigFormat, Parsers}
use vpn_control_panel.Application.ShareUseCases.{ShareOps, ShareRequest}
use vpn_control_panel.Application.Login.{SecurityOps}
use vpn_control_panel.Worker.Build.{WorkerContext, BuilderOps}
use vpn_control_panel.Vpn.ConfigBuilder.{BuildResult}
use vpn_control_panel.System.{Environment}

-- A cipher that puts a letter in front.
abbrev pub seal : String → String
seal s = "x" ∷ˢ s

abbrev pub unseal : String → String
unseal empty = empty
unseal (c ∷ˢ s) = s

abbrev is_sealed : String → Bool
is_sealed empty = false
is_sealed (c ∷ˢ s) = true

abbrev pub encryptor : FieldEncryptor
encryptor = record { encrypt = seal; decrypt = λ s. ok (unseal s) }

pub encryptor-IsFaithful : IsFaithful encryptor
encryptor-IsFaithful = record {
  decrypts = λ s. refl;
  nonempty = λ s e. ground (arith, ap is_sealed e);
}

abbrev pub reality_settings : VpnProfileSettings
reality_settings = record {
  template_file = "xray-reality.json.example";
  service_name = "xray";
  config_filename = "xray.json";
  inbound_tag = "reality";
  port_candidates = 443 ∷ 8443 ∷ [];
  active_config_path = none;
  cert_dir = none;
  cert_prefix = none;
  xhttp_hosts = [];
  xhttp_paths = [];
  grpc_sni_hosts = [];
  grpc_service_names = [];
  reality_dest_hosts = "example.com" ∷ [];
  reality_server_names = "example.com" ∷ [];
  share_public_port = none;
  share_public_host = none;
  listen_address = none;
  nginx_stream_conf = none;
  nginx_panel_backend = none;
  tls_cert_file = none;
  tls_key_file = none;
}

abbrev pub hysteria_settings : VpnProfileSettings
hysteria_settings = record reality_settings {
  template_file = "hysteria2.yaml.example";
  config_filename = "config.yaml";
  inbound_tag = "";
}

abbrev pub settings : PanelSettings
settings = record {
  paths = record { configs = "/srv/configs"; templates = "/srv/templates" };
  server_port = 8000;
  rate_limit = record {
    login = record { max_attempts = some 2; max_requests = none; window_seconds = 60 };
    share = record { max_attempts = none; max_requests = some 2; window_seconds = 60 };
  };
  audit = record { enabled = true; log_failed_login = true };
  systemd = record {
    per_config = false;
    unit_dir = "/etc/systemd/system";
    service_prefix = "vpn";
    xray_config_dir = "/etc/xray";
    hysteria_config_dir = "/etc/hysteria";
    xray_binary = "/usr/local/bin/xray";
    hysteria_binary = "/usr/local/bin/hysteria";
  };
  vpn = record {
    public_host = "vpn.example.com";
    public_host_aliases = [];
    profiles = ("xray-reality", reality_settings) ∷ ("hysteria2", hysteria_settings) ∷ [];
  };
}

abbrev pub built_data : Json
built_data = obj (field "inbounds" (arr nil) end)

abbrev pub built : BuildResult
built = record {
  config_data = built_data;
  port = 443;
  private_key = "private";
  public_key = "public";
  cert_fingerprint = "";
  client_id = none;
  extra_files = [];
}

abbrev pub builder : BuilderOps
builder = record {
  build = λ r. ok built;
  listening_port = λ profile d ps. ok 443;
  write_files = λ profile i r name. ok r.config_data;
  previous_for_regenerate = λ profile d private_key public_key fingerprint. ok none;
  stop_config_unit = λ i. ok tt;
  sha256_hex = λ s. s;
}

abbrev pub worker : WorkerContext
worker = record { settings = settings; encryptor = encryptor; builder = builder }

abbrev pub environment : Environment
environment = record {
  worker = worker;
  parsers = record { parse = λ format s. none };
  shares = record {
    hash_share_token = seal;
    lower = lower;
    build_client_uris = λ profile d public_key fingerprint name secure host. ok (name ∷ []);
  };
  security = record {
    verify_password = λ password hash. ok (password =ˢ hash);
    create_access_token = λ id. "token";
  };
}

abbrev pub empty_db : Db
empty_db = record {
  users = record { id = 1; username = "admin"; password_hash = "secret" } ∷ [];
  rate_limit_entries = [];
  audit_logs = [];
  vpn_configs = [];
  vpn_config_versions = [];
  share_tokens = [];
}

pub empty_db-IsConsistent : IsConsistent empty_db
empty_db-IsConsistent = record { configs = tt; versions = tt; shares = tt }

abbrev pub start : Committed
start = record { db = empty_db; queue = [] }

abbrev pub arguments : CreateArguments
arguments = record {
  name = "home";
  protocol = VpnProtocolType.xray;
  profile = ConfigProfile.xray_reality;
  user_id = 1;
  regenerate_policy = default;
  share_public_host = none;
}

abbrev pub permanent_share : ShareRequest
permanent_share = record {
  secure = false;
  is_permanent = true;
  expires_at = none;
  ttl_seconds = none;
}
