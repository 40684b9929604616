-- ===== src/Tests/Vpn.antt =====
-- The theorems on links, built configs and the map of port 443 at concrete inputs.
use vpn_control_panel.Prelude.{
  if◌then◌else◌, ◌=ˢ◌, ℕ, String, true, false, ◌≡◌, refl, ==_refl, arith, none, some, List, [], ◌∷◌,
  ok,
}
use vpn_control_panel.Prelude.Quote.{utf8}
use vpn_control_panel.Json.{Json, str, obj, end, field}
use vpn_control_panel.Domain.Enums.{ConfigProfile}
use vpn_control_panel.Domain.Policy.{class_defaults}
use vpn_control_panel.Vpn.PortPicker.{contains}
use vpn_control_panel.Vpn.PortPicker.Choice.{IsChoice}
use vpn_control_panel.Vpn.ClientUri.{UriOps}
use vpn_control_panel.Vpn.ClientUri.Builders.{
  UriArguments, build_hysteria2_uri, build_share_uris, build_xray_uri,
}
use vpn_control_panel.Vpn.ClientUri.Query.{IsParam}
use vpn_control_panel.Vpn.ClientUri.UserPart.{user_bytes, build_hysteria2_uri-user_bytes}
use vpn_control_panel.Vpn.ClientUri.Links.{
  TellsOnce, build_share_uris-hysteria_TellsOnce, build_xray_uri-TellsOnce,
}
use vpn_control_panel.Vpn.ConfigBuilder.{BuildRequest, BuildResult, BuilderEnv, KeyPair}
use vpn_control_panel.Vpn.ConfigBuilder.Tls.{resolve_tls, own_material}
use vpn_control_panel.Vpn.ConfigBuilder.Tls.Fits.{Loads, IsFitted, resolve_tls-IsFitted}
use vpn_control_panel.Vpn.ConfigBuilder.Hysteria.{build_hysteria2, password_of, obfs_password_of}
use vpn_control_panel.Vpn.ConfigBuilder.Build.{build, listening_port}
use vpn_control_panel.Vpn.ConfigBuilder.Port.{build-listening_port}
use vpn_control_panel.Vpn.ConfigBuilder.Candidates.{build-port_bounds}
use vpn_control_panel.Vpn.ConfigBuilder.Passwords.{
  Remembers, build_hysteria2-previous_for_regenerate,
}
use vpn_control_panel.Vpn.Shared443.{map_entries, panel_sni_hosts, stripped}
use vpn_control_panel.Vpn.Shared443.Distinct.{
  distinct, map_entries-distinct, lookup, lookup-map_entries,
}
use vpn_control_panel.Tests.{settings, reality_settings, hysteria_settings}

abbrev first_name : List String → String
first_name [] = ""
first_name (s ∷ rest) = s

abbrev first_port : List ℕ → ℕ
first_port [] = 0
first_port (p ∷ rest) = p

first_port-IsChoice : IsChoice first_port
first_port-IsChoice = record { member = λ p ports. ground (arith, ==_refl p) }

abbrev uri_ops : UriOps
uri_ops = record { choice = first_name; repr = λ d. "{}" }

abbrev arguments : UriArguments
arguments = record {
  host = "vpn.example.com";
  public_key = "";
  cert_fingerprint = "ab:cd";
  inbound_tag = "grpc";
  secure = true;
  public_port = none;
}

-- A password that tries to add a parameter.
abbrev hysteria_data : Json
hysteria_data = obj (
    field "listen" (str ":8443") (
      field "auth" (obj (field "password" (str "p@ss&insecure=1#") end))
        (field "tls" (obj (field "sni" (str "a&insecure=1") end)) end)))

abbrev hysteria_uris : List String
hysteria_uris =
    "hysteria2://p%40ss%26insecure%3D1%23@vpn.example.com:8443?sni=a%26insecure%3D1&pinSHA256=ABCD&insecure=0#Hysteria2-Dynamic"
    ∷ []

build_share_uris-hysteria_TellsOnce_example : TellsOnce true hysteria_uris
unfolding build_share_uris IsParam
build_share_uris-hysteria_TellsOnce_example =
    build_share_uris-hysteria_TellsOnce uri_ops arguments hysteria_data hysteria_uris (refl, refl)
      refl refl

abbrev hysteria_uri : String
hysteria_uri =
    "hysteria2://p%40ss%26insecure%3D1%23@vpn.example.com:8443?sni=a%26insecure%3D1&pinSHA256=ABCD&insecure=0#Hysteria2-Dynamic"

build_hysteria2_uri-user_bytes_example : user_bytes hysteria_uri ≡ some (utf8 "p@ss&insecure=1#")
unfolding build_hysteria2_uri
build_hysteria2_uri-user_bytes_example =
    build_hysteria2_uri-user_bytes uri_ops arguments "p@ss&insecure=1#" hysteria_data
      "Hysteria2-Dynamic" hysteria_uri refl refl

abbrev grpc_inbound : Json
grpc_inbound = obj (
    field "streamSettings"
      (obj (
        field "tlsSettings" (obj (field "serverName" (str "a.example") end))
          (field "grpcSettings" (obj (field "serviceName" (str "s&insecure=1") end)) end)))
      end)

abbrev insecure_arguments : UriArguments
insecure_arguments = record arguments { secure = false }

abbrev grpc_uris : List String
grpc_uris =
    "vless://id@vpn.example.com:443?type=grpc&security=tls&serviceName=s%26insecure%3D1&fp=chrome&sni=a.example&insecure=1#gRPC-Dynamic"
    ∷ []

build_xray_uri-TellsOnce_example : TellsOnce false grpc_uris
unfolding build_xray_uri IsParam
build_xray_uri-TellsOnce_example =
    build_xray_uri-TellsOnce uri_ops insecure_arguments ConfigProfile.xray_grpc grpc_inbound
      (str "id") 443 grpc_uris refl (refl, refl) refl refl refl

-- A template of Hysteria2, and a builder that draws fixed secrets.
abbrev template : Json
template = obj (field "auth" (obj (field "password" (str "") end)) (field "tls" (obj end) end))

abbrev new_pair : KeyPair
new_pair = record { private_pem = "key"; cert_pem = "public"; fingerprint = "f" }

abbrev builder_env : BuilderEnv
builder_env = record {
  is_file = λ p. ok true;
  read_text = λ p. ok "";
  parse_json = λ t. ok template;
  parse_yaml = λ t. ok template;
  tcp_available = λ p. true;
  udp_available = λ p. true;
  choose_port = first_port;
  choose = first_name;
  new_uuid = "id";
  new_private_key = "private";
  new_public_key = "public";
  new_short_ids = "aa" ∷ [];
  new_password = "secret";
  new_obfs_password = "hidden";
  new_key_pem = "key";
  new_key_public = "public";
  sign_certificate = λ names public key. public;
  certificate_public_key = λ cert. some cert;
  private_key_public_key = λ key. if key =ˢ "key" then some "public" else none;
  certificate_dns_names = λ cert. some ("vpn.example.com" ∷ []);
  certificate_sha256 = λ cert. "f";
  repr = λ d. "{}";
}

abbrev request : BuildRequest
request = record {
  profile = ConfigProfile.hysteria2;
  name = "home";
  previous = none;
  exclude_ports = 443 ∷ [];
  preferred_port = none;
  preferred_grpc_sni = none;
  preferred_grpc_service_name = none;
  policy = class_defaults;
  share_public_host = none;
}

abbrev hysteria_built : BuildResult
hysteria_built = record {
  config_data = obj (
      field "auth" (obj (field "password" (str "secret") end)) (
        field "tls"
          (obj (
            field "cert" (str "/usr/local/etc/xray/certs/hysteria-cert.pem") (
              field "key" (str "/usr/local/etc/xray/certs/hysteria-key.pem")
                (field "sni" (str "vpn.example.com") end))))
          (field "listen" (str ":8443") (
            field "obfs"
              (obj (
                field "type" (str "salamander")
                  (field "salamander" (obj (field "password" (str "hidden") end)) end)))
              end))));
  port = 8443;
  private_key = "key";
  public_key = "public";
  cert_fingerprint = "f";
  client_id = none;
  extra_files = ("cert", "public") ∷ ("key", "key") ∷ [];
}

build-listening_port_example :
    listening_port (λ d. "{}") ConfigProfile.hysteria2 hysteria_built.config_data hysteria_settings
    ≡ ok 8443
unfolding build
build-listening_port_example =
    build-listening_port (λ d. "{}") builder_env settings (some class_defaults) request
      hysteria_settings hysteria_built refl refl

build-port_bounds_example : contains 8443 hysteria_settings.port_candidates ≡ true
unfolding build
build-port_bounds_example =
    build-port_bounds builder_env settings none request hysteria_settings hysteria_built
      first_port-IsChoice refl refl

build_hysteria2-previous_for_regenerate_example :
    Remembers (λ d. "{}") "secret" "hidden" hysteria_built
unfolding build_hysteria2 password_of obfs_password_of
build_hysteria2-previous_for_regenerate_example =
    build_hysteria2-previous_for_regenerate (λ d. "{}") builder_env settings hysteria_settings
      request template hysteria_built refl refl refl refl

builder_env-Loads : Loads builder_env
builder_env-Loads = record { certificate = λ names. refl; private_key = refl }

resolve_tls-IsFitted_example :
    IsFitted builder_env true (own_material reality_settings "grpc" new_pair)
unfolding resolve_tls
resolve_tls-IsFitted_example =
    resolve_tls-IsFitted builder_env builder_env-Loads reality_settings "vpn.example.com" "grpc"
      none true (own_material reality_settings "grpc" new_pair) refl

abbrev some_routes : List (String × String)
some_routes =
    ("a.example", "127.0.0.1:1")
    ∷ ("vpn.example.com", "127.0.0.1:2")
    ∷ (" a.example ", "127.0.0.1:3")
    ∷ []

lookup-map_entries_example :
    lookup "a.example" (map_entries (panel_sni_hosts settings) "127.0.0.1:8443" some_routes)
    ≡ some "127.0.0.1:3"
unfolding panel_sni_hosts stripped
lookup-map_entries_example =
    lookup-map_entries (panel_sni_hosts settings) "127.0.0.1:8443" some_routes "a.example" refl

map_entries-distinct_example :
    distinct (map_entries (panel_sni_hosts settings) "127.0.0.1:8443" some_routes) ≡ true
map_entries-distinct_example = map_entries-distinct settings "127.0.0.1:8443" some_routes
