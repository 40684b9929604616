-- ===== src/Vpn/ClientUri/Builders.antt =====
-- The links of the four profiles and `build_share_uris`.
use vpn_control_panel.Prelude.{
  ℕ, zero, suc, String, Bool, Option, none, some, List, [], ◌∷◌, ◌++◌, ◌=ˢ◌, if◌then◌else◌, Result,
  ok, err, and_then, strip, lower, lstrip_char, concat, quote,
}
use vpn_control_panel.Json.{Json, null, str, obj, end, is_truthy}
use vpn_control_panel.Json.Access.{find_inbound}
use vpn_control_panel.Json.Reading.{
  fields_of, type_error, subscript, first_item, get_default, get_or_value, or_value, text_of,
  int_value,
}
use vpn_control_panel.Domain.Enums.{ConfigProfile}
use vpn_control_panel.Vpn.ClientUri.{
  UriOps, share_label, reality_share_sni, link, param, tls_params, pin_params,
}

-- The keyword arguments that every link takes.
pub record UriArguments : Type 0 where
  pub host : String
  pub public_key : String
  pub cert_fingerprint : String
  pub inbound_tag : String
  pub secure : Bool
  pub public_port : Option ℕ

-- `int(public_port) if public_port else …`
abbrev pub port_or : Option ℕ → Result ℕ → Result ℕ
port_or none inner = inner
port_or (some zero) inner = inner
port_or (some (suc n)) inner = ok (suc n)

-- `inbound["settings"]["clients"][0]`
unfoldable pub first_client : Json → Result Json
unfolding subscript first_item
first_client inbound =
    and_then (subscript "settings" inbound)
      λ settings. and_then (subscript "clients" settings) first_item

-- `inbound["streamSettings"][key]`
unfoldable pub stream_part : String → Json → Result Json
unfolding subscript
stream_part key inbound = and_then (subscript "streamSettings" inbound) (subscript key)

-- `sid` and `flow` of a Reality link, which are written as they are.
unfoldable pub reality_params : UriOps → UriArguments → Json → Json → String → List String
unfolding text_of param
reality_params ops args short_id flow sni =
    "type=tcp"
    ∷ "security=reality"
    ∷ concat ("flow=" ∷ text_of ops.repr flow ∷ [])
    ∷ "fp=chrome"
    ∷ concat ("pbk=" ∷ args.public_key ∷ [])
    ∷ concat ("sid=" ∷ text_of ops.repr short_id ∷ [])
    ∷ (if sni =ˢ "" then [] else param "sni=" sni ∷ [])

unfoldable pub build_reality_uri : UriOps → UriArguments → Json → Json → ℕ → String → Result String
unfolding stream_part first_client first_item get_default reality_share_sni reality_params link
    text_of
build_reality_uri ops args inbound client_id port label =
    and_then (stream_part "realitySettings" inbound) λ reality.
      and_then (and_then (subscript "shortIds" reality) first_item) λ short_id.
        and_then (and_then (first_client inbound) (get_default "flow" (str "xtls-rprx-vision")))
          λ flow. and_then (reality_share_sni ops reality) λ sni. ok (
            link "vless" (text_of ops.repr client_id) args.host port
              (reality_params ops args short_id flow sni) label)

unfoldable pub xhttp_params : UriOps → UriArguments → Json → Json → Json → Json → List String
unfolding text_of param tls_params
xhttp_params ops args xhost path mode sni =
    ("type=xhttp"
      ∷ "security=tls"
      ∷ param "host=" (text_of ops.repr xhost)
      ∷ param "path=" (text_of ops.repr path)
      ∷ param "mode=" (text_of ops.repr mode)
      ∷ "fp=chrome"
      ∷ param "sni=" (text_of ops.repr sni)
      ∷ [])
    ++ tls_params args.secure args.cert_fingerprint

unfoldable pub build_xhttp_uri : UriOps → UriArguments → Json → Json → ℕ → String → Result String
unfolding stream_part get_or_value get_default subscript xhttp_params link text_of
build_xhttp_uri ops args inbound client_id port label =
    and_then (stream_part "xhttpSettings" inbound) λ xhttp.
      and_then
        (and_then (subscript "streamSettings" inbound) (get_or_value "tlsSettings" (obj end)))
        λ tls. and_then (get_default "host" (str args.host) xhttp) λ xhost.
          and_then (get_default "path" (str "/") xhttp) λ path.
            and_then (get_default "mode" (str "stream-up") xhttp) λ mode.
              and_then (get_or_value "serverName" (str args.host) tls) λ sni. ok (
                link "vless" (text_of ops.repr client_id) args.host port
                  (xhttp_params ops args xhost path mode sni) label)

unfoldable pub grpc_params : UriOps → UriArguments → Json → Json → List String
unfolding text_of param tls_params
grpc_params ops args service_name sni =
    ("type=grpc"
      ∷ "security=tls"
      ∷ param "serviceName=" (text_of ops.repr service_name)
      ∷ "fp=chrome"
      ∷ param "sni=" (text_of ops.repr sni)
      ∷ [])
    ++ tls_params args.secure args.cert_fingerprint

unfoldable pub build_grpc_uri : UriOps → UriArguments → Json → Json → ℕ → String → Result String
unfolding stream_part get_or_value get_default grpc_params link text_of
build_grpc_uri ops args inbound client_id port label =
    and_then (stream_part "tlsSettings" inbound) λ tls.
      and_then (stream_part "grpcSettings" inbound) λ grpc.
        and_then (get_or_value "serverName" (str args.host) tls) λ sni.
          and_then (get_default "serviceName" (str "") grpc) λ service_name. ok (
            link "vless" (text_of ops.repr client_id) args.host port
              (grpc_params ops args service_name sni) label)

-- `int(str(config_data["listen"]).lstrip(":"))`
unfoldable pub listen_port : (Json → String) → Json → Result ℕ
unfolding subscript text_of lstrip_char int_value
listen_port repr config_data =
    and_then (subscript "listen" config_data)
      λ listen. int_value (str (lstrip_char b':' (text_of repr listen)))

-- `config_data.get("sni") or config_data.get("tls", {}).get("sni") or host`
unfoldable pub hysteria_sni : String → Json → Result Json
unfolding get_default or_value
hysteria_sni host config_data = and_then (get_default "sni" null config_data) λ sni.
    if is_truthy sni
    then ok sni
    else and_then (get_default "tls" (obj end) config_data)
        λ tls. and_then (get_default "sni" null tls) λ inner. ok (or_value inner (str host))

-- The two parameters of an obfuscation with a password.
unfoldable pub password_params : UriOps → Json → List String
unfolding text_of param
password_params ops password =
    if is_truthy password
    then "obfs=salamander" ∷ param "obfs-password=" (text_of ops.repr password) ∷ []
    else []

unfoldable pub salamander_params : UriOps → Json → Json → Result (List String)
unfolding get_default get_or_value text_of strip lower password_params
salamander_params ops obfs kind =
    if lower (strip (text_of ops.repr kind)) =ˢ "salamander"
    then (and_then (get_or_value "salamander" (obj end) obfs) λ salamander.
        and_then (get_default "password" null salamander)
          λ password. ok (password_params ops password))
    else ok []

unfoldable pub obfs_params : UriOps → Json → Result (List String)
unfolding get_default get_or_value salamander_params
obfs_params ops config_data =
    and_then (get_or_value "obfs" (obj end) config_data)
      λ obfs. and_then (get_default "type" (str "") obfs) λ kind. salamander_params ops obfs kind

-- `quote(password, safe="")` takes texts only.
unfoldable pub quoted_password : Json → Result String
unfolding quote
quoted_password (str s) = ok (quote "" s)
quoted_password _ = err type_error

unfoldable pub build_hysteria2_uri : UriOps → UriArguments → Json → String → Result String
unfolding listen_port subscript hysteria_sni obfs_params quoted_password pin_params link text_of
    param
build_hysteria2_uri ops args config_data label =
    and_then (port_or args.public_port (listen_port ops.repr config_data)) λ port.
      and_then (and_then (subscript "auth" config_data) (subscript "password")) λ password.
        and_then (hysteria_sni args.host config_data) λ sni.
          and_then (obfs_params ops config_data) λ obfs. and_then (quoted_password password) λ user.
            ok (
              link "hysteria2" user args.host port
                (param "sni=" (text_of ops.repr sni) ∷ obfs
                  ++ pin_params args.secure args.cert_fingerprint)
                label)

abbrev pub one : Result String → Result (List String)
one r = and_then r (λ uri. ok (uri ∷ []))

-- The link of a profile of Xray, from the inbound with the tag.
unfoldable pub build_xray_uri :
    UriOps → UriArguments → ConfigProfile → Json → Json → ℕ → Result (List String)
unfolding build_reality_uri build_xhttp_uri build_grpc_uri
build_xray_uri ops args ConfigProfile.xray_reality inbound client_id port =
    one (build_reality_uri ops args inbound client_id port (share_label ConfigProfile.xray_reality))
build_xray_uri ops args ConfigProfile.xray_xhttp inbound client_id port =
    one (build_xhttp_uri ops args inbound client_id port (share_label ConfigProfile.xray_xhttp))
build_xray_uri ops args ConfigProfile.xray_grpc inbound client_id port =
    one (build_grpc_uri ops args inbound client_id port (share_label ConfigProfile.xray_grpc))
build_xray_uri ops args ConfigProfile.hysteria2 inbound client_id port = ok []

unfoldable pub build_share_uris :
    UriOps → UriArguments → ConfigProfile → Json → Result (List String)
unfolding build_hysteria2_uri build_xray_uri first_client subscript int_value find_inbound
build_share_uris ops args ConfigProfile.hysteria2 config_data =
    one (build_hysteria2_uri ops args config_data (share_label ConfigProfile.hysteria2))
build_share_uris ops args profile config_data = and_then (fields_of config_data) λ fs.
    and_then (find_inbound fs args.inbound_tag) λ inbound.
      and_then (port_or args.public_port (and_then (subscript "port" inbound) int_value)) λ port.
        and_then (and_then (first_client inbound) (subscript "id"))
          λ client_id. build_xray_uri ops args profile inbound client_id port
