-- ===== src/Vpn/ClientUri/Links.antt =====
-- What a reader of the links of XHTTP, gRPC and Hysteria2 finds in their queries. The client's id and
-- the host are written into a link as they are, so the lemmas on them have conditions.
use vpn_control_panel.Prelude.{
  ℕ, String, ◌≡◌, refl, Bool, true, false, not, List, [], ◌∷◌, ◌++◌, ◌=ˢ◌, any, arith, Result, ok,
  err, and_then, Yields, Yields-and_then, Yields-ok, contains_char,
}
use vpn_control_panel.Prelude.Quote.Reading.{quote-lacks}
use vpn_control_panel.Json.{Json, null, str, obj, end}
use vpn_control_panel.Json.Reading.{text_of, subscript, get_or_value, get_default}
use vpn_control_panel.Domain.Enums.{ConfigProfile}
use vpn_control_panel.Vpn.ClientUri.{UriOps, link, param, pin_hex, pin_params}
use vpn_control_panel.Vpn.ClientUri.Builders.{
  UriArguments, one, stream_part, xhttp_params, build_xhttp_uri, grpc_params, build_grpc_uri,
  obfs_params, port_or, listen_port, hysteria_sni, quoted_password, build_hysteria2_uri,
}
use vpn_control_panel.Vpn.ClientUri.Query.{query, query-link, Lacks, IsParam}
use vpn_control_panel.Vpn.ClientUri.Secure.{
  insecure, Says, Says-param, differs, pin_params-Says, IsSilent, obfs_params-IsSilent,
  xhttp_params-Says, grpc_params-Says,
}
use vpn_control_panel.Vpn.ClientUri.Builders.{build_xray_uri, build_share_uris}
use vpn_control_panel.Vpn.ClientUri.{share_label}

-- What a reader of the link finds.
Tells : Bool → String → Type 0
Tells secure uri = any (λ p. p =ˢ insecure) (query uri) ≡ not secure

Tells-link :
    (secure : Bool) (scheme user host : String) (port : ℕ) (p : String) (ps : List String)
    (label : String)
    → Lacks b'?' scheme
    → Lacks b'?' user
    → Lacks b'?' host
    → Says secure (p ∷ ps)
    → Tells secure (link scheme user host port (p ∷ ps) label)
unfolding Tells Says
Tells-link secure scheme user host port p ps label no_scheme no_user no_host (all, e) =
    rw (query-link scheme user host port p ps label no_scheme no_user no_host all) e

quoted_password-Lacks : (password : Json) → Yields (Lacks b'?') (quoted_password password)
unfolding quoted_password
quoted_password-Lacks (str s) = quote-lacks "" s b'?' refl refl refl
quoted_password-Lacks null = tt
quoted_password-Lacks (Json.bool b) = tt
quoted_password-Lacks (Json.num b) = tt
quoted_password-Lacks (Json.scalar b) = tt
quoted_password-Lacks (Json.arr b) = tt
quoted_password-Lacks (Json.obj b) = tt

module _ (ops : UriOps) (args : UriArguments) (good : IsParam (pin_hex args.cert_fingerprint))
    (plain : Lacks b'?' args.host) where
  hysteria_link-Tells :
      (port : ℕ) (sni : Json) (obfs : List String) (user label : String)
      → IsSilent obfs
      → Lacks b'?' user
      → Tells args.secure (
          link "hysteria2" user args.host port
            (param "sni=" (text_of ops.repr sni) ∷ obfs
              ++ pin_params args.secure args.cert_fingerprint)
            label)
  unfolding IsSilent IsParam contains_char differs
  hysteria_link-Tells port sni obfs user label silent no_user =
      let s = args.secure in
      let ends = silent s _ (pin_params-Says s args.cert_fingerprint good) in
      Tells-link s "hysteria2" user args.host port _ _ label refl no_user plain
        (Says-param s "sni=" (text_of ops.repr sni) _ (refl, refl) refl ends)

  build_hysteria2_uri-Tells :
      (config : Json) (label : String)
      → Yields (Tells args.secure) (build_hysteria2_uri ops args config label)
  unfolding build_hysteria2_uri
  build_hysteria2_uri-Tells config label =
      let P = Tells args.secure in
      Yields-and_then P (port_or args.public_port (listen_port ops.repr config)) _ λ port _.
        Yields-and_then P (and_then (subscript "auth" config) (subscript "password")) _
          λ password _. Yields-and_then P (hysteria_sni args.host config) _ λ sni _.
            Yields-and_then P (obfs_params ops config) _ λ obfs is_obfs.
              Yields-and_then P (quoted_password password) _ λ user is_user.
                hysteria_link-Tells port sni obfs user label
                  (Yields-ok IsSilent _ obfs (obfs_params-IsSilent ops config) is_obfs)
                  (Yields-ok (Lacks b'?') _ user (quoted_password-Lacks password) is_user)

  xhttp_link-Tells :
      (inbound client_id : Json) (port : ℕ) (label : String)
      → Lacks b'?' (text_of ops.repr client_id)
      → Yields (Tells args.secure) (build_xhttp_uri ops args inbound client_id port label)
  unfolding build_xhttp_uri xhttp_params contains_char
  xhttp_link-Tells inbound client_id port label no_user =
      let P = Tells args.secure in
      Yields-and_then P (stream_part "xhttpSettings" inbound) _ λ xhttp _.
        Yields-and_then P
          (and_then (subscript "streamSettings" inbound) (get_or_value "tlsSettings" (obj end))) _
          λ tls _. Yields-and_then P (get_default "host" (str args.host) xhttp) _ λ xhost _.
            Yields-and_then P (get_default "path" (str "/") xhttp) _ λ path _.
              Yields-and_then P (get_default "mode" (str "stream-up") xhttp) _ λ mode _.
                Yields-and_then P (get_or_value "serverName" (str args.host) tls) _ λ sni _.
                  Tells-link args.secure "vless" (text_of ops.repr client_id) args.host port _ _
                    label refl no_user plain (xhttp_params-Says ops args good xhost path mode sni)

  grpc_link-Tells :
      (inbound client_id : Json) (port : ℕ) (label : String)
      → Lacks b'?' (text_of ops.repr client_id)
      → Yields (Tells args.secure) (build_grpc_uri ops args inbound client_id port label)
  unfolding build_grpc_uri grpc_params contains_char
  grpc_link-Tells inbound client_id port label no_user =
      let P = Tells args.secure in
      Yields-and_then P (stream_part "tlsSettings" inbound) _ λ tls _.
        Yields-and_then P (stream_part "grpcSettings" inbound) _ λ grpc _.
          Yields-and_then P (get_or_value "serverName" (str args.host) tls) _ λ sni _.
            Yields-and_then P (get_default "serviceName" (str "") grpc) _ λ service_name _.
              Tells-link args.secure "vless" (text_of ops.repr client_id) args.host port _ _ label
                refl no_user plain (grpc_params-Says ops args good service_name sni)

-- There is one link, and a reader finds `insecure=1` among its parameters exactly when asked for.
unfoldable pub TellsOnce : Bool → List String → Type 0
TellsOnce secure uris =
    (uri : String) × (uris ≡ uri ∷ []) × (any (λ p. p =ˢ "insecure=1") (query uri) ≡ not secure)

one-TellsOnce :
    (secure : Bool) (r : Result String)
    → Yields (Tells secure) r
    → Yields (TellsOnce secure) (one r)
unfolding Tells TellsOnce
one-TellsOnce secure (ok uri) h = (uri, refl, h)
one-TellsOnce secure (err e) h = tt

-- When the pin of the certificate has no `&` and no `#` and the host no `?`, the links that are
-- built for a Hysteria2 config are one, and its query, read back, has `insecure=1` exactly when the
-- link is not to be secure, whatever the password, the SNI and the obfuscation of the config are.
pub build_share_uris-hysteria_TellsOnce :
    (ops : UriOps) (args : UriArguments) (config : Json) (uris : List String)
    → IsParam (pin_hex args.cert_fingerprint)
    → Lacks b'?' args.host
    → build_share_uris ops args ConfigProfile.hysteria2 config ≡ ok uris
    → TellsOnce args.secure uris
unfolding build_share_uris
build_share_uris-hysteria_TellsOnce ops args config uris good plain e =
    let label = share_label ConfigProfile.hysteria2 in
    Yields-ok (TellsOnce args.secure) _ uris
      (one-TellsOnce args.secure (build_hysteria2_uri ops args config label)
        (build_hysteria2_uri-Tells ops args good plain config label))
      e

abbrev pub is_tls : ConfigProfile → Bool
is_tls ConfigProfile.xray_xhttp = true
is_tls ConfigProfile.xray_grpc = true
is_tls _ = false

-- When the pin of the certificate has no `&` and no `#` and the client's id and the host have no
-- `?`, the links that are built for an inbound of XHTTP or gRPC are one, and its query, read back,
-- has `insecure=1` exactly when the link is not to be secure, whatever names and paths the inbound
-- has.
pub build_xray_uri-TellsOnce :
    (ops : UriOps) (args : UriArguments) (profile : ConfigProfile) (inbound client_id : Json)
    (port : ℕ) (uris : List String)
    → is_tls profile ≡ true
    → IsParam (pin_hex args.cert_fingerprint)
    → Lacks b'?' args.host
    → Lacks b'?' (text_of ops.repr client_id)
    → build_xray_uri ops args profile inbound client_id port ≡ ok uris
    → TellsOnce args.secure uris
unfolding build_xray_uri
build_xray_uri-TellsOnce ops args ConfigProfile.xray_xhttp inbound client_id port uris t good plain
      id e =
    let label = share_label ConfigProfile.xray_xhttp in
    Yields-ok (TellsOnce args.secure) _ uris
      (one-TellsOnce args.secure (build_xhttp_uri ops args inbound client_id port label)
        (xhttp_link-Tells ops args good plain inbound client_id port label id))
      e
build_xray_uri-TellsOnce ops args ConfigProfile.xray_grpc inbound client_id port uris t good plain
      id e =
    let label = share_label ConfigProfile.xray_grpc in
    Yields-ok (TellsOnce args.secure) _ uris
      (one-TellsOnce args.secure (build_grpc_uri ops args inbound client_id port label)
        (grpc_link-Tells ops args good plain inbound client_id port label id))
      e
build_xray_uri-TellsOnce ops args ConfigProfile.xray_reality inbound client_id port uris t good
      plain id e =
    absurd (ground (arith, t))
build_xray_uri-TellsOnce ops args ConfigProfile.hysteria2 inbound client_id port uris t good plain
      id e =
    absurd (ground (arith, t))
