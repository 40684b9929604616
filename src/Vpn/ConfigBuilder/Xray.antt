-- ===== src/Vpn/ConfigBuilder/Xray.antt =====
-- What `_build_xray_reality`, `_build_xray_grpc` and `_build_xray_xhttp` share. All three pick a
-- port, find the inbound, set its port and listen address and go on with the changes of the
-- profile; Python's references into the config are written back at the end.
pub mod Reality
pub mod Grpc
pub mod Xhttp
use vpn_control_panel.Prelude.{
  ℕ, String, Bool, true, false, ◌&&◌, not, Option, none, some, List, [], ◌∷◌, map, any, ◌=ˢ◌,
  if◌then◌else◌, Result, ok, err, and_then, concat, get_or, strip, is_some,
}
use vpn_control_panel.Json.{Json, num, str, arr, obj, Items, nil, cons, Fields, end, field}
use vpn_control_panel.Json.Access.{find_inbound}
use vpn_control_panel.Json.Reading.{fields_of, type_error, subscript, get_or_value, text_of}
use vpn_control_panel.Json.Editing.{put, edit, pop, with_inbound, set_client_id}
use vpn_control_panel.Domain.Settings.{PanelSettings, VpnProfileSettings}
use vpn_control_panel.Vpn.PortPicker.{pick_port}
use vpn_control_panel.Vpn.ClientUri.{dest_hostname}
use vpn_control_panel.Vpn.ConfigBuilder.{
  PreviousSecrets, BuildResult, BuildRequest, BuilderEnv, ExtraFiles, nonempty, nonempty_list,
  nonempty_json, secret, unless, tls_server_name,
}
use vpn_control_panel.Vpn.ConfigBuilder.Tls.{TlsMaterial}

-- The changed inbound and the keys that go with it.
pub record InboundChange : Type 0 where
  pub inbound : Json
  pub private_key : String
  pub public_key : String
  pub cert_fingerprint : String
  pub extra_files : ExtraFiles

abbrev pub set_listen : Option String → Json → Result Json
set_listen none inbound = ok inbound
set_listen (some address) inbound = put "listen" (str address) inbound

-- `previous.client_id` where it is kept, else a new one
unfoldable pub client_id_of : BuilderEnv → BuildRequest → Json
client_id_of env req =
    get_or
      (unless req.policy.rotate_client_id (nonempty_json (secret req.previous (λ p. p.client_id))))
      (str env.new_uuid)

unfoldable pub built : BuilderEnv → BuildRequest → ℕ → String → Fields → InboundChange → BuildResult
unfolding with_inbound client_id_of
built env req port tag fs change = record {
  config_data = with_inbound tag change.inbound fs;
  port = port;
  private_key = change.private_key;
  public_key = change.public_key;
  cert_fingerprint = change.cert_fingerprint;
  client_id = some (client_id_of env req);
  extra_files = change.extra_files;
}

-- What the three profiles share; `change` is the profile's own part.
unfoldable pub build_inbound :
    BuilderEnv
    → VpnProfileSettings
    → BuildRequest
    → (Json → Result InboundChange)
    → Json
    → Result BuildResult
unfolding pick_port find_inbound put built
build_inbound env profile req change config =
    and_then
      (pick_port env.tcp_available env.choose_port profile.port_candidates req.exclude_ports
        req.preferred_port)
      λ port. and_then (fields_of config) λ fs.
        and_then (find_inbound fs profile.inbound_tag) λ inbound.
          and_then (put "port" (num port) inbound) λ with_port.
            and_then (set_listen (nonempty profile.listen_address) with_port) λ ready.
              and_then (change ready) λ done. ok (built env req port profile.inbound_tag fs done)

-- `{"certificateFile": cert_file, "keyFile": key_file}` in a list
unfoldable pub certificates : TlsMaterial → Json
certificates m = arr (
    cons (obj (field "certificateFile" (str m.cert_file) (field "keyFile" (str m.key_file) end)))
      nil)

abbrev pub tls_change : Json → TlsMaterial → InboundChange
tls_change inbound m = record {
  inbound = inbound;
  private_key = m.pair.private_pem;
  public_key = m.pair.cert_pem;
  cert_fingerprint = m.pair.fingerprint;
  extra_files = m.extra_files;
}
