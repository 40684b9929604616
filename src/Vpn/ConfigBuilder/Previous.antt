-- ===== src/Vpn/ConfigBuilder/Previous.antt =====
-- `previous_for_regenerate`: the secrets that a stored config hands on.
use vpn_control_panel.Prelude.{
  String, Option, none, some, List, if◌then◌else◌, Result, ok, err, and_then, is_some,
}
use vpn_control_panel.Json.{Json, arr, obj, Items, nil, cons, end, is_truthy}
use vpn_control_panel.Json.Access.{dict_get, inbounds}
use vpn_control_panel.Json.Reading.{
  type_error, first_item, get_default, get_or_value, text_of, to_list,
}
use vpn_control_panel.Domain.Enums.{ConfigProfile}
use vpn_control_panel.Vpn.ConfigBuilder.{PreviousSecrets, nonempty}

abbrev pub no_secrets : PreviousSecrets
no_secrets = record {
  client_id = none;
  private_key = none;
  public_key = none;
  cert_fingerprint = none;
  password = none;
  obfs_password = none;
  short_ids = none;
  reality_dest = none;
  reality_server_names = none;
  xhttp_path = none;
  grpc_service_name = none;
  grpc_sni = none;
}

-- The value at a key, where it is truthy.
unfoldable pub truthy_at : String → Json → Result (Option Json)
truthy_at k d =
    and_then (dict_get k d)
      λ o. elim o [ none ↦ ok none | some v ↦ ok (if is_truthy v then some v else none) ]

-- `str` of the new value, or the one that was found before
unfoldable pub text_or : (Json → String) → Option Json → Option String → Option String
unfolding text_of
text_or repr none old = old
text_or repr (some v) old = some (text_of repr v)

-- `list` of the new value, or the one that was found before
unfoldable pub list_or : Option Json → Option (List Json) → Result (Option (List Json))
unfolding to_list
list_or none old = ok old
list_or (some v) old = and_then (to_list v) (λ xs. ok (some xs))

-- The first client's id, unless one was found in an inbound before.
unfoldable pub scan_clients : Option Json → Json → Result (Option Json)
unfolding first_item truthy_at
scan_clients old clients =
    if is_truthy clients
    then (and_then (first_item clients)
        λ client. and_then (truthy_at "id" client) λ id. ok (if is_some old then old else id))
    else ok old

unfoldable pub scan_reality : Json → PreviousSecrets → Result PreviousSecrets
unfolding truthy_at list_or
scan_reality reality found = and_then (truthy_at "shortIds" reality) λ ids.
    and_then (list_or ids found.short_ids) λ short_ids.
      and_then (truthy_at "serverNames" reality) λ names.
        and_then (list_or names found.reality_server_names) λ server_names.
          ok (record found { short_ids = short_ids; reality_server_names = server_names })

-- `str(d[key])` of a truthy value in the part of the stream
unfoldable pub scan_text :
    (Json → String) → String → String → Json → Option String → Result (Option String)
unfolding get_or_value truthy_at text_or
scan_text repr part key stream old =
    and_then (get_or_value part (obj end) stream)
      λ d. and_then (truthy_at key d) λ v. ok (text_or repr v old)

-- One round of the loop over the inbounds.
unfoldable pub scan_inbound : (Json → String) → PreviousSecrets → Json → Result PreviousSecrets
unfolding get_default get_or_value scan_clients scan_reality scan_text
scan_inbound repr found inbound =
    and_then (and_then (get_default "settings" (obj end) inbound) (get_default "clients" (arr nil)))
      λ clients. and_then (scan_clients found.client_id clients) λ id.
        and_then (get_or_value "streamSettings" (obj end) inbound) λ stream.
          and_then (get_or_value "realitySettings" (obj end) stream) λ reality.
            and_then (scan_reality reality found) λ f.
              and_then (scan_text repr "realitySettings" "dest" stream f.reality_dest) λ dest.
                and_then (scan_text repr "xhttpSettings" "path" stream f.xhttp_path) λ path.
                  and_then (scan_text repr "grpcSettings" "serviceName" stream f.grpc_service_name)
                    λ service.
                      and_then (scan_text repr "tlsSettings" "serverName" stream f.grpc_sni) λ sni.
                        ok (record f {
                          client_id = id;
                          reality_dest = dest;
                          xhttp_path = path;
                          grpc_service_name = service;
                          grpc_sni = sni;
                        })

unfoldable pub scan_inbounds : (Json → String) → PreviousSecrets → Items → Result PreviousSecrets
unfolding scan_inbound
scan_inbounds repr found nil = ok found
scan_inbounds repr found (cons inbound xs) =
    and_then (scan_inbound repr found inbound) λ f. scan_inbounds repr f xs

-- `(config_data.get("auth") or {}).get("password")` and its text
unfoldable pub hysteria_passwords : (Json → String) → Json → Result (Option String × Option String)
unfolding get_or_value truthy_at text_or
hysteria_passwords repr config_data = and_then (get_or_value "auth" (obj end) config_data) λ auth.
    and_then (truthy_at "password" auth) λ password.
      and_then (get_or_value "obfs" (obj end) config_data) λ obfs.
        and_then (get_or_value "salamander" (obj end) obfs) λ salamander.
          and_then (truthy_at "password" salamander)
            λ obfs_password. ok (text_or repr password none, text_or repr obfs_password none)

-- The keys of a certificate: a blank one is none.
abbrev pub with_keys : String → String → String → PreviousSecrets → PreviousSecrets
with_keys private_key public_key fingerprint p = record p {
  private_key = nonempty (some private_key);
  public_key = nonempty (some public_key);
  cert_fingerprint = nonempty (some fingerprint);
}

-- What the profile takes of all that was found.
unfoldable pub profile_secrets :
    (Json → String)
    → ConfigProfile
    → Json
    → String
    → String
    → String
    → PreviousSecrets
    → Result (Option PreviousSecrets)
unfolding hysteria_passwords
profile_secrets repr ConfigProfile.xray_reality config_data private_key public_key fp found = ok (
    some (record no_secrets {
      client_id = found.client_id;
      private_key = some private_key;
      public_key = some public_key;
      short_ids = found.short_ids;
      reality_dest = found.reality_dest;
      reality_server_names = found.reality_server_names;
    }))
profile_secrets repr ConfigProfile.xray_grpc config_data private_key public_key fp found = ok (
    some (
      with_keys private_key public_key fp (record no_secrets {
        client_id = found.client_id;
        grpc_service_name = found.grpc_service_name;
        grpc_sni = found.grpc_sni;
      })))
profile_secrets repr ConfigProfile.xray_xhttp config_data private_key public_key fp found = ok (
    some (
      with_keys private_key public_key fp
        (record no_secrets { client_id = found.client_id; xhttp_path = found.xhttp_path })))
profile_secrets repr ConfigProfile.hysteria2 config_data private_key public_key fp found =
    and_then (hysteria_passwords repr config_data) λ (password, obfs_password). ok (
      some (
        with_keys private_key public_key fp
          (record no_secrets { password = password; obfs_password = obfs_password })))

abbrev pub inbounds_of : Json → Result Items
inbounds_of (obj fs) = inbounds fs
inbounds_of _ = err type_error

unfoldable pub previous_for_regenerate :
    (Json → String)
    → ConfigProfile
    → Json
    → String
    → String
    → String
    → Result (Option PreviousSecrets)
unfolding inbounds scan_inbounds profile_secrets
previous_for_regenerate repr profile config_data private_key public_key fp =
    and_then (inbounds_of config_data) λ xs.
      and_then (scan_inbounds repr no_secrets xs)
        (profile_secrets repr profile config_data private_key public_key fp)
