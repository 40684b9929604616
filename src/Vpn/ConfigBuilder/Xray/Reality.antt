-- ===== src/Vpn/ConfigBuilder/Xray/Reality.antt =====
-- The changes of `_build_xray_reality`.
use vpn_control_panel.Prelude.{
  String, Option, none, some, List, [], ◌∷◌, map, ◌=ˢ◌, if◌then◌else◌, Result, ok, and_then, get_or,
}
use vpn_control_panel.Json.{Json, str, arr, Items, nil, cons}
use vpn_control_panel.Json.Reading.{get_or_value, text_of}
use vpn_control_panel.Json.Editing.{put, edit, set_client_id}
use vpn_control_panel.Domain.Settings.{VpnProfileSettings}
use vpn_control_panel.Vpn.ClientUri.{dest_hostname}
use vpn_control_panel.Vpn.ConfigBuilder.{
  BuildRequest, BuilderEnv, nonempty, nonempty_list, secret, unless,
}
use vpn_control_panel.Vpn.ConfigBuilder.Xray.{InboundChange, client_id_of}

abbrev items_of : List Json → Items
items_of [] = nil
items_of (x ∷ xs) = cons x (items_of xs)

abbrev both : Option String → Option String → Option (String × String)
both (some a) (some b) = some (a, b)
both _ _ = none

-- The private and the public key, both kept or both new.
unfoldable pub reality_keys : BuilderEnv → BuildRequest → String × String
reality_keys env req =
    get_or
      (unless req.policy.rotate_reality_keys (
        both (nonempty (secret req.previous (λ p. p.private_key)))
          (nonempty (secret req.previous (λ p. p.public_key)))))
      (env.new_private_key, env.new_public_key)

unfoldable pub short_ids_of : BuilderEnv → BuildRequest → List Json
short_ids_of env req =
    get_or
      (unless req.policy.rotate_short_ids (nonempty_list (secret req.previous (λ p. p.short_ids))))
      (map (λ s. str s) env.new_short_ids)

-- `serverNames` from the host of `dest`, where it has one
unfoldable pub names_from_dest : BuilderEnv → Json → Result Json
unfolding get_or_value text_of dest_hostname put
names_from_dest env reality = and_then (get_or_value "dest" (str "") reality) λ dest.
    let host = dest_hostname (text_of env.repr dest) in
    if host =ˢ "" then ok reality else put "serverNames" (arr (cons (str host) nil)) reality

abbrev kept_names : BuilderEnv → Option (List Json) → Json → Result Json
kept_names env none reality = names_from_dest env reality
kept_names env (some names) reality = put "serverNames" (arr (items_of names)) reality

abbrev drawn_dest : BuilderEnv → List String → Json → Result Json
drawn_dest env [] reality = ok reality
drawn_dest env (host ∷ hosts) reality = put "dest" (str (env.choose (host ∷ hosts))) reality

abbrev dest_from :
    BuilderEnv → VpnProfileSettings → BuildRequest → Option String → Json → Result Json
dest_from env profile req (some dest) reality =
    and_then (put "dest" (str dest) reality)
      (kept_names env (nonempty_list (secret req.previous (λ p. p.reality_server_names))))
dest_from env profile req none reality =
    and_then (drawn_dest env profile.reality_dest_hosts reality) (names_from_dest env)

unfoldable pub set_dest : BuilderEnv → VpnProfileSettings → BuildRequest → Json → Result Json
unfolding names_from_dest put
set_dest env profile req reality =
    dest_from env profile req
      (unless req.policy.rotate_dest (nonempty (secret req.previous (λ p. p.reality_dest)))) reality

unfoldable pub reality_settings :
    BuilderEnv → VpnProfileSettings → BuildRequest → Json → Result Json
unfolding short_ids_of reality_keys set_dest put
reality_settings env profile req reality =
    and_then (put "shortIds" (arr (items_of (short_ids_of env req))) reality) λ with_ids.
      and_then (put "privateKey" (str (reality_keys env req).0) with_ids) (set_dest env profile req)

unfoldable pub change_reality :
    BuilderEnv → VpnProfileSettings → BuildRequest → Json → Result InboundChange
unfolding edit reality_settings set_client_id client_id_of reality_keys
change_reality env profile req inbound =
    and_then
      (edit "streamSettings" (edit "realitySettings" (reality_settings env profile req)) inbound)
      λ with_reality. and_then (set_client_id (client_id_of env req) with_reality) λ done.
        ok (record {
          inbound = done;
          private_key = (reality_keys env req).0;
          public_key = (reality_keys env req).1;
          cert_fingerprint = "";
          extra_files = [];
        })
