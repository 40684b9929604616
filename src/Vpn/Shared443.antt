-- ===== src/Vpn/Shared443.antt =====
-- panel/infrastructure/vpn/nginx_shared_443.py: the map from server names to backends that nginx
-- uses on the shared port 443, and its text.
pub mod Routes
pub mod Sync
pub mod Hosts
pub mod Distinct
use Prim.Native.String.{compare}
use Prim.Native.Nat.{Ordering}
use vpn_control_panel.Prelude.{
  ℕ, zero, suc, String, Bool, true, false, ◌&&◌, ◌||◌, not, Option, none, some, List, [], ◌∷◌, map,
  any, ◌++◌, ◌=ˢ◌, if◌then◌else◌, is_some, get_or, Result, ok, err, and_then, strip, concat, join,
}
use vpn_control_panel.Domain.Settings.{PanelSettings, VpnProfileSettings}
use vpn_control_panel.Vpn.ConfigBuilder.{nonempty}

abbrev is_port : Option ℕ → Bool
is_port none = false
is_port (some zero) = false
is_port (some (suc n)) = true

unfoldable pub shared_443_enabled : VpnProfileSettings → Bool
shared_443_enabled profile =
    is_port profile.share_public_port && is_some (nonempty profile.listen_address)

abbrev pub text_in : String → List String → Bool
text_in s texts = any (λ t. t =ˢ s) texts

-- One round of the loop: a blank or known host is passed over.
unfoldable pub add_host : List String → String → List String
unfolding strip
add_host hosts candidate =
    let value = strip candidate in
    if value =ˢ "" || text_in value hosts then hosts else hosts ++ value ∷ []

unfoldable pub add_hosts : List String → List String → List String
unfolding add_host
add_hosts hosts [] = hosts
add_hosts hosts (candidate ∷ rest) = add_hosts (add_host hosts candidate) rest

unfoldable pub panel_sni_hosts : PanelSettings → List String
unfolding add_hosts
panel_sni_hosts settings =
    add_hosts [] (settings.vpn.public_host ∷ settings.vpn.public_host_aliases)

abbrev pub Routes : Type 0
Routes = List (String × String)

-- `d[sni] = backend`: a known key keeps its place.
unfoldable pub set_route : String → String → Routes → Routes
set_route sni backend [] = (sni, backend) ∷ []
set_route sni backend ((s, b) ∷ rest) =
    if s =ˢ sni then (s, backend) ∷ rest else (s, b) ∷ set_route sni backend rest

-- The route is passed over: its name or backend is blank, or the name is one of the panel's.
unfoldable pub is_skipped : List String → String → String → Bool
is_skipped panel sni backend = sni =ˢ "" || backend =ˢ "" || text_in sni panel

-- The loop that fills `by_sni`, where the last backend of a name wins.
unfoldable pub by_sni : List String → Routes → Routes → Routes
unfolding set_route is_skipped strip
by_sni panel table [] = table
by_sni panel table ((s, b) ∷ rest) =
    let sni = strip s in
    let backend = strip b in
    by_sni panel (if is_skipped panel sni backend then table else set_route sni backend table) rest

-- The names that are not blank, without the white space around them.
unfoldable pub stripped : List String → List String
unfolding strip
stripped [] = []
stripped (s ∷ rest) =
    let more = stripped rest in let value = strip s in if value =ˢ "" then more else value ∷ more

abbrev panel_routes : String → List String → Routes
panel_routes backend [] = []
panel_routes backend (s ∷ rest) = (s, backend) ∷ panel_routes backend rest

-- The entries of the map: the panel's names, then the routes.
unfoldable pub map_entries : List String → String → Routes → Routes
unfolding stripped by_sni
map_entries panel_snis panel_backend routes =
    panel_routes panel_backend (stripped panel_snis) ++ by_sni (stripped panel_snis) [] routes

abbrev map_line : String × String → String
map_line (sni, backend) = concat ("    " ∷ sni ∷ " " ∷ backend ∷ ";" ∷ [])

abbrev map_body : String → Routes → String
map_body panel_backend [] = concat ("    default " ∷ panel_backend ∷ ";" ∷ [])
map_body panel_backend (entry ∷ entries) = join "\n" (map map_line (entry ∷ entries))

unfoldable pub render_shared_443_stream_conf : List String → String → Routes → String
unfolding map_entries
render_shared_443_stream_conf panel_snis panel_backend routes = concat (
    "# Managed by VpnControlPanel — do not edit by hand.\n"
    ∷ "# Updated automatically on Reality/xHTTP create/regenerate when share_public_port is set.\n"
    ∷ "\n"
    ∷ "map $ssl_preread_server_name $vcp_443_backend {\n"
    ∷ map_body panel_backend (map_entries panel_snis panel_backend routes)
    ∷ "\n"
    ∷ "    default "
    ∷ panel_backend
    ∷ ";\n"
    ∷ "}\n"
    ∷ "\n"
    ∷ "server {\n"
    ∷ "    listen 443 reuseport;\n"
    ∷ "    listen [::]:443 reuseport;\n"
    ∷ "    proxy_pass $vcp_443_backend;\n"
    ∷ "    ssl_preread on;\n"
    ∷ "    proxy_connect_timeout 10s;\n"
    ∷ "    proxy_timeout 300s;\n"
    ∷ "}\n"
    ∷ [])

-- `sorted` of a set to which the text is added
unfoldable pub insert_text : String → List String → List String
insert_text s [] = s ∷ []
insert_text s (t ∷ ts) = elim (compare s t) [
  | Ordering.lt ↦ s ∷ t ∷ ts
  | Ordering.eq ↦ t ∷ ts
  | Ordering.gt ↦ t ∷ insert_text s ts
]
