-- ===== src/Vpn/SystemdUnit/Commands.antt =====
-- An independent reader of units: the values of the lines that start with `ExecStart=`, which are
-- the commands that systemd runs.
use Prim.Native.Char.{code}
use Prim.Native.String.{[] as empty, ◌∷◌ as ◌∷ˢ◌, ◌++◌ as ◌++ˢ◌}
use text.Mathlib.TextLemmas.{cons-append}
use vpn_control_panel.Prelude.{
  String, ◌≡◌, refl, ap, ◌∙◌, Option, none, some, List, [], ◌∷◌, ◌++◌, ◌==◌, if◌then◌else◌, concat,
  split_on,
}
use vpn_control_panel.Prelude.Splits.{split_on-Lacks}
use vpn_control_panel.Domain.Enums.{ConfigProfile}
use vpn_control_panel.Domain.Settings.{SystemdSettings}
use vpn_control_panel.Vpn.SystemdUnit.{description_line}
use vpn_control_panel.Vpn.SystemdUnit.Lines.{OneLine, description_line-OneLine}

-- What follows the key of a line.
after_key : String → String → Option String
after_key empty s = some s
after_key (c ∷ˢ p) empty = none
after_key (c ∷ˢ p) (d ∷ˢ s) = let rest = after_key p s in if code c == code d then rest else none

cons_value : Option String → List String → List String
cons_value none vs = vs
cons_value (some v) vs = v ∷ vs

values : String → List String → List String
unfolding after_key cons_value
values key [] = []
values key (l ∷ ls) = cons_value (after_key key l) (values key ls)

unfoldable pub commands : String → List String
unfolding values split_on
commands text = values "ExecStart=" (split_on 10 text)

-- The command that a profile is to be run with.
unfoldable pub command_of : ConfigProfile → String → SystemdSettings → String
command_of ConfigProfile.hysteria2 path settings =
    concat (settings.hysteria_binary ∷ " server -c " ∷ path ∷ [])
command_of ConfigProfile.xray_reality path settings =
    concat (settings.xray_binary ∷ " run -config " ∷ path ∷ [])
command_of ConfigProfile.xray_grpc path settings =
    concat (settings.xray_binary ∷ " run -config " ∷ path ∷ [])
command_of ConfigProfile.xray_xhttp path settings =
    concat (settings.xray_binary ∷ " run -config " ∷ path ∷ [])

-- The lines behind the description.
tail_lines : String → List String
tail_lines start =
    "After=network-online.target" ∷ "Wants=network-online.target" ∷ "" ∷ "[Service]" ∷ "Type=simple"
    ∷ start ∷ "LimitNOFILE=1048576" ∷ "" ∷ "[Install]" ∷ "WantedBy=multi-user.target" ∷ "" ∷ []

-- Names of one line add no command.
pub commands-description_line :
    (p : ConfigProfile) (service_name config_name : String)
    → OneLine service_name
    → OneLine config_name
    → commands (description_line p service_name config_name) ≡ []
unfolding commands values cons_value after_key
commands-description_line p service_name config_name h k =
    ap (values "ExecStart=") (
      split_on-Lacks 10 (description_line p service_name config_name)
        (description_line-OneLine p service_name config_name h k))
    ∙ (unfold description_line in rw cons-append refl)
