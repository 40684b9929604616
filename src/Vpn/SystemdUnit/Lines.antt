-- ===== src/Vpn/SystemdUnit/Lines.antt =====
-- The texts of a unit that hold no line break.
use vpn_control_panel.Prelude.{
  String, ◌≡◌, refl, false, List, [], ◌∷◌, ◌=ˢ◌, Bool-cases, inl, inr, All, concat, contains_char,
  strip,
}
use vpn_control_panel.Prelude.Splits.{strip-lacks}
use vpn_control_panel.Prelude.Quote.Reading.{contains_char-append}
use vpn_control_panel.Domain.Enums.{ConfigProfile, profile_value, is_hysteria}
use vpn_control_panel.Domain.Settings.{SystemdSettings}
use vpn_control_panel.Vpn.SystemdUnit.{or_text, exec_start, description_line}

-- A text of one line.
abbrev pub OneLine : String → Type 0
OneLine s = contains_char 10 s ≡ false

or_text-OneLine : (s t : String) → OneLine s → OneLine t → OneLine (or_text s t)
or_text-OneLine s t h k = elim (Bool-cases (s =ˢ "")) [ inl e ↦ rw e k | inr e ↦ rw e h ]

profile_value-OneLine : (p : ConfigProfile) → OneLine (profile_value p)
unfolding contains_char
profile_value-OneLine ConfigProfile.xray_reality = refl
profile_value-OneLine ConfigProfile.xray_grpc = refl
profile_value-OneLine ConfigProfile.xray_xhttp = refl
profile_value-OneLine ConfigProfile.hysteria2 = refl

pub concat-OneLine : (parts : List String) → All OneLine parts → OneLine (concat parts)
unfolding contains_char
concat-OneLine [] h = refl
concat-OneLine (s ∷ rest) (h, hs) = rw (contains_char-append, h) (concat-OneLine rest hs)

pub description_line-OneLine :
    (p : ConfigProfile) (service_name config_name : String)
    → OneLine service_name
    → OneLine config_name
    → OneLine (description_line p service_name config_name)
unfolding description_line contains_char
description_line-OneLine p service_name config_name h k =
    let name = or_text-OneLine (strip config_name) service_name (strip-lacks 10 config_name k) h in
    concat-OneLine
      ("Description=VPN "
        ∷ or_text (strip config_name) service_name
        ∷ " ("
        ∷ profile_value p
        ∷ ")"
        ∷ [])
      (refl, (name, (refl, (profile_value-OneLine p, (refl, tt)))))

pub exec_start-OneLine :
    (p : ConfigProfile) (config_path : String) (settings : SystemdSettings)
    → OneLine settings.xray_binary
    → OneLine settings.hysteria_binary
    → OneLine config_path
    → OneLine (exec_start p config_path settings)
unfolding exec_start contains_char
exec_start-OneLine p config_path settings x h path = elim (Bool-cases (is_hysteria p)) [
  | inl e ↦ rw e (
      concat-OneLine (settings.hysteria_binary ∷ " server -c " ∷ config_path ∷ [])
        (h, (refl, (path, tt))))
  | inr e ↦ rw e (
      concat-OneLine (settings.xray_binary ∷ " run -config " ∷ config_path ∷ [])
        (x, (refl, (path, tt))))
]
