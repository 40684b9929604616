-- ===== src/Domain/Enums.antt =====
-- The string enumerations of panel/domain/value_objects: config_status.py, protocol.py and
-- config_profile.py. A member is a constructor, its string is `value`.
use vpn_control_panel.Prelude.{
  String, ◌≡◌, refl, Bool, true, false, ◌=ˢ◌, if◌then◌else◌, Result, ok, err, value_error,
}

pub data ConfigStatus : Type 0 where
  pending processing active failed : ConfigStatus

pub data VpnProtocolType : Type 0 where
  xray hysteria2 : VpnProtocolType

pub data ConfigProfile : Type 0 where
  xray_reality xray_grpc xray_xhttp hysteria2 : ConfigProfile

abbrev pub is_active_status : ConfigStatus → Bool
is_active_status active = true
is_active_status _ = false

-- `status in (PENDING, PROCESSING)`
abbrev pub is_busy : ConfigStatus → Bool
is_busy pending = true
is_busy processing = true
is_busy active = false
is_busy failed = false

abbrev pub is_hysteria : ConfigProfile → Bool
is_hysteria ConfigProfile.hysteria2 = true
is_hysteria _ = false

abbrev pub protocol_value : VpnProtocolType → String
protocol_value VpnProtocolType.xray = "xray"
protocol_value VpnProtocolType.hysteria2 = "hysteria2"

abbrev pub profile_value : ConfigProfile → String
profile_value ConfigProfile.xray_reality = "xray-reality"
profile_value ConfigProfile.xray_grpc = "xray-grpc"
profile_value ConfigProfile.xray_xhttp = "xray-xhttp"
profile_value ConfigProfile.hysteria2 = "hysteria2"

-- `ConfigProfile(text)`
unfoldable pub parse_profile : String → Result ConfigProfile
parse_profile s =
    if s =ˢ "xray-reality"
    then ok ConfigProfile.xray_reality
    else if s =ˢ "xray-grpc"
    then ok ConfigProfile.xray_grpc
    else if s =ˢ "xray-xhttp"
    then ok ConfigProfile.xray_xhttp
    else if s =ˢ "hysteria2"
    then ok ConfigProfile.hysteria2
    else err (value_error "not a valid ConfigProfile")

unfoldable pub default_for_protocol : String → ConfigProfile
default_for_protocol protocol =
    if protocol =ˢ "hysteria2" then ConfigProfile.hysteria2 else ConfigProfile.xray_reality

pub parse_profile-profile_value : (p : ConfigProfile) → parse_profile (profile_value p) ≡ ok p
unfolding parse_profile
parse_profile-profile_value ConfigProfile.xray_reality = refl
parse_profile-profile_value _ = refl
