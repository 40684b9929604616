-- ===== src/Json/FieldCrypto.antt =====
-- `decrypt_config_data_fields` and `encrypt_config_data_fields` of
-- panel/infrastructure/crypto/config_data.py. The field encryptor (Fernet of the `cryptography`
-- package, behind crypto/field_encryptor.py) is a parameter.
pub mod Paths
pub mod Update
pub mod Inverse
use vpn_control_panel.Prelude.{
  String, Bool, true, false, Option, none, some, List, [], ◌∷◌, ◌=ˢ◌, get_or, if◌then◌else◌,
  split_on, Result, ok, and_then,
}
use vpn_control_panel.Json.{Json, null, bool, num, str, scalar, arr, obj}
use vpn_control_panel.Json.Access.{get_by_path, set_by_path}
use vpn_control_panel.Domain.Enums.{ConfigProfile}

pub record FieldEncryptor : Type 0 where
  pub encrypt : String → String
  -- an InvalidToken becomes a ValueError
  pub decrypt : String → Result String

-- `ProfileConfigBuilder.sensitive_fields`
unfoldable pub sensitive_fields : ConfigProfile → List String
sensitive_fields ConfigProfile.hysteria2 = "auth.password" ∷ "obfs.salamander.password" ∷ []
sensitive_fields ConfigProfile.xray_reality =
    "inbounds.0.streamSettings.realitySettings.privateKey" ∷ []
sensitive_fields ConfigProfile.xray_grpc = []
sensitive_fields ConfigProfile.xray_xhttp = []

-- One round of the loop that encrypts, with the function that it applies to a non-empty text.
unfoldable pub apply_at : (String → String) → List String → Json → Json
unfolding get_by_path set_by_path
apply_at f path d = elim (get_by_path path d) [
  | some (str s) ↦ if s =ˢ "" then d else get_or (set_by_path path (str (f s)) d) d
  | _ ↦ d
]

unfoldable pub apply_fields : (String → String) → List String → Json → Json
unfolding apply_at split_on
apply_fields f [] d = d
apply_fields f (path ∷ paths) d = apply_fields f paths (apply_at f (split_on b'.' path) d)

unfoldable pub encrypt_config_data_fields : Json → List String → FieldEncryptor → Json
unfolding apply_fields
encrypt_config_data_fields d paths e = apply_fields e.encrypt paths d

-- One round of the loop that decrypts, which may raise.
unfoldable pub decrypt_at : FieldEncryptor → List String → Json → Result Json
unfolding get_by_path set_by_path
decrypt_at e path d = elim (get_by_path path d) [
  | some (str s) ↦
      if s =ˢ ""
      then ok d
      else and_then (e.decrypt s) λ t. ok (get_or (set_by_path path (str t) d) d)
  | _ ↦ ok d
]

unfoldable pub decrypt_fields : FieldEncryptor → List String → Json → Result Json
unfolding decrypt_at split_on
decrypt_fields e [] d = ok d
decrypt_fields e (path ∷ paths) d =
    and_then (decrypt_at e (split_on b'.' path) d) λ result. decrypt_fields e paths result

unfoldable pub decrypt_config_data_fields : Json → List String → FieldEncryptor → Result Json
unfolding decrypt_fields
decrypt_config_data_fields d paths e = decrypt_fields e paths d
