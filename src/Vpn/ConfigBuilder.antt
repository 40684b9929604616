-- ===== src/Vpn/ConfigBuilder.antt =====
-- panel/infrastructure/vpn/config_builder.py: the data of the profile builder and what its
-- profiles share. Random draws, key generation, certificates, files and the bind test of ports
-- are a record of functions.
pub mod Tls
pub mod Xray
pub mod Hysteria
pub mod Previous
pub mod Build
pub mod Keeps
pub mod Candidates
pub mod Listen
pub mod Port
pub mod Stored
pub mod Passwords
use vpn_control_panel.Prelude.{
  ℕ, String, Bool, true, false, Option, none, some, List, [], ◌∷◌, ◌=ˢ◌, ◌||◌, if◌then◌else◌,
  Result, ok, err, and_then, value_error, file_error, strip, concat, rstrip_char, ends_with, get_or,
}
use vpn_control_panel.Json.{Json, obj, is_truthy}
use vpn_control_panel.Domain.Enums.{ConfigProfile}
use vpn_control_panel.Domain.Settings.{PanelSettings, VpnProfileSettings}
use vpn_control_panel.Domain.Policy.{RegeneratePolicy}

pub record PreviousSecrets : Type 0 where
  pub client_id : Option Json
  pub private_key : Option String
  pub public_key : Option String
  pub cert_fingerprint : Option String
  pub password : Option String
  pub obfs_password : Option String
  pub short_ids : Option (List Json)
  pub reality_dest : Option String
  pub reality_server_names : Option (List Json)
  pub xhttp_path : Option String
  pub grpc_service_name : Option String
  pub grpc_sni : Option String

-- The files of a certificate by their kind.
abbrev pub ExtraFiles : Type 0
ExtraFiles = List (String × String)

pub record BuildResult : Type 0 where
  pub config_data : Json
  pub port : ℕ
  pub private_key : String
  pub public_key : String
  pub cert_fingerprint : String
  pub client_id : Option Json
  pub extra_files : ExtraFiles

-- The keyword arguments of `ProfileConfigBuilder.build`.
pub record BuildRequest : Type 0 where
  pub profile : ConfigProfile
  pub name : String
  pub previous : Option PreviousSecrets
  pub exclude_ports : List ℕ
  pub preferred_port : Option ℕ
  pub preferred_grpc_sni : Option Json
  pub preferred_grpc_service_name : Option Json
  pub policy : RegeneratePolicy
  pub share_public_host : Option String

-- What `generate_self_signed_cert` and the reuse of a certificate give.
pub record KeyPair : Type 0 where
  pub private_pem : String
  pub cert_pem : String
  pub fingerprint : String

pub record BuilderEnv : Type 0 where
  -- pathlib; an OSError is a `file_error`
  pub is_file : String → Result Bool
  pub read_text : String → Result String
  pub parse_json : String → Result Json
  pub parse_yaml : String → Result Json
  -- the bind tests of ports, and `random.choice` of lists that are not empty
  pub tcp_available : ℕ → Bool
  pub udp_available : ℕ → Bool
  pub choose_port : List ℕ → ℕ
  pub choose : List String → String
  -- the draws of one build: `uuid4`, an X25519 pair, three short ids, two passwords
  pub new_uuid : String
  pub new_private_key : String
  pub new_public_key : String
  pub new_short_ids : List String
  pub new_password : String
  pub new_obfs_password : String
  -- the `cryptography` package: a new RSA key in PEM and its public key, the certificate that the
  -- builder signs for DNS names, a public key and the key in PEM, the public keys and the DNS names
  -- that are read from PEM, with `none` for a ValueError, and the SHA-256 of a certificate
  pub new_key_pem : String
  pub new_key_public : String
  pub sign_certificate : List String → String → String → String
  pub certificate_public_key : String → Option String
  pub private_key_public_key : String → Option String
  pub certificate_dns_names : String → Option (List String)
  pub certificate_sha256 : String → String
  -- `str` of a list or a dict
  pub repr : Json → String

-- A text that is there and not empty, as `if text` tests it.
abbrev pub nonempty : Option String → Option String
nonempty none = none
nonempty (some s) = if s =ˢ "" then none else some s

abbrev pub nonempty_list : Option (List Json) → Option (List Json)
nonempty_list (some (x ∷ xs)) = some (x ∷ xs)
nonempty_list _ = none

abbrev pub nonempty_json : Option Json → Option Json
nonempty_json none = none
nonempty_json (some v) = if is_truthy v then some v else none

-- `previous.secret if previous else None`
abbrev pub secret {ℓ} :
    {A : Type ℓ} → Option PreviousSecrets → (PreviousSecrets → Option A) → Option A
secret none f = none
secret (some p) f = f p

-- A previous value that the policy does not rotate.
abbrev pub unless {ℓ} : {A : Type ℓ} → Bool → Option A → Option A
unless true o = none
unless false o = o

-- The first candidate that is not blank.
unfoldable pub first_host : List (Option String) → String
unfolding strip
first_host [] = "localhost"
first_host (candidate ∷ rest) =
    let other = first_host rest in
    let value = strip (get_or candidate "") in if value =ˢ "" then other else value

-- `_tls_server_name` and `_effective_share_host`, which have the same body.
unfoldable pub tls_server_name : PanelSettings → VpnProfileSettings → Option String → String
unfolding first_host
tls_server_name settings profile share_public_host =
    first_host (share_public_host ∷ profile.share_public_host ∷ some settings.vpn.public_host ∷ [])

-- `Path(directory) / name`, of a directory that is not empty
unfoldable pub child_path : String → String → String
unfolding rstrip_char
child_path directory name = concat (rstrip_char b'/' directory ∷ "/" ∷ name ∷ [])

unfoldable pub resolve_template_path : BuilderEnv → PanelSettings → String → Result String
unfolding child_path
resolve_template_path env settings template_file =
    let candidate = child_path settings.paths.templates template_file in
    and_then (env.is_file template_file) λ direct.
      if direct
      then ok template_file
      else and_then (env.is_file candidate)
          λ found. if found then ok candidate else err (file_error "Template not found")

abbrev mapping : Json → Result Json
mapping (obj fs) = ok (obj fs)
mapping _ = err (value_error "Template must be a mapping")

-- `load_template` of template_loader.py; the suffix is that of a name that has a stem.
unfoldable pub load_template : BuilderEnv → String → Result Json
unfolding ends_with
load_template env path = and_then (env.read_text path) λ text.
    and_then
      (if ends_with path ".yaml" || ends_with path ".yml"
        then env.parse_yaml text
        else env.parse_json text)
      mapping
