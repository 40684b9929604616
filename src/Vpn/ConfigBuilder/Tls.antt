-- ===== src/Vpn/ConfigBuilder/Tls.antt =====
-- The certificate of a config: an external one, the previous one or a new one.
pub mod Fits
use vpn_control_panel.Prelude.{
  String, Bool, true, false, ◌&&◌, not, Option, none, some, List, [], ◌∷◌, ◌=ˢ◌, if◌then◌else◌,
  Result, ok, err, and_then, file_error, concat, get_or, any, strip, value_error,
}
use vpn_control_panel.Domain.Settings.{VpnProfileSettings}
use vpn_control_panel.Vpn.ConfigBuilder.{
  PreviousSecrets, KeyPair, BuilderEnv, ExtraFiles, nonempty, secret, child_path,
}

-- `cert_fingerprint_sha256` of panel/infrastructure/vpn/crypto_utils.py
unfoldable pub cert_fingerprint_sha256 : BuilderEnv → String → String
cert_fingerprint_sha256 env cert_pem = env.certificate_sha256 cert_pem

abbrev same_key : Option String → Option String → Bool
same_key (some p) (some q) = p =ˢ q
same_key _ _ = false

unfoldable pub cert_matches_private_key : BuilderEnv → String → String → Bool
cert_matches_private_key env cert_pem private_key_pem =
    same_key (env.certificate_public_key cert_pem) (env.private_key_public_key private_key_pem)

-- `cert_has_dns_san` with a required name; a certificate without the extension has no names.
unfoldable pub cert_has_dns_san : BuilderEnv → String → String → Bool
cert_has_dns_san env cert_pem required_name = elim (env.certificate_dns_names cert_pem) [
  | none ↦ false
  | some names ↦ any (λ n. n =ˢ required_name) names
]

abbrev signed : BuilderEnv → List String → KeyPair
signed env names =
    let cert_pem = env.sign_certificate names env.new_key_public env.new_key_pem in
    record {
      private_pem = env.new_key_pem;
      cert_pem = cert_pem;
      fingerprint = env.certificate_sha256 cert_pem;
    }

-- For one DNS name.
unfoldable pub generate_self_signed_cert : BuilderEnv → String → Result KeyPair
unfolding strip
generate_self_signed_cert env dns_name =
    let name = strip dns_name in
    if name =ˢ ""
    then err (value_error "dns_names must contain at least one name for the certificate SAN")
    else ok (signed env (name ∷ []))

pub record TlsMaterial : Type 0 where
  pub pair : KeyPair
  pub cert_file : String
  pub key_file : String
  pub extra_files : ExtraFiles

-- `except OSError`: every failure of the file system becomes a PermissionError.
abbrev pub as_permission_error {ℓ} : {A : Type ℓ} → Result A → Result A
as_permission_error (ok a) = ok a
as_permission_error (err e) = err (file_error "Cannot read profile TLS")

abbrev pub PemFiles : Type 0
PemFiles = Option (String × String)

-- The certificate and the key, when both files are there.
unfoldable pub read_pair : BuilderEnv → String → String → Result PemFiles
read_pair env cert_path key_path = and_then (env.is_file cert_path) λ has_cert.
    if has_cert
    then (and_then (env.is_file key_path) λ has_key.
        if has_key
        then (and_then (env.read_text cert_path) λ cert_pem.
            and_then (env.read_text key_path) λ private_pem. ok (some (cert_pem, private_pem)))
        else ok none)
    else ok none

abbrev pub material_of : BuilderEnv → String → String → PemFiles → Option TlsMaterial
material_of env cert_path key_path none = none
material_of env cert_path key_path (some (cert_pem, private_pem)) =
    if cert_matches_private_key env cert_pem private_pem
    then some (record {
      pair = record {
        private_pem = private_pem;
        cert_pem = cert_pem;
        fingerprint = cert_fingerprint_sha256 env cert_pem;
      };
      cert_file = cert_path;
      key_file = key_path;
      extra_files = [];
    })
    else none

abbrev pub external_at : BuilderEnv → Option String → Option String → Result (Option TlsMaterial)
external_at env (some cert_path) (some key_path) =
    and_then (as_permission_error (read_pair env cert_path key_path))
      λ files. ok (material_of env cert_path key_path files)
external_at env _ _ = ok none

-- `_load_external_tls`, with the paths of the files beside what they hold
unfoldable pub load_external_tls : BuilderEnv → VpnProfileSettings → Result (Option TlsMaterial)
unfolding read_pair cert_matches_private_key cert_fingerprint_sha256
load_external_tls env profile =
    external_at env (nonempty profile.tls_cert_file) (nonempty profile.tls_key_file)

abbrev pub reused :
    BuilderEnv → String → Option String → Option String → Option String → Option KeyPair
reused env primary (some private_key) (some public_key) (some fingerprint) =
    if cert_has_dns_san env public_key primary
      && cert_matches_private_key env public_key private_key
    then some
        (record { private_pem = private_key; cert_pem = public_key; fingerprint = fingerprint })
    else none
reused env primary _ _ _ = none

unfoldable pub try_reuse_tls : BuilderEnv → Option PreviousSecrets → String → Option KeyPair
unfolding cert_has_dns_san cert_matches_private_key
try_reuse_tls env previous primary =
    reused env primary (nonempty (secret previous (λ p. p.private_key)))
      (nonempty (secret previous (λ p. p.public_key)))
      (nonempty (secret previous (λ p. p.cert_fingerprint)))

-- `{"cert": cert_pem, "key": private_pem}` beside the paths in the profile's directory
unfoldable pub own_material : VpnProfileSettings → String → KeyPair → TlsMaterial
unfolding child_path
own_material profile prefix pair =
    let cert_dir = get_or profile.cert_dir "/usr/local/etc/xray/certs" in
    let file_prefix = get_or (nonempty profile.cert_prefix) prefix in
    record {
      pair = pair;
      cert_file = child_path cert_dir (concat (file_prefix ∷ "-cert.pem" ∷ []));
      key_file = child_path cert_dir (concat (file_prefix ∷ "-key.pem" ∷ []));
      extra_files = ("cert", pair.cert_pem) ∷ ("key", pair.private_pem) ∷ [];
    }

abbrev pub minted : BuilderEnv → VpnProfileSettings → String → String → Result TlsMaterial
minted env profile dns_name prefix =
    and_then (generate_self_signed_cert env dns_name) λ pair. ok (own_material profile prefix pair)

abbrev pub reuse_or_mint :
    BuilderEnv → VpnProfileSettings → String → String → Option KeyPair → Result TlsMaterial
reuse_or_mint env profile dns_name prefix none = minted env profile dns_name prefix
reuse_or_mint env profile dns_name prefix (some pair) = ok (own_material profile prefix pair)

abbrev pub external_or :
    BuilderEnv
    → VpnProfileSettings
    → Option PreviousSecrets
    → String
    → String
    → Option TlsMaterial
    → Result TlsMaterial
external_or env profile previous dns_name prefix (some material) = ok material
external_or env profile previous dns_name prefix none =
    reuse_or_mint env profile dns_name prefix (try_reuse_tls env previous dns_name)

-- `_resolve_tls`, for its one DNS name
unfoldable pub resolve_tls :
    BuilderEnv
    → VpnProfileSettings
    → Option PreviousSecrets
    → String
    → Bool
    → String
    → Result TlsMaterial
unfolding load_external_tls try_reuse_tls own_material generate_self_signed_cert
resolve_tls env profile previous dns_name true prefix = minted env profile dns_name prefix
resolve_tls env profile previous dns_name false prefix =
    and_then (load_external_tls env profile) (external_or env profile previous dns_name prefix)
