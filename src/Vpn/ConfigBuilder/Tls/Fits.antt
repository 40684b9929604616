-- ===== src/Vpn/ConfigBuilder/Tls/Fits.antt =====
-- Where the certificate of a config may come from.
use vpn_control_panel.Prelude.{
  String, Bool, true, false, ◌≡◌, refl, ◌&&◌, not, Option, none, some, [], ◌∷◌, arith, ok, Yields,
  Yields-and_then, Yields-bind, Yields-ok, Bool-cases, inl, inr, List, strip, ◌=ˢ◌, eq_refl,
}
use vpn_control_panel.Domain.Settings.{VpnProfileSettings}
use vpn_control_panel.Vpn.ConfigBuilder.{PreviousSecrets, KeyPair, BuilderEnv, nonempty, secret}
use vpn_control_panel.Vpn.ConfigBuilder.Tls.{
  TlsMaterial, PemFiles, as_permission_error, read_pair, material_of, external_at,
  load_external_tls, reused, try_reuse_tls, own_material, minted, reuse_or_mint, external_or,
  resolve_tls, cert_matches_private_key, cert_has_dns_san, generate_self_signed_cert,
}

abbrev brings_files : TlsMaterial → Bool
brings_files m = elim m.extra_files [ [] ↦ false | f ∷ fs ↦ true ]

-- What the `cryptography` package documents of PEM: a certificate that was signed for a public key is
-- loaded with this public key, and the new private key is loaded with its own.
pub record Loads (env : BuilderEnv) : Type 0 where
  pub certificate :
      (names : List String)
      → env.certificate_public_key (env.sign_certificate names env.new_key_public env.new_key_pem)
        ≡ some env.new_key_public
  pub private_key : env.private_key_public_key env.new_key_pem ≡ some env.new_key_public

module _ (env : BuilderEnv) where
  -- The key is the certificate's, and a certificate without files of its own is an external one,
  -- which a policy that rotates the certificate does not take.
  unfoldable pub IsFitted : Bool → TlsMaterial → Type 0
  IsFitted rotate m =
      (cert_matches_private_key env m.pair.cert_pem m.pair.private_pem ≡ true)
      × ((rotate && not (brings_files m)) ≡ false)

  Fits : KeyPair → Type 0
  Fits pair = cert_matches_private_key env pair.cert_pem pair.private_pem ≡ true

  FitsIfAny : Option KeyPair → Type 0
  FitsIfAny none = Unit
  FitsIfAny (some pair) = Fits pair

  ExternalFits : Option TlsMaterial → Type 0
  ExternalFits none = Unit
  ExternalFits (some m) = Fits m.pair

  own_material-IsFitted :
      (rotate : Bool) (profile : VpnProfileSettings) (prefix : String) (pair : KeyPair)
      → Fits pair
      → IsFitted rotate (own_material profile prefix pair)
  unfolding own_material IsFitted Fits
  own_material-IsFitted rotate profile prefix pair h = (h, ground arith)

  material_of-Fits :
      (cert_path key_path : String) (files : PemFiles)
      → ExternalFits (material_of env cert_path key_path files)
  unfolding ExternalFits Fits
  material_of-Fits cert_path key_path none = tt
  material_of-Fits cert_path key_path (some (cert_pem, private_pem)) =
      elim (Bool-cases (cert_matches_private_key env cert_pem private_pem)) [
        | inl e ↦ rw e e
        | inr e ↦ rw e tt
      ]

  external_at-Fits :
      (cert_file key_file : Option String)
      → Yields ExternalFits (external_at env cert_file key_file)
  unfolding ExternalFits
  external_at-Fits (some cert_path) (some key_path) =
      Yields-and_then ExternalFits (as_permission_error (read_pair env cert_path key_path)) _
        λ files _. material_of-Fits cert_path key_path files
  external_at-Fits (some cert_path) none = tt
  external_at-Fits none (some key_path) = tt
  external_at-Fits none none = tt

  reused-Fits :
      (primary : String) (private_key public_key fingerprint : Option String)
      → FitsIfAny (reused env primary private_key public_key fingerprint)
  unfolding FitsIfAny Fits
  reused-Fits primary (some private_key) (some public_key) (some fingerprint) =
      elim (Bool-cases (
        cert_has_dns_san env public_key primary
        && cert_matches_private_key env public_key private_key)) [
          | inl e ↦ rw e (ground (arith, e))
          | inr e ↦ rw e tt
        ]
  reused-Fits primary (some private_key) (some public_key) none = tt
  reused-Fits primary (some private_key) none fingerprint = tt
  reused-Fits primary none public_key fingerprint = tt

  try_reuse_tls-Fits :
      (previous : Option PreviousSecrets) (primary : String)
      → FitsIfAny (try_reuse_tls env previous primary)
  unfolding try_reuse_tls
  try_reuse_tls-Fits previous primary =
      reused-Fits primary (nonempty (secret previous (λ p. p.private_key)))
        (nonempty (secret previous (λ p. p.public_key)))
        (nonempty (secret previous (λ p. p.cert_fingerprint)))

  module _ (loads : Loads env) (profile : VpnProfileSettings) (dns_name prefix : String) where
    generate_self_signed_cert-Fits :
        (name : String) → Yields Fits (generate_self_signed_cert env name)
    unfolding generate_self_signed_cert cert_matches_private_key Fits
    generate_self_signed_cert-Fits name = elim (Bool-cases (strip name =ˢ "")) [
      | inl e ↦ rw e tt
      | inr e ↦
          rw (e, loads.certificate (strip name ∷ []), loads.private_key)
            (eq_refl env.new_key_public)
    ]

    minted-IsFitted :
        (rotate : Bool) → Yields (IsFitted rotate) (minted env profile dns_name prefix)
    unfolding Fits
    minted-IsFitted rotate =
        Yields-and_then (IsFitted rotate) (generate_self_signed_cert env dns_name) _ λ pair e.
          own_material-IsFitted rotate profile prefix pair
            (Yields-ok Fits _ pair (generate_self_signed_cert-Fits dns_name) e)

    reuse_or_mint-IsFitted :
        (o : Option KeyPair)
        → FitsIfAny o
        → Yields (IsFitted false) (reuse_or_mint env profile dns_name prefix o)
    unfolding FitsIfAny
    reuse_or_mint-IsFitted none h = minted-IsFitted false
    reuse_or_mint-IsFitted (some pair) h = own_material-IsFitted false profile prefix pair h

    external_or-IsFitted :
        (previous : Option PreviousSecrets) (o : Option TlsMaterial)
        → ExternalFits o
        → Yields (IsFitted false) (external_or env profile previous dns_name prefix o)
    unfolding ExternalFits Fits IsFitted
    external_or-IsFitted previous (some m) h = (h, refl)
    external_or-IsFitted previous none h =
        reuse_or_mint-IsFitted (try_reuse_tls env previous dns_name)
          (try_reuse_tls-Fits previous dns_name)

    resolve_tls-Yields :
        (previous : Option PreviousSecrets) (rotate : Bool)
        → Yields (IsFitted rotate) (resolve_tls env profile previous dns_name rotate prefix)
    unfolding resolve_tls load_external_tls
    resolve_tls-Yields previous true = minted-IsFitted true
    resolve_tls-Yields previous false =
        Yields-bind ExternalFits (IsFitted false) (load_external_tls env profile) _
          (external_at-Fits (nonempty profile.tls_cert_file) (nonempty profile.tls_key_file))
          (external_or-IsFitted previous)

    -- When a signed certificate and the new key are loaded from PEM with the public key that they were
    -- written with, the certificate that a config gets fits its key, whether it is external, reused or
    -- new, and a policy that rotates certificates never gives an external one.
    pub resolve_tls-IsFitted :
        (previous : Option PreviousSecrets) (rotate : Bool) (m : TlsMaterial)
        → resolve_tls env profile previous dns_name rotate prefix ≡ ok m
        → IsFitted rotate m
    resolve_tls-IsFitted previous rotate m e =
        Yields-ok (IsFitted rotate) _ m (resolve_tls-Yields previous rotate) e
