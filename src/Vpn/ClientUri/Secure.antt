-- ===== src/Vpn/ClientUri/Secure.antt =====
-- Whether a link tells the client not to verify the server.
use Prim.Native.Char.{code}
use Prim.Native.String.{[] as empty, ◌∷◌ as ◌∷ˢ◌, ◌++◌ as joined}
use text.Mathlib.TextLemmas.{cons-append, cons-ne-nil, head-eq_of_cons-eq, tail-eq_of_cons-eq}
use vpn_control_panel.Prelude.{
  String, ◌≡◌, refl, sym, ap, ◌∙◌, Bool, true, false, ◌||◌, not, List, [], ◌∷◌, ◌++◌, ◌==◌, ◌=ˢ◌,
  eq_iff, All, any, arith, Bool-cases, inl, inr, Yields, Yields-and_then, concat, quote,
  contains_char, lower, strip,
}
use vpn_control_panel.Prelude.Quote.Reading.{contains_char-append, quote-lacks}
use vpn_control_panel.Json.{Json, is_truthy}
use vpn_control_panel.Json.Reading.{text_of}
use vpn_control_panel.Vpn.ClientUri.{UriOps, param, pin_hex, tls_params, pin_params}
use vpn_control_panel.Vpn.ClientUri.Builders.{
  UriArguments, xhttp_params, grpc_params, obfs_params, password_params, salamander_params,
}
use vpn_control_panel.Vpn.ClientUri.Query.{IsParam}

-- Two texts have different characters at some place.
unfoldable pub differs : String → String → Bool
differs empty t = false
differs (c ∷ˢ s) empty = true
differs (c ∷ˢ s) (d ∷ˢ t) = not (code c == code d) || differs s t

differs-eq : (s t u : String) → joined s u ≡ t → differs s t ≡ false
unfolding differs
differs-eq empty t u e = refl
differs-eq (c ∷ˢ s) empty u e = absurd (cons-ne-nil c (joined s u) (sym (cons-append c s u) ∙ e))
differs-eq (c ∷ˢ s) (d ∷ˢ t) u e =
    let same = sym (cons-append c s u) ∙ e in
    let rest = differs-eq s t u (tail-eq_of_cons-eq same) in
    ground (arith, rest, ap code (head-eq_of_cons-eq same))

-- A text that starts differently is another text.
starts_apart : (s t u : String) → differs s t ≡ true → (joined s u =ˢ t) ≡ false
starts_apart s t u h = elim (Bool-cases (joined s u =ˢ t)) [
  | inl e ↦ ground (arith, h, differs-eq s t u ((eq_iff (joined s u) t).0 e))
  | inr e ↦ e
]

abbrev pub insecure : String
insecure = "insecure=1"

-- The parameters can be read back, and say whether the client verifies the server.
unfoldable pub Says : Bool → List String → Type 0
Says secure params = All IsParam params × (any (λ p. p =ˢ insecure) params ≡ not secure)

-- A parameter with a quoted value.
param-IsParam : (name value : String) → IsParam name → IsParam (param name value)
unfolding param IsParam contains_char
param-IsParam name value (amp, hash) = (
  rw (contains_char-append, contains_char-append, amp, quote-lacks "" value b'&' refl refl refl)
      refl,
  rw (contains_char-append, contains_char-append, hash, quote-lacks "" value b'#' refl refl refl)
      refl,
)

param-other :
    (name value : String) → differs name insecure ≡ true → (param name value =ˢ insecure) ≡ false
unfolding param
param-other name value h = starts_apart name insecure (concat (quote "" value ∷ [])) h

pub Says-param :
    (secure : Bool) (name value : String) (params : List String)
    → IsParam name
    → differs name insecure ≡ true
    → Says secure params
    → Says secure (param name value ∷ params)
unfolding Says
Says-param secure name value params good h (all, e) =
    ((param-IsParam name value good, all), ground (arith, e, param-other name value h))

Says-fixed :
    (secure : Bool) (p : String) (params : List String)
    → IsParam p
    → (p =ˢ insecure) ≡ false
    → Says secure params
    → Says secure (p ∷ params)
unfolding Says
Says-fixed secure p params good h (all, e) = ((good, all), ground (arith, e, h))

-- The written pin of a certificate.
prefix-IsParam :
    (name value : String) → IsParam name → IsParam value → IsParam (concat (name ∷ value ∷ []))
unfolding IsParam contains_char
prefix-IsParam name value (amp, hash) (amp', hash') = (
  rw (contains_char-append, contains_char-append, amp, amp') refl,
  rw (contains_char-append, contains_char-append, hash, hash') refl,
)

Says-pin :
    (secure : Bool) (name value : String) (params : List String)
    → IsParam name
    → IsParam value
    → differs name insecure ≡ true
    → Says secure params
    → Says secure (concat (name ∷ value ∷ []) ∷ params)
unfolding Says
Says-pin secure name value params good good' h (all, e) = (
  (prefix-IsParam name value good good', all),
  ground (arith, e, starts_apart name insecure (concat (value ∷ [])) h),
)

tls_params-Says :
    (secure : Bool) (fingerprint : String)
    → IsParam (pin_hex fingerprint)
    → Says secure (tls_params secure fingerprint)
unfolding tls_params Says IsParam contains_char differs
tls_params-Says false fingerprint good = (((refl, refl), tt), refl)
tls_params-Says true fingerprint good = elim (Bool-cases (pin_hex fingerprint =ˢ "")) [
  | inl e ↦ rw e (tt, refl)
  | inr e ↦ rw e (Says-pin true "pcs=" (pin_hex fingerprint) [] (refl, refl) good refl (tt, refl))
]

pub pin_params-Says :
    (secure : Bool) (fingerprint : String)
    → IsParam (pin_hex fingerprint)
    → Says secure (pin_params secure fingerprint)
unfolding pin_params Says IsParam contains_char differs
pin_params-Says false fingerprint good = (((refl, refl), tt), refl)
pin_params-Says true fingerprint good =
    let ends : Says true ("insecure=0" ∷ []) = (((refl, refl), tt), refl) in
    elim (Bool-cases (pin_hex fingerprint =ˢ "")) [
      | inl e ↦ rw e ends
      | inr e ↦ rw e (
          Says-pin true "pinSHA256=" (pin_hex fingerprint) ("insecure=0" ∷ []) (refl, refl) good
            refl ends)
    ]

module _ (ops : UriOps) (args : UriArguments) (good : IsParam (pin_hex args.cert_fingerprint)) where
  pub xhttp_params-Says :
      (xhost path mode sni : Json) → Says args.secure (xhttp_params ops args xhost path mode sni)
  unfolding xhttp_params IsParam contains_char differs
  xhttp_params-Says xhost path mode sni =
      let s = args.secure in
      let ends = tls_params-Says s args.cert_fingerprint good in
      Says-fixed s "type=xhttp" _ (refl, refl) refl
        (Says-fixed s "security=tls" _ (refl, refl) refl
          (Says-param s "host=" (text_of ops.repr xhost) _ (refl, refl) refl
            (Says-param s "path=" (text_of ops.repr path) _ (refl, refl) refl
              (Says-param s "mode=" (text_of ops.repr mode) _ (refl, refl) refl
                (Says-fixed s "fp=chrome" _ (refl, refl) refl
                  (Says-param s "sni=" (text_of ops.repr sni) _ (refl, refl) refl ends))))))

  pub grpc_params-Says :
      (service_name sni : Json) → Says args.secure (grpc_params ops args service_name sni)
  unfolding grpc_params IsParam contains_char differs
  grpc_params-Says service_name sni =
      let s = args.secure in
      let ends = tls_params-Says s args.cert_fingerprint good in
      Says-fixed s "type=grpc" _ (refl, refl) refl
        (Says-fixed s "security=tls" _ (refl, refl) refl
          (Says-param s "serviceName=" (text_of ops.repr service_name) _ (refl, refl) refl
            (Says-fixed s "fp=chrome" _ (refl, refl) refl
              (Says-param s "sni=" (text_of ops.repr sni) _ (refl, refl) refl ends))))

-- Parameters that may stand before others without saying anything of the verification.
unfoldable pub IsSilent : List String → Type 0
IsSilent before =
    (secure : Bool) (params : List String) → Says secure params → Says secure (before ++ params)

password_params-IsSilent :
    (ops : UriOps) (password : Json) → IsSilent (password_params ops password)
unfolding password_params IsSilent IsParam contains_char differs
password_params-IsSilent ops password = elim (Bool-cases (is_truthy password)) [
  | inl e ↦ rw e (λ secure params good.
      Says-fixed secure "obfs=salamander" _ (refl, refl) refl
        (Says-param secure "obfs-password=" (text_of ops.repr password) params (refl, refl) refl
          good))
  | inr e ↦ rw e (λ secure params good. good)
]

salamander_params-IsSilent :
    (ops : UriOps) (obfs kind : Json) → Yields IsSilent (salamander_params ops obfs kind)
unfolding salamander_params IsSilent
salamander_params-IsSilent ops obfs kind =
    elim (Bool-cases (lower (strip (text_of ops.repr kind)) =ˢ "salamander")) [
      | inl e ↦
          rw e (search (Yields-and_then {A = Json} IsSilent, password_params-IsSilent) depth 8)
      | inr e ↦ rw e (λ secure params good. good)
    ]

pub obfs_params-IsSilent : (ops : UriOps) (config : Json) → Yields IsSilent (obfs_params ops config)
unfolding obfs_params
obfs_params-IsSilent ops config =
    search (Yields-and_then {A = Json} IsSilent, salamander_params-IsSilent) depth 8
