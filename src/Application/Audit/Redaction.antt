-- ===== src/Application/Audit/Redaction.antt =====
-- What the sanitizer leaves in an audit payload.
use vpn_control_panel.Prelude.{Bool, true, false, ◌≡◌, refl, ap, if◌then◌else◌}
use mathlib.Core.Path.{ap₂}
use vpn_control_panel.Json.{
  Json, null, bool, num, str, scalar, arr, obj, Items, nil, cons, Fields, end, field,
}
use vpn_control_panel.Application.Audit.{
  redacted, is_sensitive_key, sanitize_audit_payload, sanitize_items, sanitize_fields,
}

-- Below every sensitive key of a document, at any depth, stands the redaction mark.
unfoldable mutual
  pub IsRedacted : Json → Type 0
  IsRedacted null = Unit
  IsRedacted (bool b) = Unit
  IsRedacted (num n) = Unit
  IsRedacted (str s) = Unit
  IsRedacted (scalar s) = Unit
  IsRedacted (arr xs) = AreRedacted xs
  IsRedacted (obj fs) = HasRedacted fs

  pub AreRedacted : Items → Type 0
  AreRedacted nil = Unit
  AreRedacted (cons x xs) = IsRedacted x × AreRedacted xs

  pub HasRedacted : Fields → Type 0
  HasRedacted end = Unit
  HasRedacted (field k v fs) =
      (is_sensitive_key k ≡ true → v ≡ redacted) × IsRedacted v × HasRedacted fs

redact_value :
    (b : Bool) (v : Json)
    → IsRedacted (sanitize_audit_payload v)
    → (b ≡ true → (if b then redacted else sanitize_audit_payload v) ≡ redacted)
      × IsRedacted (if b then redacted else sanitize_audit_payload v)
unfolding IsRedacted
redact_value true v h = (λ _. refl, tt)
redact_value false v h = (λ e. cc, h)

mutual
  unfolding IsRedacted sanitize_audit_payload

  payload-IsRedacted : (d : Json) → IsRedacted (sanitize_audit_payload d)
  payload-IsRedacted null = tt
  payload-IsRedacted (bool b) = tt
  payload-IsRedacted (num n) = tt
  payload-IsRedacted (str s) = tt
  payload-IsRedacted (scalar s) = tt
  payload-IsRedacted (arr xs) = items-AreRedacted xs
  payload-IsRedacted (obj fs) = fields-HasRedacted fs

  items-AreRedacted : (xs : Items) → AreRedacted (sanitize_items xs)
  items-AreRedacted nil = tt
  items-AreRedacted (cons x xs) = (payload-IsRedacted x, items-AreRedacted xs)

  fields-HasRedacted : (fs : Fields) → HasRedacted (sanitize_fields fs)
  fields-HasRedacted end = tt
  fields-HasRedacted (field k v fs) =
      let r = redact_value (is_sensitive_key k) v (payload-IsRedacted v) in
      (r.0, r.1, fields-HasRedacted fs)

fixed_value :
    (b : Bool) (v : Json)
    → (b ≡ true → v ≡ redacted)
    → sanitize_audit_payload v ≡ v
    → (if b then redacted else sanitize_audit_payload v) ≡ v
fixed_value true v h e = cc (h refl)
fixed_value false v h e = e

mutual
  unfolding IsRedacted sanitize_audit_payload

  payload-fixed : (d : Json) → IsRedacted d → sanitize_audit_payload d ≡ d
  payload-fixed null h = refl
  payload-fixed (bool b) h = refl
  payload-fixed (num n) h = refl
  payload-fixed (str s) h = refl
  payload-fixed (scalar s) h = refl
  payload-fixed (arr xs) h = ap arr (items-fixed xs h)
  payload-fixed (obj fs) h = ap obj (fields-fixed fs h)

  items-fixed : (xs : Items) → AreRedacted xs → sanitize_items xs ≡ xs
  items-fixed nil h = refl
  items-fixed (cons x xs) h = ap₂ cons (payload-fixed x h.0) (items-fixed xs h.1)

  fields-fixed : (fs : Fields) → HasRedacted fs → sanitize_fields fs ≡ fs
  fields-fixed end h = refl
  fields-fixed (field k v fs) h =
      ap₂ (field k) (fixed_value (is_sensitive_key k) v h.0 (payload-fixed v h.1))
        (fields-fixed fs h.2)

-- Sanitizing redacts the value of every sensitive key, at any depth, and sanitizing twice is
-- sanitizing once.
pub sanitize_audit_payload-IsRedacted :
    (d : Json)
    → IsRedacted (sanitize_audit_payload d)
      × (sanitize_audit_payload (sanitize_audit_payload d) ≡ sanitize_audit_payload d)
sanitize_audit_payload-IsRedacted d =
    (payload-IsRedacted d, payload-fixed (sanitize_audit_payload d) (payload-IsRedacted d))
