-- ===== src/Tests/Values.antt =====
-- The theorems on documents, policies, shares and limits at concrete inputs.
use vpn_control_panel.Prelude.{ℕ, List, Bool, not, ◌==◌, ==_refl, arith}
use vpn_control_panel.Vpn.PortPicker.{pick_port}
use vpn_control_panel.Vpn.PortPicker.Choice.{IsChoice, Outcome, pick_port-Outcome}
use vpn_control_panel.Prelude.{
  ◌≡◌, refl, none, some, [], ◌∷◌, true, false, ok, err, share_not_found, All, ◌||◌,
}
use vpn_control_panel.Json.{Json, str, num, obj, end, field}
use vpn_control_panel.Json.FieldCrypto.{
  sensitive_fields, encrypt_config_data_fields, decrypt_config_data_fields,
}
use vpn_control_panel.Json.FieldCrypto.Inverse.{decrypt-encrypt_config_data_fields}
use vpn_control_panel.Domain.Enums.{ConfigProfile}
use vpn_control_panel.Domain.PublicHost.{normalize_share_public_host}
use vpn_control_panel.Persistence.Models.{Db}
use vpn_control_panel.Persistence.RateLimits.{find_entry}
use vpn_control_panel.Persistence.RateLimits.Windows.{passed, passed-eq-min}
use vpn_control_panel.Persistence.Shares.{
  NewShare, share_row, create, get_by_token_hash, revoke_by_token_hash, is_listed, expires_after,
}
use vpn_control_panel.Persistence.Consistency.{IsConsistent, has_term}
use vpn_control_panel.Application.Audit.{sanitize_audit_payload}
use vpn_control_panel.Application.Audit.Redaction.{IsRedacted, sanitize_audit_payload-IsRedacted}
use vpn_control_panel.Application.ShareExpiration.{
  ShareExpiration, seconds, resolve_share_expiration,
}
use vpn_control_panel.Application.ShareUseCases.{is_open, open_share}
use vpn_control_panel.Application.Sharing.{
  listed-iff-open, create-open_share, revoke_by_token_hash-open_share,
  resolve_share_expiration-is_open,
}
use vpn_control_panel.Tests.{encryptor, encryptor-IsFaithful, empty_db}

-- A host with a newline behind its last label is accepted.
newline_accepted : normalize_share_public_host (some "Foo.Example\n.") ≡ ok (some "foo.example\n")
unfolding normalize_share_public_host
newline_accepted = refl

abbrev hysteria_data : Json
hysteria_data = obj (
    field "auth" (obj (field "password" (str "p1") end))
      (field "obfs" (obj (field "salamander" (obj (field "password" (str "p2") end)) end)) end))

decrypt-encrypt_config_data_fields_example :
    decrypt_config_data_fields
      (encrypt_config_data_fields hysteria_data
        (sensitive_fields ConfigProfile.hysteria2)
        encryptor)
      (sensitive_fields ConfigProfile.hysteria2)
      encryptor
    ≡ ok hysteria_data
decrypt-encrypt_config_data_fields_example =
    decrypt-encrypt_config_data_fields encryptor encryptor-IsFaithful ConfigProfile.hysteria2
      hysteria_data

passed-eq-min_example :
    passed "login" 2 60 "ip:a" 0
      (("ip:a", 1) ∷ ("ip:b", 2) ∷ ("ip:a", 3) ∷ ("ip:a", 4) ∷ [])
      empty_db
    ≡ 2
unfolding find_entry
passed-eq-min_example =
    passed-eq-min "login" 2 60 "ip:a" 0 (("ip:a", 1) ∷ ("ip:b", 2) ∷ ("ip:a", 3) ∷ ("ip:a", 4) ∷ [])
      empty_db

abbrev payload : Json
payload = obj (field "config_id" (num 7) (field "password" (str "p1") end))

sanitize_audit_payload-IsRedacted_example :
    IsRedacted (sanitize_audit_payload payload)
    × (sanitize_audit_payload (sanitize_audit_payload payload) ≡ sanitize_audit_payload payload)
sanitize_audit_payload-IsRedacted_example = sanitize_audit_payload-IsRedacted payload

abbrev new_share : NewShare
new_share = record {
  token_hash = "h";
  config_id = none;
  config_version = none;
  secure = false;
  is_permanent = false;
  expires_at = some 200;
  created_by = 1;
}

abbrev shared_db : Db
shared_db = record empty_db { share_tokens = share_row new_share 5 100 ∷ [] }

shared_db-IsConsistent : IsConsistent shared_db
shared_db-IsConsistent = record { configs = tt; versions = tt; shares = (refl, tt) }

listed-iff-open_example : All (λ s. is_listed 150 s ≡ is_open 150 s) shared_db.share_tokens
listed-iff-open_example = listed-iff-open 150 shared_db shared_db-IsConsistent

create-open_share_example :
    open_share 150 (get_by_token_hash "h" (create new_share 5 100 empty_db).1)
    ≡ ok (share_row new_share 5 100)
unfolding create
create-open_share_example = create-open_share new_share 5 100 150 empty_db refl refl

revoke_by_token_hash-open_share_example :
    open_share 160 (get_by_token_hash "h" (revoke_by_token_hash "h" 150 shared_db).1)
    ≡ err share_not_found
unfolding revoke_by_token_hash
revoke_by_token_hash-open_share_example = revoke_by_token_hash-open_share "h" 150 160 shared_db refl

abbrev in_an_hour : ShareExpiration
in_an_hour = record { is_permanent = false; expires_at = some 3700 }

resolve_share_expiration-is_open_example :
    (has_term false (some 3700) ≡ true) × ((false || expires_after 100 (some 3700)) ≡ true)
unfolding resolve_share_expiration
resolve_share_expiration-is_open_example =
    resolve_share_expiration-is_open false none (some (seconds 3600)) 100 in_an_hour refl

abbrev first : List ℕ → ℕ
first [] = 0
first (p ∷ ports) = p

first-IsChoice : IsChoice first
first-IsChoice = record { member = λ p ports. ground (arith, ==_refl p) }

-- Port 443 is excluded and 2053 is not bindable.
abbrev bindable : ℕ → Bool
bindable p = not (p == 2053)

pick_port-Outcome_example :
    Outcome bindable
      (443 ∷ 2053 ∷ 8443 ∷ [])
      (443 ∷ [])
      none
      (pick_port bindable first (443 ∷ 2053 ∷ 8443 ∷ []) (443 ∷ []) none)
pick_port-Outcome_example =
    pick_port-Outcome bindable first first-IsChoice 443 (2053 ∷ 8443 ∷ []) (443 ∷ []) none

picked_port : pick_port bindable first (443 ∷ 2053 ∷ 8443 ∷ []) (443 ∷ []) none ≡ ok 8443
unfolding pick_port
picked_port = refl
