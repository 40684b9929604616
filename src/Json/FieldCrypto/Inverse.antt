-- ===== src/Json/FieldCrypto/Inverse.antt =====
-- Decryption of the sensitive fields undoes their encryption.
use vpn_control_panel.Prelude.{
  String, ◌≡◌, ◌≢◌, refl, some, List, [], ◌∷◌, ◌=ˢ◌, eq_iff, arith, inl, inr, none, false, ok,
  if◌then◌else◌, Option-cases, ap, ◌∙◌, sym, Bool-cases,
}
use vpn_control_panel.Prelude.{int_of}
use vpn_control_panel.Json.{Json, null, str}
use vpn_control_panel.Json.Access.{get_by_path}
use vpn_control_panel.Domain.Enums.{ConfigProfile}
use vpn_control_panel.Json.FieldCrypto.{
  FieldEncryptor, sensitive_fields, apply_at, decrypt_at, encrypt_config_data_fields,
  decrypt_config_data_fields,
}
use vpn_control_panel.Json.FieldCrypto.Update.{
  update_at, set_by_path-update_at, update_at_of_none, update_at_of_some, update_at_id,
  get_by_path-update_at, update_at-update_at, update_at_comm,
}

on_text : (String → String) → Json → Json
on_text f (str s) = if s =ˢ "" then str s else str (f s)
on_text f d = d

-- A value that `on_text` leaves alone is left alone by the round.
update_at-fixed :
    (f : String → String) (path : List String) (c d : Json)
    → get_by_path path d ≡ some c
    → on_text f c ≡ c
    → update_at (on_text f) path d ≡ d
update_at-fixed f path c d h fixed =
    update_at_of_some (on_text f) (λ x. x) path c d h fixed ∙ update_at_id path d

apply_at-text :
    (f : String → String) (path : List String) (s : String) (d : Json)
    → get_by_path path d ≡ some (str s)
    → apply_at f path d ≡ update_at (on_text f) path d
unfolding apply_at
apply_at-text f path s d h = elim (Bool-cases (s =ˢ "")) [
  | inl e ↦
      rw (h, apply_at) (rw e (sym (update_at-fixed f path (str s) d h (unfold on_text in rw e))))
  | inr e ↦
      rw (h, apply_at)
        (rw e (
          rw (set_by_path-update_at path (str (f s)) (str s) d h) (
            update_at_of_some (λ _. str (f s)) (on_text f) path (str s) d h
              (unfold on_text in rw e))))
]

-- A round of the loop at a value that is found.
apply_at-found :
    (f : String → String) (path : List String) (c d : Json)
    → get_by_path path d ≡ some c
    → apply_at f path d ≡ update_at (on_text f) path d
unfolding apply_at on_text
apply_at-found f path (str s) d h = apply_at-text f path s d h
apply_at-found f path c d h = rw (h, apply_at) (sym (update_at-fixed f path c d h refl))

apply_at-eq-update_at :
    (f : String → String) (path : List String) (d : Json)
    → apply_at f path d ≡ update_at (on_text f) path d
unfolding apply_at
apply_at-eq-update_at f path d = elim (Option-cases (get_by_path path d)) [
  | inl e ↦ rw (e, apply_at) (sym (update_at_of_none (on_text f) path d e))
  | inr (c, e) ↦ apply_at-found f path c d e
]

-- What Fernet documents: a token decrypts to the text that was encrypted, and no token is empty.
pub record IsFaithful (e : FieldEncryptor) : Type 0 where
  pub decrypts : (s : String) → e.decrypt (e.encrypt s) ≡ ok s
  pub nonempty : (s : String) → e.encrypt s ≢ ""

update_at-same :
    (g : Json → Json) (path : List String) (c d : Json)
    → get_by_path path d ≡ some c
    → g c ≡ c
    → update_at g path d ≡ d
update_at-same g path c d h same =
    update_at_of_some g (λ x. x) path c d h same ∙ update_at_id path d

module _ (e : FieldEncryptor) (ok_e : IsFaithful e) where
  abbrev seal : List String → Json → Json
  seal path d = update_at (on_text e.encrypt) path d

  decrypt_at-none :
      (path : List String) (d : Json) → get_by_path path d ≡ none → decrypt_at e path d ≡ ok d
  unfolding decrypt_at
  decrypt_at-none path d h = rw (h, decrypt_at) refl

  decrypt_at-text :
      (path : List String) (d : Json) (s t : String)
      → get_by_path path d ≡ some (str s)
      → (s =ˢ "") ≡ false
      → e.decrypt s ≡ ok t
      → decrypt_at e path d ≡ ok (update_at (λ _. str t) path d)
  unfolding decrypt_at
  decrypt_at-text path d s t h w k =
      rw (h, decrypt_at) (rw w (rw k (rw (set_by_path-update_at path (str t) (str s) d h) refl)))

  text-sealed :
      (path : List String) (d : Json) (s : String)
      → get_by_path path d ≡ some (str s)
      → (s =ˢ "") ≡ false
      → decrypt_at e path (seal path d) ≡ ok d
  unfolding on_text
  text-sealed path d s h w =
      let after = get_by_path-update_at (on_text e.encrypt) path (str s) d h in
      let token : on_text e.encrypt (str s) ≡ str (e.encrypt s) = rw w refl in
      decrypt_at-text path (seal path d) (e.encrypt s) s (after ∙ ap some token)
        (ground (arith, ok_e.nonempty s, eq_iff (e.encrypt s) "")) (ok_e.decrypts s)
      ∙ ap ok (
          update_at-update_at (λ _. str s) (on_text e.encrypt) path d
          ∙ update_at-same (λ _. str s) path (str s) d h refl)

  -- A value that is no text, or an empty one, is passed over.
  passed-sealed :
      (path : List String) (d v : Json)
      → get_by_path path d ≡ some v
      → on_text e.encrypt v ≡ v
      → decrypt_at e path d ≡ ok d
      → decrypt_at e path (seal path d) ≡ ok d
  passed-sealed path d v h same passes =
      ap (decrypt_at e path) (update_at-same (on_text e.encrypt) path v d h same) ∙ passes

  value-sealed :
      (path : List String) (d v : Json)
      → get_by_path path d ≡ some v
      → decrypt_at e path (seal path d) ≡ ok d
  unfolding decrypt_at on_text
  value-sealed path d (str s) h = elim (Bool-cases (s =ˢ "")) [
    | inl w ↦ passed-sealed path d (str s) h (rw w refl) (rw (h, decrypt_at) (rw w refl))
    | inr w ↦ text-sealed path d s h w
  ]
  value-sealed path d null h = passed-sealed path d null h refl (rw (h, decrypt_at) refl)
  value-sealed path d v h = passed-sealed path d v h refl (rw (h, decrypt_at) refl)

  decrypt_at-sealed : (path : List String) (d : Json) → decrypt_at e path (seal path d) ≡ ok d
  decrypt_at-sealed path d = elim (Option-cases (get_by_path path d)) [
    | inl n ↦
        ap (decrypt_at e path) (update_at_of_none (on_text e.encrypt) path d n)
        ∙ decrypt_at-none path d n
    | inr (v, n) ↦ value-sealed path d v n
  ]

  decrypt_at-apply_at :
      (path : List String) (d : Json) → decrypt_at e path (apply_at e.encrypt path d) ≡ ok d
  decrypt_at-apply_at path d =
      ap (decrypt_at e path) (apply_at-eq-update_at e.encrypt path d) ∙ decrypt_at-sealed path d

  -- The rounds of the two secrets of a Hysteria2 config are independent.
  hysteria_rounds :
      (d : Json)
      → apply_at e.encrypt
          ("obfs" ∷ "salamander" ∷ "password" ∷ [])
          (apply_at e.encrypt ("auth" ∷ "password" ∷ []) d)
        ≡ apply_at e.encrypt
            ("auth" ∷ "password" ∷ [])
            (apply_at e.encrypt ("obfs" ∷ "salamander" ∷ "password" ∷ []) d)
  unfolding int_of
  hysteria_rounds d = simp apply_at-eq-update_at (
      update_at_comm (on_text e.encrypt) (on_text e.encrypt) "obfs" "auth"
        ("salamander" ∷ "password" ∷ []) ("password" ∷ []) d refl refl
        (ground (arith, eq_iff "obfs" "auth")))

  -- For every profile and every document, decrypting the profile's sensitive fields of the
  -- document in which they were encrypted raises nothing and gives the document back, missing and
  -- non-text fields and a path that leads through a list included. A document is a tree: aliases of
  -- YAML and keys that are no text are outside of it. The encryptor is assumed to decrypt what it
  -- encrypts and to give no empty token.
  pub decrypt-encrypt_config_data_fields :
      (profile : ConfigProfile) (d : Json)
      → decrypt_config_data_fields
          (encrypt_config_data_fields d (sensitive_fields profile) e)
          (sensitive_fields profile)
          e
        ≡ ok d
  unfolding decrypt_config_data_fields encrypt_config_data_fields sensitive_fields
  decrypt-encrypt_config_data_fields ConfigProfile.hysteria2 d =
      let auth : List String = "auth" ∷ "password" ∷ [] in
      let obfs : List String = "obfs" ∷ "salamander" ∷ "password" ∷ [] in
      rw
        (
          hysteria_rounds d,
          decrypt_at-apply_at auth (apply_at e.encrypt obfs d),
          decrypt_at-apply_at obfs d,
        )
        refl
  decrypt-encrypt_config_data_fields ConfigProfile.xray_reality d =
      rw
        (decrypt_at-apply_at
          ("inbounds" ∷ "0" ∷ "streamSettings" ∷ "realitySettings" ∷ "privateKey" ∷ []) d)
        refl
  decrypt-encrypt_config_data_fields ConfigProfile.xray_grpc d = refl
  decrypt-encrypt_config_data_fields ConfigProfile.xray_xhttp d = refl
