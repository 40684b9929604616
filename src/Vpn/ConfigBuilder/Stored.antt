-- ===== src/Vpn/ConfigBuilder/Stored.antt =====
-- The passwords in a built Hysteria2 config, and the reading of them.
use vpn_control_panel.Prelude.{
  ℕ, String, ◌≡◌, refl, true, false, none, some, [], ◌∷◌, ◌=ˢ◌, ok, Yields, Yields-and_then,
  Yields-bind, Yields-pair, Yields-map, concat, decimal,
}
use vpn_control_panel.Json.{Json, str, obj}
use vpn_control_panel.Json.Access.{dict_get}
use vpn_control_panel.Json.Editing.{put, edit}
use vpn_control_panel.Json.Editing.Laws.{Has, put-Has, put-keeps, edit-keeps}
use vpn_control_panel.Vpn.ConfigBuilder.Tls.{TlsMaterial}
use vpn_control_panel.Vpn.ConfigBuilder.Hysteria.{hysteria_tls, obfs_settings, hysteria_config}
use vpn_control_panel.Vpn.ConfigBuilder.Previous.{truthy_at, hysteria_passwords}
use vpn_control_panel.Json.Editing.Laws.{
  put-keeps_missing, edit-keeps_missing, edit-Has, Holding, is_truthy-Has,
}
use vpn_control_panel.Json.Reading.{get_or_value, or_value}
use vpn_control_panel.Json.{end, field, is_truthy}

-- The keys that `previous_for_regenerate` reads.
unfoldable pub IsStored : String → String → Json → Type 0
IsStored password obfs_password d =
    Holding (Has "password" (str password)) "auth" d
    × Has "obfs" (obfs_settings obfs_password) d
    × (dict_get "inbounds" d ≡ ok none)

module _ (port : ℕ) (password obfs_password name : String) (m : TlsMaterial) (config : Json) where
  hysteria_config-auth :
      Yields
        (Holding (Has "password" (str password)) "auth")
        (hysteria_config port password obfs_password name m config)
  unfolding hysteria_config Holding
  hysteria_config-auth =
      let Q = Holding (Has "password" (str password)) "auth" in
      let listen = str (concat (":" ∷ decimal port ∷ [])) in
      Yields-and_then Q (put "listen" listen config) _ λ a _.
        Yields-bind Q Q (edit "auth" (put "password" (str password)) a) _
          (edit-Has (Has "password" (str password)) "auth" (put "password" (str password)) a
            (λ c. put-Has "password" (str password) c))
          λ b (auth, has_b, q).
            Yields-bind (Has "auth" auth) Q (edit "tls" (hysteria_tls name m) b) _
              (edit-keeps "auth" auth "tls" _ b refl has_b)
              λ c has_c.
                Yields-map (Has "auth" auth) Q (put "obfs" (obfs_settings obfs_password) c)
                  (put-keeps "auth" auth "obfs" (obfs_settings obfs_password) c refl has_c)
                  (λ d has. (auth, has, q))

  hysteria_config-obfs :
      Yields
        (Has "obfs" (obfs_settings obfs_password))
        (hysteria_config port password obfs_password name m config)
  unfolding hysteria_config
  hysteria_config-obfs =
      let Q = Has "obfs" (obfs_settings obfs_password) in
      let listen = str (concat (":" ∷ decimal port ∷ [])) in
      Yields-and_then Q (put "listen" listen config) _ λ a _.
        Yields-and_then Q (edit "auth" (put "password" (str password)) a) _ λ b _.
          Yields-and_then Q (edit "tls" (hysteria_tls name m) b) _
            λ c _. put-Has "obfs" (obfs_settings obfs_password) c

  hysteria_config-inbounds :
      dict_get "inbounds" config ≡ ok none
      → Yields
          (λ d. dict_get "inbounds" d ≡ ok none)
          (hysteria_config port password obfs_password name m config)
  unfolding hysteria_config
  hysteria_config-inbounds missing =
      let P : Json → Type 0 = λ d. dict_get "inbounds" d ≡ ok none in
      let listen = str (concat (":" ∷ decimal port ∷ [])) in
      Yields-bind P P (put "listen" listen config) _
        (put-keeps_missing "inbounds" "listen" listen config refl missing)
        λ a h_a.
          Yields-bind P P (edit "auth" (put "password" (str password)) a) _
            (edit-keeps_missing "inbounds" "auth" _ a refl h_a)
            λ b h_b.
              Yields-bind P P (edit "tls" (hysteria_tls name m) b) _
                (edit-keeps_missing "inbounds" "tls" _ b refl h_b)
                λ c h_c.
                  put-keeps_missing "inbounds" "obfs" (obfs_settings obfs_password) c refl h_c

pub hysteria_config-IsStored :
    (port : ℕ) (password obfs_password name : String) (m : TlsMaterial) (config : Json)
    → dict_get "inbounds" config ≡ ok none
    → Yields
        (IsStored password obfs_password)
        (hysteria_config port password obfs_password name m config)
unfolding IsStored
hysteria_config-IsStored port password obfs_password name m config missing =
    let r = hysteria_config port password obfs_password name m config in
    let P = Holding (Has "password" (str password)) "auth" in
    let Q = Has "obfs" (obfs_settings obfs_password) in
    let R : Json → Type 0 = λ d. dict_get "inbounds" d ≡ ok none in
    Yields-map (λ d. P d × (Q d × R d)) (IsStored password obfs_password) r
      (Yields-pair P (λ d. Q d × R d) r
        (hysteria_config-auth port password obfs_password name m config)
        (Yields-pair Q R r (hysteria_config-obfs port password obfs_password name m config)
          (hysteria_config-inbounds port password obfs_password name m config missing)))
      (λ d (p, (q, k)). (p, q, k))

get_or_value-Has :
    (k : String) (v d e : Json) → Has k v d → is_truthy v ≡ true → get_or_value k e d ≡ ok v
unfolding get_or_value or_value Has
get_or_value-Has k v d e has t = rw (has, t) refl

truthy_at-text :
    (k s : String) (d : Json)
    → Has k (str s) d
    → (s =ˢ "") ≡ false
    → truthy_at k d ≡ ok (some (str s))
unfolding truthy_at Has
truthy_at-text k s d has written = rw (has, written) refl

salamander_of : String → Json
salamander_of password = obj (field "password" (str password) end)

obfs_is_truthy : (password : String) → is_truthy (obfs_settings password) ≡ true
unfolding obfs_settings
obfs_is_truthy password = refl

password_there : (password : String) → Has "password" (str password) (salamander_of password)
unfolding Has salamander_of
password_there password = refl

salamander_is :
    (password : String)
    → get_or_value "salamander" (obj end) (obfs_settings password) ≡ ok (salamander_of password)
unfolding get_or_value or_value obfs_settings salamander_of
salamander_is password = refl

pub hysteria_passwords-IsStored :
    (repr : Json → String) (password obfs_password : String) (d : Json)
    → IsStored password obfs_password d
    → (password =ˢ "") ≡ false
    → (obfs_password =ˢ "") ≡ false
    → hysteria_passwords repr d ≡ ok (some password, some obfs_password)
unfolding IsStored Holding hysteria_passwords
hysteria_passwords-IsStored repr password obfs_password d ((auth, has_auth, has), has_obfs, _) w
      w' =
    let auth_is =
      get_or_value-Has "auth" auth d (obj end) has_auth
        (is_truthy-Has "password" (str password) auth has) in
    let password_is = truthy_at-text "password" password auth has w in
    let obfs_is =
      get_or_value-Has "obfs" (obfs_settings obfs_password) d (obj end) has_obfs
        (obfs_is_truthy obfs_password) in
    rw
      (
        auth_is,
        password_is,
        obfs_is,
        salamander_is obfs_password,
        truthy_at-text "password" obfs_password (salamander_of obfs_password)
            (password_there obfs_password) w',
      )
      refl
