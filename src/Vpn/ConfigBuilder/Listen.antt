-- ===== src/Vpn/ConfigBuilder/Listen.antt =====
-- The `listen` text of a Hysteria2 config, and the port that is read from it.
use Prim.Native.String.{[] as empty, ◌∷◌ as ◌∷ˢ◌}
use text.Mathlib.TextLemmas.{cons-append, nil-append, append-nil}
use vpn_control_panel.Prelude.{
  ℕ, String, ◌≡◌, refl, false, [], ◌∷◌, arith, ok, Yields, Yields-bind, concat, decimal,
  int_of-decimal, decimal-lacks, lstrip_char, contains_char,
}
use vpn_control_panel.Json.{Json, str}
use vpn_control_panel.Json.Reading.{int_value, text_of}
use vpn_control_panel.Json.Editing.{put, edit}
use vpn_control_panel.Json.Editing.Laws.{Has, put-Has, subscript-Has, put-keeps, edit-keeps}
use vpn_control_panel.Vpn.ClientUri.Builders.{listen_port}
use vpn_control_panel.Vpn.ConfigBuilder.Tls.{TlsMaterial}
use vpn_control_panel.Vpn.ConfigBuilder.Hysteria.{hysteria_tls, obfs_settings, hysteria_config}

lstrip_char-lacks : (n : ℕ) (s : String) → contains_char n s ≡ false → lstrip_char n s ≡ s
unfolding lstrip_char contains_char
lstrip_char-lacks n empty h = refl
lstrip_char-lacks n (c ∷ˢ s) h = ground (arith, h)

-- The text that `listen` gets is a colon and the digits of the port.
lstrip_char-listen : (port : ℕ) → lstrip_char b':' (concat (":" ∷ decimal port ∷ [])) ≡ decimal port
unfolding lstrip_char
lstrip_char-listen port =
    rw (cons-append, nil-append, append-nil)
      (lstrip_char-lacks b':' (decimal port) (decimal-lacks b':' port (omega arith)))

pub listen_port-Has :
    (repr : Json → String) (port : ℕ) (config : Json)
    → Has "listen" (str (concat (":" ∷ decimal port ∷ []))) config
    → listen_port repr config ≡ ok port
unfolding listen_port text_of int_value
listen_port-Has repr port config has =
    rw
      (
        subscript-Has "listen" (str (concat (":" ∷ decimal port ∷ []))) config has,
        lstrip_char-listen port,
        int_of-decimal port,
      )
      refl

pub hysteria_config-Has :
    (port : ℕ) (password obfs_password name : String) (m : TlsMaterial) (config : Json)
    → Yields
        (Has "listen" (str (concat (":" ∷ decimal port ∷ []))))
        (hysteria_config port password obfs_password name m config)
unfolding hysteria_config
hysteria_config-Has port password obfs_password name m config =
    let listen = str (concat (":" ∷ decimal port ∷ [])) in
    let P = Has "listen" listen in
    Yields-bind P P (put "listen" listen config) _ (put-Has "listen" listen config) λ a has_a.
      Yields-bind P P (edit "auth" (put "password" (str password)) a) _
        (edit-keeps "listen" listen "auth" _ a refl has_a)
        λ b has_b.
          Yields-bind P P (edit "tls" (hysteria_tls name m) b) _
            (edit-keeps "listen" listen "tls" _ b refl has_b)
            λ c has_c. put-keeps "listen" listen "obfs" (obfs_settings obfs_password) c refl has_c
