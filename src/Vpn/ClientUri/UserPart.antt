-- ===== src/Vpn/ClientUri/UserPart.antt =====
-- An independent reader of the user part of a link: what stands behind the scheme, up to the `@`
-- that ends it. A `/`, a `?` or a `#` before the `@` ends the authority, so that there is no user.
use Prim.Native.Char.{Char, code}
use Prim.Native.String.{[] as empty, ◌∷◌ as ◌∷ˢ◌, ◌++◌ as ◌++ˢ◌}
use text.Mathlib.TextLemmas.{nil-append, cons-append}
use vpn_control_panel.Prelude.{
  ℕ, String, ◌≡◌, refl, Bool, ◌||◌, Option, none, some, List, ◌∷◌, ◌++◌, ◌==◌, if◌then◌else◌, arith,
  ok, and_then, Yields-and_then, Yields-ok, contains_char, quote,
}
use vpn_control_panel.Prelude.Quote.{utf8}
use vpn_control_panel.Prelude.Quote.Reading.{unquote_bytes, unquote_bytes-quote, quote-lacks}
use vpn_control_panel.Json.{Json, str}
use vpn_control_panel.Json.Reading.{subscript, text_of}
use vpn_control_panel.Vpn.ClientUri.{UriOps, link, param, pin_params}
use vpn_control_panel.Vpn.ClientUri.Builders.{
  UriArguments, port_or, listen_port, hysteria_sni, obfs_params, quoted_password,
  build_hysteria2_uri,
}
use vpn_control_panel.Vpn.ClientUri.Query.{Lacks, after_char, after_char-append}

ends_authority : ℕ → Bool
ends_authority n = n == b'/' || n == b'?' || n == b'#'

push_user : Char → Option String → Option String
push_user c none = none
push_user c (some u) = some (c ∷ˢ u)

until_at : String → Option String
unfolding ends_authority push_user
until_at empty = none
until_at (c ∷ˢ s) =
    let rest = until_at s in
    if code c == b'@'
    then some empty
    else if ends_authority (code c)
    then none
    else push_user c rest

decoded : Option String → Option (List ℕ)
decoded none = none
decoded (some user) = some (unquote_bytes user)

-- The bytes of the user of a link.
unfoldable pub user_bytes : String → Option (List ℕ)
unfolding decoded until_at after_char
user_bytes uri = decoded (until_at (after_char b'/' (after_char b'/' uri)))

-- A text that can stand before the `@`.
IsUser : String → Type 0
IsUser u = Lacks b'@' u × Lacks b'/' u × Lacks b'?' u × Lacks b'#' u

until_at-append : (u t : String) → IsUser u → until_at (u ++ˢ ("@" ++ˢ t)) ≡ some u
unfolding until_at IsUser contains_char ends_authority push_user
until_at-append empty t h = rw (nil-append, cons-append) refl
until_at-append (c ∷ˢ u) t (a, b, d, e) = rw cons-append (
    ground (
      arith,
      a,
      b,
      d,
      e,
      until_at-append u t
          (ground (arith, a), ground (arith, b), ground (arith, d), ground (arith, e)),
    ))

after_scheme : (t : String) → after_char b'/' (after_char b'/' ("://" ++ˢ t)) ≡ t
unfolding after_char
after_scheme t = rw (cons-append, cons-append, cons-append, nil-append) refl

module _ (ops : UriOps) (args : UriArguments) (password : String) where
  HasUser : String → Type 0
  HasUser uri = user_bytes uri ≡ some (utf8 password)

  link-HasUser :
      (host : String) (port : ℕ) (params : List String) (label : String)
      → HasUser (link "hysteria2" (quote "" password) host port params label)
  unfolding HasUser user_bytes link decoded contains_char
  link-HasUser host port params label =
      let user : IsUser (quote "" password) =
        unfold IsUser in
        (
          quote-lacks "" password b'@' refl refl refl,
          quote-lacks "" password b'/' refl refl refl,
          quote-lacks "" password b'?' refl refl refl,
          quote-lacks "" password b'#' refl refl refl,
        ) in
      rw
        (
          after_char-append b'/' "hysteria2" _ refl,
          after_scheme,
          until_at-append (quote "" password) _ user,
          unquote_bytes-quote "" password refl,
        )
        refl

  -- When a Hysteria2 link is built for a password of the config, a reader finds the password, in
  -- UTF-8, as the user of the link, whatever the password is.
  pub build_hysteria2_uri-user_bytes :
      (config : Json) (label uri : String)
      → and_then (subscript "auth" config) (subscript "password") ≡ ok (str password)
      → build_hysteria2_uri ops args config label ≡ ok uri
      → user_bytes uri ≡ some (utf8 password)
  unfolding build_hysteria2_uri quoted_password HasUser
  build_hysteria2_uri-user_bytes config label uri has e =
      let P = HasUser in
      Yields-ok P _ uri
        (Yields-and_then P (port_or args.public_port (listen_port ops.repr config)) _ λ port _.
          rw has (
            Yields-and_then P (hysteria_sni args.host config) _ λ sni _.
              Yields-and_then P (obfs_params ops config) _ λ obfs _.
                link-HasUser args.host port
                  (param "sni=" (text_of ops.repr sni) ∷ obfs
                    ++ pin_params args.secure args.cert_fingerprint)
                  label))
        e
