-- ===== src/Prelude/Quote.antt =====
-- `urllib.parse.quote`: the UTF-8 bytes of a text, percent-encoded but for the unreserved
-- characters and those of `safe`.
pub mod Reading
use Prim.Native.Nat.{ℕ, ◌+◌, ◌-◌, ◌*◌, ◌/◌, ◌%◌, ◌<◌}
use Prim.Native.Char.{Char, code}
use Prim.Native.String.{String, [], ◌∷◌, ◌++◌}
use mathlib.Core.Path.{◌≡◌, refl, ap, ◌∙◌}
use mathlib.Core.Logic.{inl, inr}
use mathlib.Core.Bool.{Bool, true, false, ◌&&◌, ◌||◌}
use mathlib.Core.List.{List, ◌++◌ as append}
use native.Mathlib.Omega.{arith}
use text.Mathlib.TextLemmas.{nil-append, cons-append}
use vpn_control_panel.Prelude.Tests.{leb, ltb, ◌==◌, ==_iff, if◌then◌else◌, Bool-cases}
use vpn_control_panel.Prelude.Texts.{contains_char}
use vpn_control_panel.Prelude.Decimal.{char_of, code-char_of}
use vpn_control_panel.Prelude.Lists.{All}

abbrev two : ℕ → ℕ → List ℕ
two a b = List.◌∷◌ a (List.◌∷◌ b List.[])

-- The bytes of one character; the first of four holds the three bits above the low eighteen.
unfoldable pub utf8_char : ℕ → List ℕ
utf8_char n =
    if ltb n 128
    then List.◌∷◌ n List.[]
    else if ltb n 2048
    then two (192 + n / 64) (128 + n % 64)
    else if ltb n 65536
    then List.◌∷◌ (224 + n / 4096) (two (128 + n / 64 % 64) (128 + n % 64))
    else append (two (240 + n / 262144 % 8) (128 + n / 4096 % 64))
        (two (128 + n / 64 % 64) (128 + n % 64))

-- `s.encode()`
unfoldable pub utf8 : String → List ℕ
unfolding utf8_char
utf8 [] = List.[]
utf8 (c ∷ s) = append (utf8_char (code c)) (utf8 s)

unfoldable pub is_unreserved : ℕ → Bool
is_unreserved n =
    (leb b'A' n && leb n b'Z')
    || (leb b'a' n && leb n b'z')
    || (leb b'0' n && leb n b'9')
    || n == b'_'
    || n == b'.'
    || n == b'-'
    || n == b'~'

unfoldable pub hex_digit : ℕ → Char
unfolding char_of
hex_digit d = char_of (if ltb d 10 then b'0' + d else 55 + d)

unfoldable pub quote_byte : String → ℕ → String
unfolding is_unreserved hex_digit contains_char
quote_byte safe n =
    if is_unreserved n || contains_char n safe
    then char_of n ∷ []
    else "%" ∷ hex_digit (n / 16) ∷ hex_digit (n % 16) ∷ []

unfoldable pub quote_bytes : String → List ℕ → String
unfolding quote_byte
quote_bytes safe List.[] = []
quote_bytes safe (List.◌∷◌ n ns) = quote_byte safe n ++ quote_bytes safe ns

-- `quote(s, safe=safe)`
unfoldable pub quote : String → String → String
unfolding quote_bytes utf8
quote safe s = quote_bytes safe (utf8 s)
