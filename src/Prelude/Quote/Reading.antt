-- ===== src/Prelude/Quote/Reading.antt =====
-- `unquote_bytes`, an independent reader of percent-encoded texts, and which characters such a
-- text holds.
use Prim.Native.Nat.{ℕ, ◌+◌, ◌-◌, ◌*◌, ◌/◌, ◌%◌, ◌<◌}
use Prim.Native.Char.{code}
use Prim.Native.String.{String, [], ◌∷◌, ◌++◌}
use mathlib.Core.Path.{◌≡◌, refl, ap, ◌∙◌}
use mathlib.Core.Logic.{inl, inr}
use mathlib.Core.Bool.{Bool, true, false, ◌||◌}
use mathlib.Core.List.{List, ◌++◌ as append}
use native.Mathlib.Omega.{arith}
use text.Mathlib.TextLemmas.{nil-append, cons-append}
use vpn_control_panel.Prelude.Tests.{ltb, ◌==◌, ==_iff, if◌then◌else◌, Bool-cases}
use vpn_control_panel.Prelude.Texts.{contains_char}
use vpn_control_panel.Prelude.Decimal.{char_of, code-char_of}
use vpn_control_panel.Prelude.Lists.{All}
use vpn_control_panel.Prelude.Quote.{
  utf8_char, utf8, is_unreserved, hex_digit, quote_byte, quote_bytes, quote,
}

data Reading : Type 0 where
  plain : Reading
  escaped : Reading
  half : ℕ → Reading

unhex : ℕ → ℕ
unhex n = if ltb n b'A' then n - b'0' else n - 55

read_bytes : Reading → String → List ℕ
unfolding unhex
read_bytes r [] = List.[]
read_bytes Reading.plain (c ∷ s) =
    let n = code c in
    let jump = read_bytes Reading.escaped s in
    let stay = read_bytes Reading.plain s in if n == b'%' then jump else List.◌∷◌ n stay
read_bytes Reading.escaped (c ∷ s) = read_bytes (Reading.half (unhex (code c))) s
read_bytes (Reading.half d) (c ∷ s) =
    List.◌∷◌ (d * 16 + unhex (code c)) (read_bytes Reading.plain s)

-- The bytes that a percent-encoded text stands for.
pub unquote_bytes : String → List ℕ
unfolding read_bytes
unquote_bytes s = read_bytes Reading.plain s

utf8_char-All : (n : ℕ) → All (λ b. b < 256) (utf8_char n)
unfolding utf8_char
utf8_char-All n = ground arith

All-append :
    (xs ys : List ℕ)
    → All (λ b. b < 256) xs
    → All (λ b. b < 256) ys
    → All (λ b. b < 256) (append xs ys)
All-append List.[] ys h k = k
All-append (List.◌∷◌ x xs) ys (h, hs) k = (h, All-append xs ys hs k)

utf8-All : (s : String) → All (λ b. b < 256) (utf8 s)
unfolding utf8
utf8-All [] = tt
utf8-All (c ∷ s) = All-append (utf8_char (code c)) (utf8 s) (utf8_char-All (code c)) (utf8-All s)

unhex-hex_digit : (d : ℕ) → d < 16 → unhex (code (hex_digit d)) ≡ d
unfolding unhex hex_digit
unhex-hex_digit d h = elim (Bool-cases (ltb d 10)) [
  | inl e ↦ ground (arith, e, code-char_of (48 + d))
  | inr e ↦ ground (arith, e, code-char_of (55 + d))
]

-- A byte that is written as it is, is no percent sign.
plain_byte :
    (safe : String) (n : ℕ)
    → contains_char b'%' safe ≡ false
    → (is_unreserved n || contains_char n safe) ≡ true
    → (n == b'%') ≡ false
unfolding is_unreserved
plain_byte safe n h e = elim (Bool-cases (n == b'%')) [
  | inl f ↦
      let n_is = (==_iff n b'%').0 f in
      ground (arith, e, h, n_is, ap (λ k. contains_char k safe) n_is)
  | inr f ↦ f
]

read_bytes-char_of :
    (n : ℕ) (s : String)
    → n < 256
    → (n == b'%') ≡ false
    → read_bytes Reading.plain (char_of n ∷ s) ≡ List.◌∷◌ n (read_bytes Reading.plain s)
unfolding read_bytes
read_bytes-char_of n s small other = ground (arith, code-char_of n, other)

read_bytes-quote_byte :
    (safe : String) (n : ℕ) (s : String)
    → contains_char b'%' safe ≡ false
    → n < 256
    → read_bytes Reading.plain (quote_byte safe n ++ s) ≡ List.◌∷◌ n (read_bytes Reading.plain s)
unfolding read_bytes quote_byte
read_bytes-quote_byte safe n s h small =
    elim (Bool-cases (is_unreserved n || contains_char n safe)) [
      | inl e ↦
          rw (e, cons-append, nil-append) (read_bytes-char_of n s small (plain_byte safe n h e))
      | inr e ↦
          rw (e, cons-append, cons-append, cons-append, nil-append)
            (ground (arith, unhex-hex_digit (n / 16), unhex-hex_digit (n % 16)))
    ]

read_bytes-quote_bytes :
    (safe : String) (ns : List ℕ)
    → contains_char b'%' safe ≡ false
    → All (λ b. b < 256) ns
    → read_bytes Reading.plain (quote_bytes safe ns) ≡ ns
unfolding quote_bytes read_bytes
read_bytes-quote_bytes safe List.[] h small = refl
read_bytes-quote_bytes safe (List.◌∷◌ n ns) h (low, small) =
    read_bytes-quote_byte safe n (quote_bytes safe ns) h low
    ∙ ap (List.◌∷◌ n) (read_bytes-quote_bytes safe ns h small)

pub unquote_bytes-quote :
    (safe s : String) → contains_char b'%' safe ≡ false → unquote_bytes (quote safe s) ≡ utf8 s
unfolding quote unquote_bytes
unquote_bytes-quote safe s h = read_bytes-quote_bytes safe (utf8 s) h (utf8-All s)

-- What a reader of a link may split it at: anything but the characters that quoting leaves.
pub contains_char-append :
    (n : ℕ) (s t : String) → contains_char n (s ++ t) ≡ (contains_char n s || contains_char n t)
unfolding contains_char
contains_char-append n [] t = rw nil-append refl
contains_char-append n (c ∷ s) t = rw cons-append ground (arith, contains_char-append n s t)

is_unreserved-hex_digit : (d : ℕ) → d < 16 → is_unreserved (code (hex_digit d)) ≡ true
unfolding hex_digit is_unreserved
is_unreserved-hex_digit d h = elim (Bool-cases (ltb d 10)) [
  | inl e ↦ ground (arith, e, code-char_of (48 + d))
  | inr e ↦ ground (arith, e, code-char_of (55 + d))
]

-- Two characters that a test tells apart have different codes.
==-apart : (f : ℕ → Bool) (a b : ℕ) → f a ≡ true → f b ≡ false → (a == b) ≡ false
==-apart f a b h k = elim (Bool-cases (a == b)) [
  | inl e ↦ let same = ap f ((==_iff a b).0 e) in ground (arith, h, k, same)
  | inr e ↦ e
]

-- What is quoted holds, besides unreserved characters, only the percent sign and what is safe.
quote_byte-lacks :
    (safe : String) (m n : ℕ)
    → is_unreserved n ≡ false
    → contains_char n safe ≡ false
    → (n == b'%') ≡ false
    → m < 256
    → contains_char n (quote_byte safe m) ≡ false
unfolding quote_byte contains_char
quote_byte-lacks safe m n reserved unsafe other small =
    let high =
      ==-apart is_unreserved (code (hex_digit (m / 16))) n
        (is_unreserved-hex_digit (m / 16) (omega arith)) reserved in
    let low =
      ==-apart is_unreserved (code (hex_digit (m % 16))) n
        (is_unreserved-hex_digit (m % 16) (omega arith)) reserved in
    elim (Bool-cases (is_unreserved m || contains_char m safe)) [
      | inl e ↦
          let diff =
            ==-apart (λ k. is_unreserved k || contains_char k safe) m n e
              (ground (arith, reserved, unsafe)) in
          rw e (ground (arith, code-char_of m, diff))
      | inr e ↦ rw e (ground (arith, high, low, other))
    ]

quote_bytes-lacks :
    (safe : String) (ms : List ℕ) (n : ℕ)
    → is_unreserved n ≡ false
    → contains_char n safe ≡ false
    → (n == b'%') ≡ false
    → All (λ b. b < 256) ms
    → contains_char n (quote_bytes safe ms) ≡ false
unfolding quote_bytes contains_char
quote_bytes-lacks safe List.[] n reserved unsafe other small = refl
quote_bytes-lacks safe (List.◌∷◌ m ms) n reserved unsafe other (low, small) =
    let first = quote_byte-lacks safe m n reserved unsafe other low in
    let rest = quote_bytes-lacks safe ms n reserved unsafe other small in
    rw (contains_char-append, first, rest) refl

pub quote-lacks :
    (safe s : String) (n : ℕ)
    → is_unreserved n ≡ false
    → contains_char n safe ≡ false
    → (n == b'%') ≡ false
    → contains_char n (quote safe s) ≡ false
unfolding quote
quote-lacks safe s n reserved unsafe other =
    quote_bytes-lacks safe (utf8 s) n reserved unsafe other (utf8-All s)
