-- ===== src/Prelude/Decimal.antt =====
-- `str` of a natural number and `int` of a text of digits.
use Prim.Native.Nat.{ℕ, zero, suc, ◌+◌, ◌-◌, ◌*◌, ◌/◌, ◌%◌, ◌<◌, compare, Ordering}
use mathlib.Core.Logic.{inl, inr}
use Prim.Native.Char.{Char, code, nul}
use Prim.Native.String.{String, [], ◌∷◌}
use mathlib.Core.Path.{◌≡◌, refl, sym, ◌∙◌}
use mathlib.Core.Bool.{false, ◌&&◌}
use mathlib.Core.Option.{Option, none, some}
use native.Mathlib.Omega.{arith}
use text.Mathlib.TextLemmas.{cons-ne-nil}
use vpn_control_panel.Prelude.Texts.{contains_char}
use vpn_control_panel.Prelude.Tests.{leb, ltb, if◌then◌else◌, Bool-cases}

from_ordering : (n : ℕ) (o : Ordering) → compare n 55296 ≡ o → Char
from_ordering n Ordering.lt e = Char.char n (rw e tt)
from_ordering n _ e = nul

-- `chr(n)` below the surrogates
unfoldable pub char_of : ℕ → Char
unfolding from_ordering
char_of n = from_ordering n (compare n 55296) refl

code-from_ordering :
    (n : ℕ) (o : Ordering) (e : compare n 55296 ≡ o) → n < 55296 → code (from_ordering n o e) ≡ n
unfolding from_ordering
code-from_ordering n Ordering.lt e h = refl
code-from_ordering n Ordering.eq e h = absurd (ground (arith, e))
code-from_ordering n Ordering.gt e h = absurd (ground (arith, e))

pub code-char_of : (n : ℕ) → n < 55296 → code (char_of n) ≡ n
unfolding char_of
code-char_of n h = code-from_ordering n (compare n 55296) refl h

emit : ℕ → ℕ → String → String
unfolding char_of
emit zero n out = out
emit (suc fuel) n out =
    let more = char_of (b'0' + n % 10) ∷ out in
    let rest = emit fuel (n / 10) more in if ltb n 10 then more else rest

-- `str(n)`: at most `n + 1` digits
unfoldable pub decimal : ℕ → String
unfolding emit char_of
decimal n = emit (suc n) n []

digits : ℕ → String → Option ℕ
digits n [] = some n
digits n (c ∷ s) =
    if leb b'0' (code c) && leb (code c) b'9' then digits (n * 10 + (code c - b'0')) s else none

-- `int(s)` of a text of digits; `none` is its ValueError.
unfoldable pub int_of : String → Option ℕ
unfolding digits
int_of [] = none
int_of (c ∷ s) = digits 0 (c ∷ s)

digits-digit :
    (m d : ℕ) (s : String) → d < 10 → digits m (char_of (b'0' + d) ∷ s) ≡ digits (m * 10 + d) s
unfolding digits
digits-digit m d s h = let c = code-char_of (b'0' + d) (omega arith) in ground (arith, c)

digits-emit : (fuel n : ℕ) (out : String) → n < fuel → digits 0 (emit fuel n out) ≡ digits n out
unfolding emit
digits-emit zero n out h = absurd (omega arith)
digits-emit (suc fuel) n out h =
    let small : n % 10 < 10 = omega arith in
    let ih = digits-emit fuel (n / 10) (char_of (b'0' + n % 10) ∷ out) in
    elim (Bool-cases (ltb n 10)) [
      | inl e ↦ ground (arith, e, digits-digit 0 (n % 10) out small)
      | inr e ↦
          ground (arith, e, ih (ground (arith, e, h)), digits-digit (n / 10) (n % 10) out small)
    ]

digits-decimal : (n : ℕ) → digits 0 (decimal n) ≡ some n
unfolding decimal digits
digits-decimal n = digits-emit (suc n) n [] (omega arith)

IsWritten : String → Type 0
IsWritten s = (c : Char) × (rest : String) × (s ≡ c ∷ rest)

emit-IsWritten : (fuel n : ℕ) (c : Char) (out : String) → IsWritten (emit fuel n (c ∷ out))
unfolding emit IsWritten
emit-IsWritten zero n c out = (c, out, refl)
emit-IsWritten (suc fuel) n c out =
    let more = char_of (b'0' + n % 10) in
    elim (Bool-cases (ltb n 10)) [
      | inl e ↦ rw e (more, c ∷ out, refl)
      | inr e ↦ rw e (emit-IsWritten fuel (n / 10) more (c ∷ out))
    ]

decimal-IsWritten : (n : ℕ) → IsWritten (decimal n)
unfolding decimal emit IsWritten
decimal-IsWritten n =
    let more = char_of (b'0' + n % 10) in
    elim (Bool-cases (ltb n 10)) [
      | inl e ↦ rw e (more, [], refl)
      | inr e ↦ rw e (emit-IsWritten n (n / 10) more [])
    ]

int_of-digits : (s : String) → IsWritten s → int_of s ≡ digits 0 s
unfolding int_of IsWritten
int_of-digits [] (c, rest, e) = absurd (cons-ne-nil c rest (sym e))
int_of-digits (c ∷ s) w = refl

-- `int` reads what `str` writes.
pub int_of-decimal : (n : ℕ) → int_of (decimal n) ≡ some n
int_of-decimal n = int_of-digits (decimal n) (decimal-IsWritten n) ∙ digits-decimal n

emit-lacks :
    (m fuel n : ℕ) (out : String)
    → b'9' < m
    → contains_char m out ≡ false
    → contains_char m (emit fuel n out) ≡ false
unfolding emit contains_char
emit-lacks m zero n out high h = h
emit-lacks m (suc fuel) n out high h =
    let c = code-char_of (b'0' + n % 10) (omega arith) in
    let other : contains_char m (char_of (b'0' + n % 10) ∷ out) ≡ false = ground (arith, h, c) in
    elim (Bool-cases (ltb n 10)) [
      | inl e ↦ rw e other
      | inr e ↦ rw e (emit-lacks m fuel (n / 10) (char_of (b'0' + n % 10) ∷ out) high other)
    ]

-- A number is written without any character above the digits.
pub decimal-lacks : (m n : ℕ) → b'9' < m → contains_char m (decimal n) ≡ false
unfolding decimal contains_char
decimal-lacks m n high = emit-lacks m (suc n) n [] high refl
