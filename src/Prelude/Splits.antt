-- ===== src/Prelude/Splits.antt =====
-- `str.split` at the first separator, and the lines of a text.
use Prim.Native.Nat.{ℕ}
use Prim.Native.String.{String, [], ◌∷◌, ◌++◌}
use mathlib.Core.Path.{◌≡◌, refl}
use mathlib.Core.Bool.{false, ◌&&◌}
use mathlib.Core.List.{List, ◌++◌ as ◌++ᴸ◌}
use mathlib.Core.Logic.{inl, inr}
use native.Mathlib.Omega.{arith}
use text.Mathlib.Text.{◌==◌ as ◌=ˢ◌}
use text.Mathlib.TextLemmas.{nil-append, cons-append, append_assoc}
use Prim.Native.Char.{code}
use vpn_control_panel.Prelude.Tests.{Bool-cases, ◌==◌}
use vpn_control_panel.Prelude.Texts.{contains_char, split_on, is_space, lstrip, rstrip, strip}

pub split_on-append :
    (n : ℕ) (s : String) (t : String) (parts : List String)
    → contains_char n s ≡ false
    → split_on n t ≡ List.◌∷◌ [] parts
    → split_on n (s ++ t) ≡ List.◌∷◌ s parts
unfolding split_on contains_char
split_on-append n [] t parts h e = rw nil-append e
split_on-append n (c ∷ s) t parts h e =
    rw cons-append (ground (arith, h, split_on-append n s t parts))

pub split_on-Lacks :
    (n : ℕ) (s : String) → contains_char n s ≡ false → split_on n s ≡ List.◌∷◌ s List.[]
unfolding split_on contains_char
split_on-Lacks n [] h = refl
split_on-Lacks n (c ∷ s) h = ground (arith, h, split_on-Lacks n s)

line_break : (t : String) → split_on 10 ("\n" ++ t) ≡ List.◌∷◌ [] (split_on 10 t)
unfolding split_on
line_break t = rw (cons-append, nil-append) refl

-- The first line of a text ends at its line break.
pub split_on-line :
    (t l rest : String)
    → t ≡ l ++ "\n"
    → contains_char 10 l ≡ false
    → split_on 10 (t ++ rest) ≡ List.◌∷◌ l (split_on 10 rest)
split_on-line t l rest e h =
    rw (e, append_assoc)
      (split_on-append 10 l ("\n" ++ rest) (split_on 10 rest) h (line_break rest))

-- There is a first part.
split_on-cons : (s : String) → (l : String) × (ls : List String) × (split_on 10 s ≡ List.◌∷◌ l ls)
unfolding split_on
split_on-cons [] = ([], List.[], refl)
split_on-cons (c ∷ s) =
    let (l, ls, e) = split_on-cons s in
    elim (Bool-cases (code c == 10)) [
      | inl h ↦ ([], split_on 10 s, rw h refl)
      | inr h ↦ (c ∷ l, ls, rw (h, e) refl)
    ]

-- A line break between any two texts.
pub split_on-break :
    (s t : String) → split_on 10 (s ++ ("\n" ++ t)) ≡ split_on 10 s ++ᴸ split_on 10 t
unfolding split_on
split_on-break [] t = rw nil-append (line_break t)
split_on-break (c ∷ s) t =
    let (l, ls, e) = split_on-cons s in
    rw (cons-append, split_on-break s t, e)
      (elim (Bool-cases (code c == 10)) [ inl h ↦ rw h refl | inr h ↦ rw h refl ])

-- The same where the line and its break are two parts of the text.
pub split_on-part :
    (l rest : String)
    → contains_char 10 l ≡ false
    → split_on 10 (l ++ ("\n" ++ rest)) ≡ List.◌∷◌ l (split_on 10 rest)
split_on-part l rest h = split_on-append 10 l ("\n" ++ rest) (split_on 10 rest) h (line_break rest)

lstrip-lacks : (n : ℕ) (s : String) → contains_char n s ≡ false → contains_char n (lstrip s) ≡ false
unfolding lstrip contains_char
lstrip-lacks n [] h = refl
lstrip-lacks n (c ∷ s) h = ground (arith, h, lstrip-lacks n s)

rstrip-lacks : (n : ℕ) (s : String) → contains_char n s ≡ false → contains_char n (rstrip s) ≡ false
unfolding rstrip contains_char
rstrip-lacks n [] h = refl
rstrip-lacks n (c ∷ s) h = elim (Bool-cases (is_space c && rstrip s =ˢ "")) [
  | inl e ↦ rw e refl
  | inr e ↦ rw e (ground (arith, h, rstrip-lacks n s))
]

pub strip-lacks :
    (n : ℕ) (s : String) → contains_char n s ≡ false → contains_char n (strip s) ≡ false
unfolding strip
strip-lacks n s h = lstrip-lacks n (rstrip s) (rstrip-lacks n s h)
