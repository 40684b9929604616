-- ===== src/Prelude/Stripped.antt =====
-- `str.strip` twice is `str.strip`.
use Prim.Native.Char.{Char}
use Prim.Native.String.{String, [], ◌∷◌}
use mathlib.Core.Path.{◌≡◌, refl, ap, sym, ◌∙◌}
use mathlib.Core.Logic.{inl, inr}
use mathlib.Core.Bool.{◌&&◌}
use native.Mathlib.Omega.{arith}
use text.Mathlib.Text.{◌==◌ as ◌=ˢ◌}
use text.Mathlib.TextLemmas.{tail-eq_of_cons-eq, cons-ne-nil}
use vpn_control_panel.Prelude.Tests.{Bool-cases}
use vpn_control_panel.Prelude.Texts.{is_space, lstrip, rstrip, strip}

lstrip_idem : (s : String) → lstrip (lstrip s) ≡ lstrip s
unfolding lstrip
lstrip_idem [] = refl
lstrip_idem (c ∷ s) = elim (Bool-cases (is_space c)) [
  | inl e ↦ rw e (lstrip_idem s)
  | inr e ↦ rw (e, lstrip) ground (arith, e)
]

rstrip_idem : (s : String) → rstrip (rstrip s) ≡ rstrip s
unfolding rstrip
rstrip_idem [] = refl
rstrip_idem (c ∷ s) = elim (Bool-cases (is_space c && rstrip s =ˢ "")) [
  | inl e ↦ rw e refl
  | inr e ↦ rw (e, rstrip) rw (rstrip_idem s) (rw e refl)
]

rstrip-tail : (c : Char) (s : String) → rstrip (c ∷ s) ≡ c ∷ s → rstrip s ≡ s
unfolding rstrip
rstrip-tail c s h = elim (Bool-cases (is_space c && rstrip s =ˢ "")) [
  | inl e ↦ absurd (cons-ne-nil c s (sym (rw e at h)))
  | inr e ↦ tail-eq_of_cons-eq (rw e at h)
]

rstrip-lstrip : (s : String) → rstrip s ≡ s → rstrip (lstrip s) ≡ lstrip s
unfolding lstrip
rstrip-lstrip [] h = h
rstrip-lstrip (c ∷ s) h = elim (Bool-cases (is_space c)) [
  | inl e ↦ rw e (rstrip-lstrip s (rstrip-tail c s h))
  | inr e ↦ rw e h
]

pub strip_idem : (s : String) → strip (strip s) ≡ strip s
unfolding strip
strip_idem s = ap lstrip (rstrip-lstrip (rstrip s) (rstrip_idem s)) ∙ lstrip_idem (rstrip s)
