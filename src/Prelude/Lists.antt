-- ===== src/Prelude/Lists.antt =====
-- Lists as the rows of a table: search by a test, and the write of one row that a test finds.
use Prim.Native.Nat.{ℕ, zero, suc, ◌+◌}
use mathlib.Core.Path.{◌≡◌, refl}
use mathlib.Core.Bool.{Bool, true, false, ◌||◌}
use mathlib.Core.Option.{Option, none, some}
use mathlib.Core.List.{List, [], ◌∷◌, ◌++◌}
use native.Mathlib.Omega.{arith}
use vpn_control_panel.Prelude.Tests.{if◌then◌else◌, is_some}

module _ {ℓ} {A : Type ℓ} where
  abbrev pub length : List A → ℕ
  length [] = 0
  length (x ∷ xs) = suc (length xs)

  abbrev pub take : ℕ → List A → List A
  take zero xs = []
  take (suc n) [] = []
  take (suc n) (x ∷ xs) = x ∷ take n xs

  abbrev pub drop : ℕ → List A → List A
  drop zero xs = xs
  drop (suc n) [] = []
  drop (suc n) (x ∷ xs) = drop n xs

  -- The first row that passes the test.
  abbrev pub find? : (A → Bool) → List A → Option A
  find? p [] = none
  find? p (x ∷ xs) = if p x then some x else find? p xs

  -- Writes the first row that passes the test.
  abbrev pub modify : (A → Bool) → (A → A) → List A → List A
  modify p f [] = []
  modify p f (x ∷ xs) = if p x then f x ∷ xs else x ∷ modify p f xs

  abbrev pub filter : (A → Bool) → List A → List A
  filter p [] = []
  filter p (x ∷ xs) = let rest = filter p xs in if p x then x ∷ rest else rest

  abbrev pub any : (A → Bool) → List A → Bool
  any p [] = false
  any p (x ∷ xs) = p x || any p xs

  abbrev pub All {κ} : (A → Type κ) → List A → Type κ
  All P [] = Unit
  All P (x ∷ xs) = P x × All P xs

  pub length-append : (xs ys : List A) → length (xs ++ ys) ≡ length xs + length ys
  length-append [] ys = omega arith
  length-append (x ∷ xs) ys = omega (arith, length-append xs ys)

  pub any-eq-is_some : (p : A → Bool) (xs : List A) → any p xs ≡ is_some (find? p xs)
  any-eq-is_some p [] = refl
  any-eq-is_some p (x ∷ xs) = ground (arith, any-eq-is_some p xs)

  -- What a search finds passes its test.
  pub find?_sound : (p : A → Bool) (xs : List A) (a : A) → find? p xs ≡ some a → p a ≡ true
  find?_sound p [] a h = ground arith
  find?_sound p (x ∷ xs) a h = ground (arith, find?_sound p xs a)

  pub find?-append :
      (p : A → Bool) (xs ys : List A)
      → find? p (xs ++ ys) ≡ (if is_some (find? p xs) then find? p xs else find? p ys)
  find?-append p [] ys = refl
  find?-append p (x ∷ xs) ys = ground (arith, find?-append p xs ys)

  -- A write of the row that `p` finds, which still passes `p` after it.
  pub find?-modify_self :
      (p : A → Bool) (f : A → A) (xs : List A)
      → ((x : A) → p x ≡ true → p (f x) ≡ true)
      → (a : A) → find? p xs ≡ some a
      → find? p (modify p f xs) ≡ some (f a)
  find?-modify_self p f [] keep a h = ground arith
  find?-modify_self p f (x ∷ xs) keep a h = ground (arith, keep x, find?-modify_self p f xs keep a)

  -- A write that does not change what `q` says of any row that `p` finds: `q` finds the row
  -- that it found, or none.
  pub find?-modify_ne :
      (p q : A → Bool) (f : A → A) (xs : List A)
      → ((x : A) → p x ≡ true → (q x ≡ false) × (q (f x) ≡ false))
      → find? q (modify p f xs) ≡ find? q xs
  find?-modify_ne p q f [] apart = refl
  find?-modify_ne p q f (x ∷ xs) apart = ground (arith, apart x, find?-modify_ne p q f xs apart)

pub any-append {ℓ} :
    {A : Type ℓ} (p : A → Bool) (xs : List A) (y : A)
    → any p xs ≡ true
    → any p (xs ++ y ∷ []) ≡ true
any-append p [] y h = cc
any-append p (x ∷ xs) y h = ground (arith, any-append p xs y)

pub any-append_last {ℓ} :
    {A : Type ℓ} (p : A → Bool) (xs : List A) (y : A) → p y ≡ true → any p (xs ++ y ∷ []) ≡ true
any-append_last p [] y h = ground arith
any-append_last p (x ∷ xs) y h = ground (arith, any-append_last p xs y h)
