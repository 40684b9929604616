-- ===== src/Prelude/Results.antt =====
-- The exceptions of the program, results, and methods that change a state and may raise.
-- The state comes back beside an error too: what was written before a raise stays written.
use Prim.Native.String.{String}
use mathlib.Core.Bool.{Bool, true, false}
use mathlib.Core.Option.{Option, none, some}
use mathlib.Core.Path.{◌≡◌, refl, subst}

pub data Error : Type 0 where
  -- built-in exceptions
  value_error key_error file_error runtime_error : String → Error
  -- the database refuses a row that breaks a primary key, a unique or a foreign key
  integrity_error : Error
  -- the application's exceptions
  config_not_found share_not_found config_data_unavailable : Error
  config_not_regeneratable config_not_shareable invalid_share_request : String → Error
  invalid_config_data invalid_share_public_host : String → Error
  rate_limit_exceeded invalid_credentials port_unavailable : Error

pub data Result {ℓ} (A : Type ℓ) : Type ℓ where
  ok : A → Result A
  err : Error → Result A

abbrev pub or_raise {ℓ} : {A : Type ℓ} → Option A → Error → Result A
or_raise none e = err e
or_raise (some a) e = ok a

abbrev pub Exec {ℓ κ} : Type ℓ → Type κ → Type (ℓ ⊔ κ)
Exec S A = S → Result A × S

module _ {ℓ κ} {S : Type ℓ} {A : Type κ} where
  abbrev pub pure : A → Exec S A
  pure a s = (ok a, s)

  abbrev pub raise : Error → Exec S A
  raise e s = (err e, s)

  abbrev pub lift : Result A → Exec S A
  lift r s = (r, s)

  abbrev pub gets : (S → A) → Exec S A
  gets f s = (ok (f s), s)

module _ {ℓ κ λ'} {S : Type ℓ} {A : Type κ} {B : Type λ'} where
  abbrev pub continue : Result A → S → (A → Exec S B) → Result B × S
  continue (ok a) s f = f a s
  continue (err e) s f = (err e, s)

  infixl 5 ◌>>=◌
  abbrev pub ◌>>=◌ : Exec S A → (A → Exec S B) → Exec S B
  ◌>>=◌ m f s = continue (m s).0 (m s).1 f

module _ {ℓ κ} {S : Type ℓ} {B : Type κ} where
  infixl 5 ◌>>◌
  abbrev pub ◌>>◌ : Exec S (Unit {0}) → Exec S B → Exec S B
  m >> k = m >>= λ _. k

abbrev pub modify_state {ℓ} : {S : Type ℓ} → (S → S) → Exec S (Unit {0})
modify_state f s = (ok tt, f s)

abbrev pub raise_if {ℓ} : {S : Type ℓ} → Bool → Error → Exec S (Unit {0})
raise_if true e s = (err e, s)
raise_if false e s = (ok tt, s)

-- Binds on results, for code that changes no state.
abbrev pub and_then {ℓ κ} : {A : Type ℓ} {B : Type κ} → Result A → (A → Result B) → Result B
and_then (ok a) f = f a
and_then (err e) f = err e

-- `str(exc)`
abbrev pub message : Error → String
message (value_error s) = s
message (key_error s) = s
message (file_error s) = s
message (runtime_error s) = s
message integrity_error = "IntegrityError"
message (config_not_regeneratable s) = s
message (config_not_shareable s) = s
message (invalid_share_request s) = s
message (invalid_config_data s) = s
message (invalid_share_public_host s) = s
message port_unavailable = "No free port among candidates"
message _ = ""

-- What both outcomes of the first step lead to.
pub continue-holds {ℓ κ λ' μ} :
    {S : Type ℓ} {A : Type κ} {B : Type λ'} (P : Result B × S → Type μ) (r : Result A) (s : S)
    (f : A → Exec S B)
    → ((e : Error) → P (err e, s))
    → ((a : A) → r ≡ ok a → P (f a s))
    → P (continue r s f)
continue-holds P (ok a) s f fails goes = goes a refl
continue-holds P (err e) s f fails goes = fails e

-- What holds of the value of a result, if it has one.
abbrev pub Yields {ℓ κ} : {A : Type ℓ} → (A → Type κ) → Result A → Type κ
Yields P (ok a) = P a
Yields P (err e) = Unit

pub Yields-and_then {ℓ κ λ'} :
    {A : Type ℓ} {B : Type κ} (P : B → Type λ') (r : Result A) (f : A → Result B)
    → ((a : A) → r ≡ ok a → Yields P (f a))
    → Yields P (and_then r f)
Yields-and_then P (ok a) f goes = goes a refl
Yields-and_then P (err e) f goes = tt

pub Yields-ok {ℓ κ} :
    {A : Type ℓ} (P : A → Type κ) (r : Result A) (a : A) → Yields P r → r ≡ ok a → P a
Yields-ok P r a h e = subst (Yields P) e h

-- The same, with what holds of the value of the first step.
pub Yields-bind {ℓ κ λ' μ} :
    {A : Type ℓ} {B : Type κ} (P : A → Type λ') (Q : B → Type μ) (r : Result A) (f : A → Result B)
    → Yields P r
    → ((a : A) → P a → Yields Q (f a))
    → Yields Q (and_then r f)
Yields-bind P Q (ok a) f h goes = goes a h
Yields-bind P Q (err e) f h goes = tt

pub Yields-pair {ℓ κ λ'} :
    {A : Type ℓ} (P : A → Type κ) (Q : A → Type λ') (r : Result A)
    → Yields P r
    → Yields Q r
    → Yields (λ a. P a × Q a) r
Yields-pair P Q (ok a) h k = (h, k)
Yields-pair P Q (err e) h k = tt

pub Yields-map {ℓ κ λ'} :
    {A : Type ℓ} (P : A → Type κ) (Q : A → Type λ') (r : Result A)
    → Yields P r
    → ((a : A) → P a → Q a)
    → Yields Q r
Yields-map P Q (ok a) h goes = goes a h
Yields-map P Q (err e) h goes = tt
