-- ===== src/Vpn/PortPicker.antt =====
-- panel/infrastructure/vpn/port_picker.py. The bind test of a port (a socket) and `random.choice` are
-- parameters; the protocol of the test is part of the former.
pub mod Choice
use vpn_control_panel.Prelude.{
  ℕ, Bool, true, false, Option, none, some, List, [], ◌∷◌, ◌==◌, not, filter, any, if◌then◌else◌,
  value_error, port_unavailable, Result, ok, err,
}

abbrev pub contains : ℕ → List ℕ → Bool
contains p ports = any (λ q. q == p) ports

-- `preferred is not None and preferred in candidates`
unfoldable pub preferred_among : Option ℕ → List ℕ → Option ℕ
preferred_among none candidates = none
preferred_among (some p) candidates = if contains p candidates then some p else none

abbrev pub or_all : List ℕ → List ℕ → List ℕ
or_all [] candidates = candidates
or_all (p ∷ ports) candidates = p ∷ ports

-- The candidates that are not excluded, or all where every one is.
unfoldable pub pool : List ℕ → List ℕ → List ℕ
pool candidates exclude = or_all (filter (λ p. not (contains p exclude)) candidates) candidates

abbrev pub pick_from : (List ℕ → ℕ) → List ℕ → Result ℕ
pick_from choice [] = err port_unavailable
pick_from choice (p ∷ ports) = ok (choice (p ∷ ports))

unfoldable pub pick_port : (ℕ → Bool) → (List ℕ → ℕ) → List ℕ → List ℕ → Option ℕ → Result ℕ
unfolding preferred_among pool
pick_port is_available choice [] exclude preferred =
    err (value_error "port_candidates must not be empty")
pick_port is_available choice (c ∷ cs) exclude preferred =
    elim (preferred_among preferred (c ∷ cs)) [
      | some p ↦ ok p
      | none ↦ pick_from choice (filter is_available (pool (c ∷ cs) exclude))
    ]
