-- ===== src/Vpn/PortPicker/Choice.antt =====
-- Which port is picked, and when one is.
use vpn_control_panel.Prelude.{
  ℕ, Bool, true, false, ◌≡◌, refl, ap, ◌⊎◌, inl, inr, Option, none, some, List, [], ◌∷◌, ◌==◌, ◌&&◌,
  ◌||◌, not, port_unavailable, filter, any, arith, Result, ok, err, Bool-cases, ==_iff,
  if◌then◌else◌,
}
use vpn_control_panel.Vpn.PortPicker.{contains, preferred_among, pool, pick_from, pick_port}

contains-filter :
    (p : ℕ) (f : ℕ → Bool) (ports : List ℕ)
    → contains p (filter f ports) ≡ (contains p ports && f p)
contains-filter p f [] = refl
contains-filter p f (q ∷ qs) = elim (Bool-cases (q == p)) [
  | inl e ↦ let same = ap f ((==_iff q p).0 e) in ground (arith, e, same, contains-filter p f qs)
  | inr e ↦ ground (arith, e, contains-filter p f qs)
]

abbrev allowed : List ℕ → ℕ → Bool
allowed exclude q = not (contains q exclude)

-- Everything is excluded.
abbrev all_excluded : List ℕ → List ℕ → Bool
all_excluded candidates exclude = not (any (λ q. not (contains q exclude)) candidates)

-- What the documentation of `random.choice` says: of a sequence that is not empty, an element.
pub record IsChoice (choice : List ℕ → ℕ) : Type 0 where
  pub member : (p : ℕ) (ports : List ℕ) → contains (choice (p ∷ ports)) (p ∷ ports) ≡ true

filter-none : (f : ℕ → Bool) (ports : List ℕ) → filter f ports ≡ [] → any f ports ≡ false
filter-none f [] h = refl
filter-none f (q ∷ qs) h = ground (arith, h, filter-none f qs)

filter-some :
    (f : ℕ → Bool) (ports : List ℕ) (p : ℕ) (ps : List ℕ)
    → filter f ports ≡ p ∷ ps
    → any f ports ≡ true
filter-some f [] p ps h = ground (arith, h)
filter-some f (q ∷ qs) p ps h = ground (arith, h, filter-some f qs p ps)

List-cases : (xs : List ℕ) → (xs ≡ []) ⊎ ((x : ℕ) × (rest : List ℕ) × (xs ≡ x ∷ rest))
List-cases [] = inl refl
List-cases (x ∷ xs) = inr (x, xs, refl)

-- A port is in the pool when it is a candidate and not excluded, or when all are excluded.
contains-pool :
    (p : ℕ) (candidates exclude : List ℕ)
    → contains p (pool candidates exclude)
      ≡ (contains p candidates && (not (contains p exclude) || all_excluded candidates exclude))
unfolding pool
contains-pool p candidates exclude =
    let kept = contains-filter p (allowed exclude) candidates in
    elim (List-cases (filter (allowed exclude) candidates)) [
      | inl e ↦
          let none_left = filter-none (allowed exclude) candidates e in ground (arith, e, none_left)
      | inr (q, qs, e) ↦
          let some_left = filter-some (allowed exclude) candidates q qs e in
          ground (arith, e, kept, some_left)
    ]

-- A candidate that is bindable and that the database does not exclude, unless it excludes all.
unfoldable pub IsFree : (ℕ → Bool) → List ℕ → List ℕ → ℕ → Type 0
IsFree is_available candidates exclude p =
    (contains p candidates ≡ true)
    × (is_available p ≡ true)
    × ((not (contains p exclude) || all_excluded candidates exclude) ≡ true)

-- The preferred port, which is a candidate, or a free port.
unfoldable pub IsPicked : (ℕ → Bool) → List ℕ → List ℕ → Option ℕ → ℕ → Type 0
unfolding IsFree
IsPicked is_available candidates exclude preferred p =
    ((preferred ≡ some p) × (contains p candidates ≡ true))
    ⊎ IsFree is_available candidates exclude p

-- A port is picked, or none of the candidates is free.
unfoldable pub Outcome : (ℕ → Bool) → List ℕ → List ℕ → Option ℕ → Result ℕ → Type 0
Outcome is_available candidates exclude preferred r =
    ((p : ℕ) × (r ≡ ok p) × IsPicked is_available candidates exclude preferred p)
    ⊎ ((r ≡ err port_unavailable) × ((p : ℕ) → ¬ IsFree is_available candidates exclude p))

module _ (is_available : ℕ → Bool) (choice : List ℕ → ℕ) (ok_choice : IsChoice choice)
    (candidates exclude : List ℕ) where
  from-pool :
      (preferred : Option ℕ)
      → Outcome is_available candidates exclude preferred
          (pick_from choice (filter is_available (pool candidates exclude)))
  unfolding Outcome IsPicked IsFree
  from-pool preferred = elim (List-cases (filter is_available (pool candidates exclude))) [
    | inl e ↦ inr (
      rw e refl,
      λ p free.
          let kept = contains-filter p is_available (pool candidates exclude) in
          let in_pool = contains-pool p candidates exclude in
          ground (arith, e, kept, in_pool, free),
    )
    | inr (q, qs, e) ↦
        let p = choice (q ∷ qs) in
        let kept = contains-filter p is_available (pool candidates exclude) in
        let in_pool = contains-pool p candidates exclude in
        let member = ok_choice.member q qs in
        inl (p, rw e refl, inr (ground (arith, e, kept, in_pool, member)))
  ]

module _ (is_available : ℕ → Bool) (choice : List ℕ → ℕ) (c : ℕ) (cs exclude : List ℕ)
    (preferred : Option ℕ) where
  pick_port-some :
      (p : ℕ)
      → preferred_among preferred (c ∷ cs) ≡ some p
      → pick_port is_available choice (c ∷ cs) exclude preferred ≡ ok p
  unfolding pick_port
  pick_port-some p h = rw (h, pick_port) refl

  pick_port-none :
      preferred_among preferred (c ∷ cs) ≡ none
      → pick_port is_available choice (c ∷ cs) exclude preferred
        ≡ pick_from choice (filter is_available (pool (c ∷ cs) exclude))
  unfolding pick_port pool
  pick_port-none h = rw (h, pick_port) refl

preferred_among-some :
    (p : ℕ) (ports : List ℕ)
    → preferred_among (some p) ports ≡ (if contains p ports then some p else none)
unfolding preferred_among
preferred_among-some p ports = refl

-- Of candidates of which there is one at least, either a port is picked, which is the preferred one
-- and a candidate or is a candidate that is bindable and not excluded, or no candidate is such a
-- port and the exception says so. Where every candidate is excluded, none counts as excluded.
-- `random.choice` is assumed to give an element of a sequence that is not empty.
pub pick_port-Outcome :
    (is_available : ℕ → Bool) (choice : List ℕ → ℕ) (ok_choice : IsChoice choice) (c : ℕ)
    (cs exclude : List ℕ) (preferred : Option ℕ)
    → Outcome is_available
        (c ∷ cs)
        exclude
        preferred
        (pick_port is_available choice (c ∷ cs) exclude preferred)
unfolding Outcome IsPicked
pick_port-Outcome is_available choice ok_choice c cs exclude none =
    let nothing : preferred_among none (c ∷ cs) ≡ none = unfold preferred_among in refl in
    rw (pick_port-none is_available choice c cs exclude none nothing)
      (from-pool is_available choice ok_choice (c ∷ cs) exclude none)
pick_port-Outcome is_available choice ok_choice c cs exclude (some p) =
    elim (Bool-cases (contains p (c ∷ cs))) [
      | inl e ↦
          let chosen : preferred_among (some p) (c ∷ cs) ≡ some p =
            ground (arith, preferred_among-some p (c ∷ cs), e) in
          inl (p, pick_port-some is_available choice c cs exclude (some p) p chosen, inl (refl, e))
      | inr e ↦
          let left : preferred_among (some p) (c ∷ cs) ≡ none =
            ground (arith, preferred_among-some p (c ∷ cs), e) in
          rw (pick_port-none is_available choice c cs exclude (some p) left)
            (from-pool is_available choice ok_choice (c ∷ cs) exclude (some p))
    ]
