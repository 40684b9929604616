-- ===== src/Json/FieldCrypto/Update.antt =====
-- The update of the value at the end of a path, the meaning of one round of the loops over the
-- sensitive fields, and its laws: identity, composition, and commutation below different keys.
use vpn_control_panel.Prelude.{
  String, ◌≡◌, ◌≢◌, refl, none, some, List, [], ◌∷◌, inl, inr, Option-cases, ap, ◌∙◌, sym,
}
use vpn_control_panel.Json.{Json}
use vpn_control_panel.Json.Access.{child, with_child, get_by_path, set_by_path}
use vpn_control_panel.Json.FieldCrypto.Paths.{
  IsKey, child-with_child, with_child-with_child, with_child-child, child-with_child_ne,
  with_child_comm,
}

-- The value at the end of a path, rewritten; nothing where the path leads nowhere.
pub update_at : (Json → Json) → List String → Json → Json
update_at g [] d = g d
update_at g (p ∷ ps) d = elim (child p d) [ none ↦ d | some c ↦ with_child p (update_at g ps c) d ]

module _ (p : String) (ps : List String) (d : Json) where
  update_at-none : (g : Json → Json) → child p d ≡ none → update_at g (p ∷ ps) d ≡ d
  unfolding update_at
  update_at-none g h = rw (h, update_at)

  pub update_at-child :
      (g : Json → Json) (c : Json)
      → child p d ≡ some c
      → update_at g (p ∷ ps) d ≡ with_child p (update_at g ps c) d
  unfolding update_at
  update_at-child g c h = rw (h, update_at)

  pub get_by_path-none : child p d ≡ none → get_by_path (p ∷ ps) d ≡ none
  unfolding get_by_path
  get_by_path-none h = rw (h, get_by_path)

  pub get_by_path-child :
      (c : Json) → child p d ≡ some c → get_by_path (p ∷ ps) d ≡ get_by_path ps c
  unfolding get_by_path
  get_by_path-child c h = rw (h, get_by_path)

  set_by_path-child :
      (v c c' : Json)
      → child p d ≡ some c
      → set_by_path ps v c ≡ some c'
      → set_by_path (p ∷ ps) v d ≡ some (with_child p c' d)
  unfolding set_by_path
  set_by_path-child v c c' h e = rw (h, e, set_by_path)

-- A path that leads to a value can be written.
pub set_by_path-update_at :
    (path : List String) (v c d : Json)
    → get_by_path path d ≡ some c
    → set_by_path path v d ≡ some (update_at (λ _. v) path d)
set_by_path-update_at [] v c d h = unfold set_by_path update_at in refl
set_by_path-update_at (p ∷ ps) v c d h = elim (Option-cases (child p d)) [
  | inl e ↦ cc (get_by_path-none p ps d e)
  | inr (k, e) ↦
      set_by_path-child p ps d v k (update_at (λ _. v) ps k) e
        (set_by_path-update_at ps v c k (sym (get_by_path-child p ps d k e) ∙ h))
      ∙ ap some (sym (update_at-child p ps d (λ _. v) k e))
]

pub update_at_of_none :
    (g : Json → Json) (path : List String) (d : Json)
    → get_by_path path d ≡ none
    → update_at g path d ≡ d
update_at_of_none g [] d h = unfold get_by_path in cc h
update_at_of_none g (p ∷ ps) d h = elim (Option-cases (child p d)) [
  | inl e ↦ update_at-none p ps d g e
  | inr (k, e) ↦
      update_at-child p ps d g k e
      ∙ ap (λ c. with_child p c d)
          (update_at_of_none g ps k (sym (get_by_path-child p ps d k e) ∙ h))
      ∙ with_child-child p k d e
]

-- The value at the end of the path is the updated one.
pub get_by_path-update_at :
    (g : Json → Json) (path : List String) (c d : Json)
    → get_by_path path d ≡ some c
    → get_by_path path (update_at g path d) ≡ some (g c)
get_by_path-update_at g [] c d h = unfold get_by_path update_at in let q : d ≡ c = cc in rw q refl
get_by_path-update_at g (p ∷ ps) c d h = elim (Option-cases (child p d)) [
  | inl n ↦ cc (get_by_path-none p ps d n)
  | inr (k, n) ↦
      let x = update_at g ps k in
      ap (get_by_path (p ∷ ps)) (update_at-child p ps d g k n)
      ∙ get_by_path-child p ps (with_child p x d) x (child-with_child p x k d n)
      ∙ get_by_path-update_at g ps c k (sym (get_by_path-child p ps d k n) ∙ h)
]

-- Only the value of `g` where the path ends matters.
pub update_at_of_some :
    (g h : Json → Json) (path : List String) (c d : Json)
    → get_by_path path d ≡ some c
    → g c ≡ h c
    → update_at g path d ≡ update_at h path d
update_at_of_some g h [] c d e same =
    unfold get_by_path update_at in let q : d ≡ c = cc in rw q same
update_at_of_some g h (p ∷ ps) c d e same = elim (Option-cases (child p d)) [
  | inl n ↦ cc (get_by_path-none p ps d n)
  | inr (k, n) ↦
      update_at-child p ps d g k n
      ∙ ap (λ x. with_child p x d)
          (update_at_of_some g h ps c k (sym (get_by_path-child p ps d k n) ∙ e) same)
      ∙ sym (update_at-child p ps d h k n)
]

pub update_at_id : (path : List String) (d : Json) → update_at (λ x. x) path d ≡ d
update_at_id [] d = unfold update_at in refl
update_at_id (p ∷ ps) d = elim (Option-cases (child p d)) [
  | inl e ↦ update_at-none p ps d (λ x. x) e
  | inr (k, e) ↦
      update_at-child p ps d (λ x. x) k e
      ∙ ap (λ c. with_child p c d) (update_at_id ps k)
      ∙ with_child-child p k d e
]

pub update_at-update_at :
    (g h : Json → Json) (path : List String) (d : Json)
    → update_at g path (update_at h path d) ≡ update_at (λ x. g (h x)) path d
update_at-update_at g h [] d = unfold update_at in refl
update_at-update_at g h (p ∷ ps) d = elim (Option-cases (child p d)) [
  | inl e ↦
      ap (update_at g (p ∷ ps)) (update_at-none p ps d h e)
      ∙ update_at-none p ps d g e
      ∙ sym (update_at-none p ps d (λ x. g (h x)) e)
  | inr (k, e) ↦
      ap (update_at g (p ∷ ps)) (update_at-child p ps d h k e)
      ∙ update_at-child p ps (with_child p (update_at h ps k) d) g (update_at h ps k)
          (child-with_child p (update_at h ps k) k d e)
      ∙ with_child-with_child p (update_at g ps (update_at h ps k)) (update_at h ps k) d
      ∙ ap (λ c. with_child p c d) (update_at-update_at g h ps k)
      ∙ sym (update_at-child p ps d (λ x. g (h x)) k e)
]

module _ (g h : Json → Json) (p q : String) (ps qs : List String) (d : Json) (kp : IsKey p)
    (kq : IsKey q) (ne : p ≢ q) where
  -- An update below one key leaves the other key's value.
  child-update_at_ne : child p (update_at h (q ∷ qs) d) ≡ child p d
  child-update_at_ne = elim (Option-cases (child q d)) [
    | inl e ↦ ap (child p) (update_at-none q qs d h e)
    | inr (k, e) ↦
        ap (child p) (update_at-child q qs d h k e)
        ∙ child-with_child_ne q p (update_at h qs k) d kq (λ s. ne (sym s))
  ]

-- Updates below different keys commute.
pub update_at_comm :
    (g h : Json → Json) (p q : String) (ps qs : List String) (d : Json)
    → IsKey p
    → IsKey q
    → p ≢ q
    → update_at g (p ∷ ps) (update_at h (q ∷ qs) d) ≡ update_at h (q ∷ qs) (update_at g (p ∷ ps) d)
update_at_comm g h p q ps qs d kp kq ne = elim (Option-cases (child p d)) [
  | inl e ↦
      update_at-none p ps (update_at h (q ∷ qs) d) g
        (child-update_at_ne g h p q ps qs d kp kq ne ∙ e)
      ∙ ap (update_at h (q ∷ qs)) (sym (update_at-none p ps d g e))
  | inr (k, e) ↦ elim (Option-cases (child q d)) [
    | inl n ↦
        ap (update_at g (p ∷ ps)) (update_at-none q qs d h n)
        ∙ sym (
            update_at-none q qs (update_at g (p ∷ ps) d) h
              (child-update_at_ne h g q p qs ps d kq kp (λ s. ne (sym s)) ∙ n))
    | inr (l, n) ↦
        update_at-child p ps (update_at h (q ∷ qs) d) g k
          (child-update_at_ne g h p q ps qs d kp kq ne ∙ e)
        ∙ ap (with_child p (update_at g ps k)) (update_at-child q qs d h l n)
        ∙ with_child_comm p q (update_at g ps k) (update_at h qs l) k l d kp kq ne e n
        ∙ ap (with_child q (update_at h qs l)) (sym (update_at-child p ps d g k e))
        ∙ sym (
            update_at-child q qs (update_at g (p ∷ ps) d) h l
              (child-update_at_ne h g q p qs ps d kq kp (λ s. ne (sym s)) ∙ n))
  ]
]
