-- ===== src/Json/FieldCrypto/Paths.antt =====
-- Reading and writing one part of a path, and the update of a value at the end of a path.
use vpn_control_panel.Prelude.{
  ℕ, zero, suc, String, ◌≡◌, ◌≢◌, refl, none, some, eq_iff, eq_refl, arith, Option-cases, inl, inr,
  ap,
}
use vpn_control_panel.Json.{
  Json, null, arr, obj, Items, nil, cons, Fields, end, field, get_field, set_field, get_item,
  set_item,
}
use vpn_control_panel.Json.Access.{child, with_child}
use vpn_control_panel.Prelude.{int_of}

get_field-set_field_self :
    (k : String) (v : Json) (fs : Fields) → get_field k (set_field k v fs) ≡ some v
get_field-set_field_self k v end = ground (arith, eq_refl k)
get_field-set_field_self k v (field j w fs) = ground (arith, get_field-set_field_self k v fs)

set_field-set_field_self :
    (k : String) (v w : Json) (fs : Fields) → set_field k v (set_field k w fs) ≡ set_field k v fs
set_field-set_field_self k v w end = ground (arith, eq_refl k)
set_field-set_field_self k v w (field j u fs) = ground (arith, set_field-set_field_self k v w fs)

set_field-get_field :
    (k : String) (c : Json) (fs : Fields) → get_field k fs ≡ some c → set_field k c fs ≡ fs
set_field-get_field k c end h = cc
set_field-get_field k c (field j u fs) h = ground (arith, set_field-get_field k c fs)

get_field-set_field_ne :
    (k l : String) (v : Json) (fs : Fields)
    → k ≢ l
    → get_field l (set_field k v fs) ≡ get_field l fs
get_field-set_field_ne k l v end h = ground (arith, eq_iff k l)
get_field-set_field_ne k l v (field j u fs) h =
    ground (arith, eq_iff j k, eq_iff j l, get_field-set_field_ne k l v fs h)

-- Two writes of keys that are there commute.
set_field_comm :
    (k l : String) (v w c e : Json) (fs : Fields)
    → k ≢ l
    → get_field k fs ≡ some c
    → get_field l fs ≡ some e
    → set_field k v (set_field l w fs) ≡ set_field l w (set_field k v fs)
set_field_comm k l v w c e end h hc he = cc
set_field_comm k l v w c e (field j u fs) h hc he =
    ground (arith, eq_iff j k, eq_iff j l, set_field_comm k l v w c e fs h)

get_item-set_item_self :
    (n : ℕ) (v c : Json) (xs : Items)
    → get_item n xs ≡ some c
    → get_item n (set_item n v xs) ≡ some v
get_item-set_item_self n v c nil h = cc
get_item-set_item_self zero v c (cons x xs) h = refl
get_item-set_item_self (suc n) v c (cons x xs) h = get_item-set_item_self n v c xs h

set_item-set_item_self :
    (n : ℕ) (v w : Json) (xs : Items) → set_item n v (set_item n w xs) ≡ set_item n v xs
set_item-set_item_self n v w nil = refl
set_item-set_item_self zero v w (cons x xs) = refl
set_item-set_item_self (suc n) v w (cons x xs) = ap (cons x) (set_item-set_item_self n v w xs)

set_item-get_item : (n : ℕ) (c : Json) (xs : Items) → get_item n xs ≡ some c → set_item n c xs ≡ xs
set_item-get_item n c nil h = cc
set_item-get_item zero c (cons x xs) h = cc
set_item-get_item (suc n) c (cons x xs) h = ap (cons x) (set_item-get_item n c xs h)

pub child-with_child :
    (p : String) (v c d : Json) → child p d ≡ some c → child p (with_child p v d) ≡ some v
unfolding child with_child
child-with_child p v c (arr xs) h = elim (Option-cases (int_of p)) [
  | inl e ↦ cc (rw e at h)
  | inr (n, e) ↦ rw e (get_item-set_item_self n v c xs (rw e at h))
]
child-with_child p v c (obj fs) h = get_field-set_field_self p v fs
child-with_child p v c _ h = cc

pub with_child-with_child :
    (p : String) (v w d : Json) → with_child p v (with_child p w d) ≡ with_child p v d
unfolding with_child
with_child-with_child p v w (arr xs) = elim (Option-cases (int_of p)) [
  | inl e ↦ rw e
  | inr (n, e) ↦ rw e (ap arr (set_item-set_item_self n v w xs))
]
with_child-with_child p v w (obj fs) = ap obj (set_field-set_field_self p v w fs)
with_child-with_child p v w null = refl
with_child-with_child p v w _ = refl

pub with_child-child : (p : String) (c d : Json) → child p d ≡ some c → with_child p c d ≡ d
unfolding child with_child
with_child-child p c (arr xs) h = elim (Option-cases (int_of p)) [
  | inl e ↦ rw e
  | inr (n, e) ↦ rw e (ap arr (set_item-get_item n c xs (rw e at h)))
]
with_child-child p c (obj fs) h = ap obj (set_field-get_field p c fs h)
with_child-child p c _ h = cc

-- A part that names a key of a dict and no place in a list.
abbrev pub IsKey : String → Type 0
IsKey p = int_of p ≡ none

-- A write through one key does not touch another.
pub child-with_child_ne :
    (p q : String) (v d : Json) → IsKey p → p ≢ q → child q (with_child p v d) ≡ child q d
unfolding child with_child
child-with_child_ne p q v (arr xs) key h = rw key
child-with_child_ne p q v (obj fs) key h = get_field-set_field_ne p q v fs h
child-with_child_ne p q v null key h = refl
child-with_child_ne p q v _ key h = refl

pub with_child_comm :
    (p q : String) (v w c e d : Json)
    → IsKey p
    → IsKey q
    → p ≢ q
    → child p d ≡ some c
    → child q d ≡ some e
    → with_child p v (with_child q w d) ≡ with_child q w (with_child p v d)
unfolding child with_child
with_child_comm p q v w c e (arr xs) kp kq h hc he = rw (kp, kq)
with_child_comm p q v w c e (obj fs) kp kq h hc he = ap obj (set_field_comm p q v w c e fs h hc he)
with_child_comm p q v w c e _ kp kq h hc he = cc
