-- ===== src/Json/Editing/Laws.antt =====
-- What assignments leave as it was: the other keys of a dict, and the tag of an inbound.
use vpn_control_panel.Prelude.{
  String, ◌≡◌, refl, ap, true, false, Option, none, some, ◌=ˢ◌, eq_iff, eq_refl, arith,
  if◌then◌else◌, Result, ok, and_then, Yields, Yields-and_then, Yields-bind, Yields-map, Bool-cases,
  inl, inr,
}
use vpn_control_panel.Json.{
  Json, null, bool, num, str, scalar, arr, obj, Items, nil, cons, Fields, end, field, get_field,
  set_field, is_truthy, is_truthy,
}
use vpn_control_panel.Json.Access.{dict_get, is_str, find_tag, items_at, inbounds, find_inbound}
use vpn_control_panel.Json.Reading.{subscript}
use vpn_control_panel.Json.Editing.{
  put, edit, replace_tag, replaced, with_inbound, set_clients, set_settings, set_client_id,
}

pub get_field-set_field :
    (j k : String) (v : Json) (fs : Fields)
    → get_field j (set_field k v fs) ≡ (if k =ˢ j then some v else get_field j fs)
get_field-set_field j k v end = refl
get_field-set_field j k v (field i w fs) =
    ground (arith, eq_iff k j, eq_iff i k, eq_iff i j, get_field-set_field j k v fs)

some_of-ok : (o : Option Json) (v : Json) → ok o ≡ ok (some v) → o ≡ some v
some_of-ok o v h = ground (arith, h)

-- The value at a key of a dict.
unfoldable pub Has : String → Json → Json → Type 0
Has k v d = dict_get k d ≡ ok (some v)

pub subscript-Has : (k : String) (v d : Json) → Has k v d → subscript k d ≡ ok v
unfolding Has subscript
subscript-Has k v (obj fs) h = rw (some_of-ok (get_field k fs) v h) refl
subscript-Has k v null h = ground (arith, h)
subscript-Has k v (bool b) h = ground (arith, h)
subscript-Has k v (num n) h = ground (arith, h)
subscript-Has k v (str s) h = ground (arith, h)
subscript-Has k v (scalar s) h = ground (arith, h)
subscript-Has k v (arr xs) h = ground (arith, h)

pub put-Has : (k : String) (v d : Json) → Yields (Has k v) (put k v d)
unfolding put Has
put-Has k v (obj fs) = rw get_field-set_field ground (arith, eq_refl k)
put-Has k v null = tt
put-Has k v (bool b) = tt
put-Has k v (num n) = tt
put-Has k v (str s) = tt
put-Has k v (scalar s) = tt
put-Has k v (arr xs) = tt

pub put-keeps :
    (j : String) (w : Json) (k : String) (v d : Json)
    → (k =ˢ j) ≡ false
    → Has j w d
    → Yields (Has j w) (put k v d)
unfolding put Has
put-keeps j w k v (obj fs) h has = rw get_field-set_field ground (arith, h, has)
put-keeps j w k v null h has = tt
put-keeps j w k v (bool b) h has = tt
put-keeps j w k v (num n) h has = tt
put-keeps j w k v (str s) h has = tt
put-keeps j w k v (scalar s) h has = tt
put-keeps j w k v (arr xs) h has = tt

pub put-keeps_missing :
    (j k : String) (v d : Json)
    → (k =ˢ j) ≡ false
    → dict_get j d ≡ ok none
    → Yields (λ e. dict_get j e ≡ ok none) (put k v d)
unfolding put
put-keeps_missing j k v (obj fs) h none_there = rw get_field-set_field ground (arith, h, none_there)
put-keeps_missing j k v null h none_there = tt
put-keeps_missing j k v (bool b) h none_there = tt
put-keeps_missing j k v (num n) h none_there = tt
put-keeps_missing j k v (str s) h none_there = tt
put-keeps_missing j k v (scalar s) h none_there = tt
put-keeps_missing j k v (arr xs) h none_there = tt

pub edit-keeps_missing :
    (j k : String) (f : Json → Result Json) (d : Json)
    → (k =ˢ j) ≡ false
    → dict_get j d ≡ ok none
    → Yields (λ e. dict_get j e ≡ ok none) (edit k f d)
unfolding edit
edit-keeps_missing j k f d h none_there =
    let P : Json → Type 0 = λ e. dict_get j e ≡ ok none in
    Yields-and_then P (subscript k d) _
      λ c _. Yields-and_then P (f c) _ λ c' _. put-keeps_missing j k c' d h none_there

unfoldable pub Holding : (Json → Type 0) → String → Json → Type 0
Holding Q k e = (c : Json) × Has k c e × Q c

-- What a change of a container makes of it, is there afterwards.
pub edit-Has :
    (Q : Json → Type 0) (k : String) (f : Json → Result Json) (d : Json)
    → ((c : Json) → Yields Q (f c))
    → Yields (Holding Q k) (edit k f d)
unfolding edit Holding
edit-Has Q k f d makes =
    let P : Json → Type 0 = Holding Q k in
    Yields-and_then P (subscript k d) _ λ c _.
      Yields-bind Q P (f c) _ (makes c)
        λ c' q. Yields-map (Has k c') P (put k c' d) (put-Has k c' d) λ e has. (c', has, q)

pub edit-keeps :
    (j : String) (w : Json) (k : String) (f : Json → Result Json) (d : Json)
    → (k =ˢ j) ≡ false
    → Has j w d
    → Yields (Has j w) (edit k f d)
unfolding edit
edit-keeps j w k f d h has =
    Yields-and_then (Has j w) (subscript k d) _
      λ c _. Yields-and_then (Has j w) (f c) _ λ c' _. put-keeps j w k c' d h has

set_settings-keeps :
    (j : String) (w id d : Json) (settings : Option Json)
    → ("settings" =ˢ j) ≡ false
    → Has j w d
    → Yields (Has j w) (set_settings id d settings)
unfolding set_settings
set_settings-keeps j w id d none h has = has
set_settings-keeps j w id d (some settings) h has =
    Yields-and_then (Has j w) (dict_get "clients" settings) _ λ clients _.
      Yields-and_then (Has j w) (set_clients id settings clients) _
        λ changed _. put-keeps j w "settings" changed d h has

pub set_client_id-keeps :
    (j : String) (w id d : Json)
    → ("settings" =ˢ j) ≡ false
    → Has j w d
    → Yields (Has j w) (set_client_id id d)
unfolding set_client_id
set_client_id-keeps j w id d h has =
    Yields-and_then (Has j w) (dict_get "settings" d) _ λ s _. set_settings-keeps j w id d s h has

is_str-eq : (t : String) (o : Option Json) → is_str t o ≡ true → o ≡ some (str t)
is_str-eq t none h = ground (arith, h)
is_str-eq t (some (str s)) h = ap (λ u. some (str u)) ((eq_iff s t).0 h)
is_str-eq t (some null) h = ground (arith, h)
is_str-eq t (some (bool b)) h = ground (arith, h)
is_str-eq t (some (num n)) h = ground (arith, h)
is_str-eq t (some (scalar s)) h = ground (arith, h)
is_str-eq t (some (arr xs)) h = ground (arith, h)
is_str-eq t (some (obj fs)) h = ground (arith, h)

-- What is found has the tag.
find_tag-Has : (tag : String) (xs : Items) → Yields (Has "tag" (str tag)) (find_tag tag xs)
unfolding find_tag Has
find_tag-Has tag nil = tt
find_tag-Has tag (cons (obj fs) xs) = elim (Bool-cases (is_str tag (get_field "tag" fs))) [
  | inl e ↦ rw e (ap ok (is_str-eq tag (get_field "tag" fs) e))
  | inr e ↦ rw e (find_tag-Has tag xs)
]
find_tag-Has tag (cons null xs) = tt
find_tag-Has tag (cons (bool b) xs) = tt
find_tag-Has tag (cons (num n) xs) = tt
find_tag-Has tag (cons (str s) xs) = tt
find_tag-Has tag (cons (scalar s) xs) = tt
find_tag-Has tag (cons (arr ys) xs) = tt

pub find_inbound-Has :
    (tag : String) (fs : Fields) → Yields (Has "tag" (str tag)) (find_inbound fs tag)
unfolding find_inbound
find_inbound-Has tag fs =
    Yields-and_then (Has "tag" (str tag)) (inbounds fs) _ λ xs _. find_tag-Has tag xs

-- An inbound that still has its tag is found where it was.
find_tag-replace_tag :
    (tag : String) (old : Json) (new : Fields) (xs : Items)
    → find_tag tag xs ≡ ok old
    → get_field "tag" new ≡ some (str tag)
    → find_tag tag (replace_tag tag (obj new) xs) ≡ ok (obj new)
unfolding find_tag replace_tag
find_tag-replace_tag tag old new nil h has = ground (arith, h)
find_tag-replace_tag tag old new (cons (obj fs) xs) h has =
    let rest = find_tag-replace_tag tag old new xs in
    elim (Bool-cases (is_str tag (get_field "tag" fs))) [
      | inl e ↦ rw (e, has) (ground (arith, eq_refl tag))
      | inr e ↦ ground (arith, e, h, rest, has)
    ]
find_tag-replace_tag tag old new (cons null xs) h has = ground (arith, h)
find_tag-replace_tag tag old new (cons (bool b) xs) h has = ground (arith, h)
find_tag-replace_tag tag old new (cons (num n) xs) h has = ground (arith, h)
find_tag-replace_tag tag old new (cons (str s) xs) h has = ground (arith, h)
find_tag-replace_tag tag old new (cons (scalar s) xs) h has = ground (arith, h)
find_tag-replace_tag tag old new (cons (arr ys) xs) h has = ground (arith, h)

-- The same in the config: looked up again by its tag, the changed inbound is found.
unfoldable pub Finds : String → Json → Json → Type 0
Finds tag new (obj fs) = find_inbound fs tag ≡ ok new
Finds tag new _ = ⊥

Finds-replaced :
    (tag : String) (old : Json) (new : Fields) (o : Option Json)
    → and_then (items_at o) (find_tag tag) ≡ ok old
    → get_field "tag" new ≡ some (str tag)
    → and_then (items_at (some (replaced tag (obj new) o))) (find_tag tag) ≡ ok (obj new)
unfolding find_tag
Finds-replaced tag old new none h has = ground (arith, h)
Finds-replaced tag old new (some (arr xs)) h has = find_tag-replace_tag tag old new xs h has
Finds-replaced tag old new (some null) h has = ground (arith, h)
Finds-replaced tag old new (some (bool b)) h has = ground (arith, h)
Finds-replaced tag old new (some (num n)) h has = ground (arith, h)
Finds-replaced tag old new (some (str s)) h has = ground (arith, h)
Finds-replaced tag old new (some (scalar s)) h has = ground (arith, h)
Finds-replaced tag old new (some (obj fs)) h has = ground (arith, h)

pub with_inbound-Finds :
    (tag : String) (old new : Json) (fs : Fields)
    → find_inbound fs tag ≡ ok old
    → Has "tag" (str tag) new
    → Finds tag new (with_inbound tag new fs)
unfolding with_inbound find_inbound inbounds Has Finds
with_inbound-Finds tag old (obj new) fs h has = rw get_field-set_field (
    Finds-replaced tag old new (get_field "inbounds" fs) h
      (some_of-ok (get_field "tag" new) (str tag) has))
with_inbound-Finds tag old null fs h has = ground (arith, has)
with_inbound-Finds tag old (bool b) fs h has = ground (arith, has)
with_inbound-Finds tag old (num n) fs h has = ground (arith, has)
with_inbound-Finds tag old (str s) fs h has = ground (arith, has)
with_inbound-Finds tag old (scalar s) fs h has = ground (arith, has)
with_inbound-Finds tag old (arr ys) fs h has = ground (arith, has)

-- A dict with a value is truthy.
pub is_truthy-Has : (k : String) (v d : Json) → Has k v d → is_truthy d ≡ true
unfolding Has
is_truthy-Has k v (obj end) h = ground (arith, h)
is_truthy-Has k v (obj (field j w fs)) h = refl
is_truthy-Has k v null h = ground (arith, h)
is_truthy-Has k v (bool b) h = ground (arith, h)
is_truthy-Has k v (num n) h = ground (arith, h)
is_truthy-Has k v (str s) h = ground (arith, h)
is_truthy-Has k v (scalar s) h = ground (arith, h)
is_truthy-Has k v (arr xs) h = ground (arith, h)
