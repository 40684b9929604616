-- ===== src/Prelude/Texts.antt =====
-- The methods of Python's `str` that the program calls, over native texts. `lower` is that of
-- the letters whose lower case is ASCII; every other character stays as it is.
use Prim.Native.Nat.{ℕ, zero, suc, ◌-◌}
use Prim.Native.Char.{Char, code}
use Prim.Native.String.{String, [], ◌∷◌, char_at, ◌++◌}
use mathlib.Core.Bool.{Bool, false, ◌&&◌, ◌||◌}
use mathlib.Core.List.{List}
use text.Mathlib.Text.{◌==◌ as ◌=ˢ◌}
use vpn_control_panel.Prelude.Tests.{◌==◌, leb, if◌then◌else◌}

-- The white space that `str.strip()` removes.
unfoldable pub is_space : Char → Bool
is_space c =
    let n = code c in
    (leb 9 n && leb n 13)
    || (leb 28 n && leb n 32)
    || n == 133
    || n == 160
    || n == 5760
    || (leb 8192 n && leb n 8202)
    || n == 8232
    || n == 8233
    || n == 8239
    || n == 8287
    || n == 12288

unfoldable pub lstrip : String → String
unfolding is_space
lstrip [] = []
lstrip (c ∷ s) = let rest = lstrip s in if is_space c then rest else c ∷ s

unfoldable pub rstrip : String → String
unfolding is_space
rstrip [] = []
rstrip (c ∷ s) = let rest = rstrip s in if is_space c && rest =ˢ "" then "" else c ∷ rest

unfoldable pub strip : String → String
unfolding lstrip rstrip
strip s = lstrip (rstrip s)

-- `s.rstrip(c)` for one character, by its code
unfoldable pub rstrip_char : ℕ → String → String
rstrip_char n [] = []
rstrip_char n (c ∷ s) =
    let rest = rstrip_char n s in if code c == n && rest =ˢ "" then "" else c ∷ rest

unfoldable pub lower_char : Char → Char
lower_char c =
    let n = code c in
    if leb b'A' n && leb n b'Z'
    then char_at "abcdefghijklmnopqrstuvwxyz" (n - b'A')
    else if n == 0x212a
    then "k"
    else c

unfoldable pub lower : String → String
unfolding lower_char
lower [] = []
lower (c ∷ s) = lower_char c ∷ lower s

abbrev pub push_front : Char → List String → List String
push_front c List.[] = List.◌∷◌ (c ∷ []) List.[]
push_front c (List.◌∷◌ s rest) = List.◌∷◌ (c ∷ s) rest

-- `s.split(c)` for one character, by its code
unfoldable pub split_on : ℕ → String → List String
split_on n [] = List.◌∷◌ [] List.[]
split_on n (c ∷ s) =
    let rest = split_on n s in if code c == n then List.◌∷◌ [] rest else push_front c rest

unfoldable pub contains_char : ℕ → String → Bool
contains_char n [] = false
contains_char n (c ∷ s) = code c == n || contains_char n s

-- `s.endswith(t)`
unfoldable pub ends_with : String → String → Bool
ends_with [] t = t =ˢ ""
ends_with (c ∷ s) t = (c ∷ s) =ˢ t || ends_with s t

-- `s[:n]`
unfoldable pub truncate : ℕ → String → String
truncate n [] = []
truncate zero (c ∷ s) = []
truncate (suc n) (c ∷ s) = c ∷ truncate n s

-- `s.upper()` of a text of ASCII characters; any other character stays as it is.
unfoldable pub upper : String → String
upper [] = []
upper (c ∷ s) =
    let n = code c in
    (if leb b'a' n && leb n b'z' then char_at "ABCDEFGHIJKLMNOPQRSTUVWXYZ" (n - b'a') else c)
    ∷ upper s

-- `s.replace(c, "")` for one character, by its code
unfoldable pub remove_char : ℕ → String → String
remove_char n [] = []
remove_char n (c ∷ s) = let rest = remove_char n s in if code c == n then rest else c ∷ rest

-- `s.lstrip(c)` for one character, by its code
unfoldable pub lstrip_char : ℕ → String → String
lstrip_char n [] = []
lstrip_char n (c ∷ s) = let rest = lstrip_char n s in if code c == n then rest else c ∷ s

-- `s.rsplit(c, 1)[0]` for one character, by its code
unfoldable pub before_last : ℕ → String → String
unfolding contains_char
before_last n [] = []
before_last n (c ∷ s) =
    let rest = before_last n s in
    if contains_char n s then c ∷ rest else if code c == n then [] else c ∷ s

abbrev pub concat : List String → String
concat List.[] = []
concat (List.◌∷◌ s rest) = s ++ concat rest

-- `sep.join(parts)`
abbrev pub join : String → List String → String
join sep List.[] = []
join sep (List.◌∷◌ s List.[]) = s
join sep (List.◌∷◌ s (List.◌∷◌ t rest)) = s ++ (sep ++ join sep (List.◌∷◌ t rest))
