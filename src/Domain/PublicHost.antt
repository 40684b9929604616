-- ===== src/Domain/PublicHost.antt =====
-- panel/domain/value_objects/share_public_host.py. `_HOST_RE` is read as what it matches: labels
-- between dots, of 1 to 63 letters, digits and dashes with no dash at either end, 253 characters in
-- all; and, since `$` also matches before a final newline, one newline may follow.
use Prim.Native.Char.{Char, code}
use Prim.Native.String.{count}
use vpn_control_panel.Prelude.{
  String, Bool, true, false, Option, none, some, List, [], ◌∷◌, ◌&&◌, ◌||◌, not, ◌=ˢ◌, ◌==◌, leb,
  if◌then◌else◌, Result, ok, err, invalid_share_public_host, strip, lower, rstrip_char, split_on,
  contains_char,
}
use text.Mathlib.Text.{starts_with}

unfoldable pub is_host_char : Char → Bool
is_host_char c =
    let n = code c in
    (leb b'A' n && leb n b'Z')
    || (leb b'a' n && leb n b'z')
    || (leb b'0' n && leb n b'9')
    || n == b'-'

abbrev is_dash : Char → Bool
is_dash c = code c == b'-'

unfoldable pub all_host_chars : String → Bool
unfolding is_host_char
all_host_chars String.[] = true
all_host_chars (String.◌∷◌ c s) = is_host_char c && all_host_chars s

abbrev pub starts_with_dash : String → Bool
starts_with_dash String.[] = false
starts_with_dash (String.◌∷◌ c s) = is_dash c

unfoldable pub ends_with_dash : String → Bool
ends_with_dash String.[] = false
ends_with_dash (String.◌∷◌ c s) = if s =ˢ "" then is_dash c else ends_with_dash s

unfoldable pub is_label : String → Bool
unfolding all_host_chars ends_with_dash
is_label s =
    leb 1 (count s)
    && leb (count s) 63
    && all_host_chars s
    && not (starts_with_dash s)
    && not (ends_with_dash s)

unfoldable pub all_labels : List String → Bool
unfolding is_label
all_labels [] = true
all_labels (l ∷ ls) = is_label l && all_labels ls

-- A host name, without the newline.
unfoldable pub is_host : String → Bool
unfolding all_labels split_on
is_host s = leb 1 (count s) && leb (count s) 253 && all_labels (split_on b'.' s)

-- The text without one newline at its end.
unfoldable pub drop_newline : String → String
drop_newline String.[] = ""
drop_newline (String.◌∷◌ c s) =
    if code c == 10 && s =ˢ "" then "" else String.◌∷◌ c (drop_newline s)

-- `_HOST_RE.match(host)`
unfoldable pub host_matches : String → Bool
unfolding is_host drop_newline
host_matches s = is_host (drop_newline s)

unfoldable pub check_host : String → Result (Option String)
unfolding host_matches contains_char
check_host host =
    if host =ˢ ""
    then ok none
    else if starts_with host "http://" || starts_with host "https://"
    then err (invalid_share_public_host "only a hostname without a scheme")
    else if contains_char b'/' host || contains_char b':' host || contains_char b' ' host
    then err (invalid_share_public_host "no port, path or spaces")
    else if not (host_matches host)
    then err (invalid_share_public_host "invalid hostname")
    else ok (some host)

unfoldable pub normalize_share_public_host : Option String → Result (Option String)
unfolding check_host strip lower rstrip_char
normalize_share_public_host none = ok none
normalize_share_public_host (some value) = check_host (rstrip_char b'.' (lower (strip value)))
