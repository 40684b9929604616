-- ===== src/Vpn/ClientUri/Query.antt =====
-- An independent reader of links: the query is the text between the first `?` and the following
-- `#`, split at `&`.
use Prim.Native.Char.{code}
use Prim.Native.String.{[] as empty, ◌∷◌ as ◌∷ˢ◌, ◌++◌}
use text.Mathlib.TextLemmas.{nil-append, cons-append, append-nil}
use vpn_control_panel.Prelude.{
  ℕ, String, ◌≡◌, refl, ap, ◌∙◌, false, List, [], ◌∷◌, ◌==◌, if◌then◌else◌, All, arith, join,
  split_on, contains_char, decimal, decimal-lacks,
}
use vpn_control_panel.Prelude.Splits.{split_on-append, split_on-Lacks}
use vpn_control_panel.Prelude.Quote.Reading.{contains_char-append}
use vpn_control_panel.Vpn.ClientUri.{link}

unfoldable pub after_char : ℕ → String → String
after_char n empty = empty
after_char n (c ∷ˢ s) = let rest = after_char n s in if code c == n then s else rest

until_char : ℕ → String → String
until_char n empty = empty
until_char n (c ∷ˢ s) = let rest = until_char n s in if code c == n then empty else c ∷ˢ rest

unfoldable pub query : String → List String
unfolding after_char until_char split_on
query uri = split_on b'&' (until_char b'#' (after_char b'?' uri))

abbrev pub Lacks : ℕ → String → Type 0
Lacks n s = contains_char n s ≡ false

pub after_char-append : (n : ℕ) (s t : String) → Lacks n s → after_char n (s ++ t) ≡ after_char n t
unfolding after_char contains_char
after_char-append n empty t h = rw nil-append refl
after_char-append n (c ∷ˢ s) t h = rw cons-append (ground (arith, h, after_char-append n s t))

until_char-append : (n : ℕ) (s t : String) → Lacks n s → until_char n (s ++ t) ≡ s ++ until_char n t
unfolding until_char contains_char
until_char-append n empty t h = rw (nil-append, nil-append) refl
until_char-append n (c ∷ˢ s) t h =
    rw (cons-append, cons-append) (ground (arith, h, until_char-append n s t))

-- A separator that starts a text ends an empty part.
split_on-separator : (t : String) → split_on b'&' ("&" ++ t) ≡ empty ∷ split_on b'&' t
unfolding split_on
split_on-separator t = rw (cons-append, nil-append) refl

pub split_on-join :
    (p : String) (ps : List String)
    → All (Lacks b'&') (p ∷ ps)
    → split_on b'&' (join "&" (p ∷ ps)) ≡ p ∷ ps
split_on-join p [] (h, _) = split_on-Lacks b'&' p h
split_on-join p (q ∷ qs) (h, hs) =
    split_on-append b'&' p ("&" ++ join "&" (q ∷ qs)) (q ∷ qs) h
      (split_on-separator (join "&" (q ∷ qs)) ∙ ap (◌∷◌ empty) (split_on-join q qs hs))

join-Lacks : (ps : List String) → All (Lacks b'#') ps → Lacks b'#' (join "&" ps)
unfolding contains_char
join-Lacks [] h = refl
join-Lacks (p ∷ []) (h, _) = h
join-Lacks (p ∷ q ∷ qs) (h, hs) =
    rw (contains_char-append, contains_char-append, h, join-Lacks (q ∷ qs) hs) refl

after_char-hit : (t : String) → after_char b'?' ("?" ++ t) ≡ t
unfolding after_char
after_char-hit t = rw (cons-append, nil-append) refl

until_char-hit : (t : String) → until_char b'#' ("#" ++ t) ≡ ""
unfolding until_char
until_char-hit t = rw cons-append refl

-- No parameter ends the query or another parameter.
unfoldable pub IsParam : String → Type 0
IsParam s = Lacks b'&' s × Lacks b'#' s

All-fst : (ps : List String) → All IsParam ps → All (Lacks b'&') ps
unfolding IsParam
All-fst [] h = tt
All-fst (p ∷ ps) ((h, _), hs) = (h, All-fst ps hs)

All-snd : (ps : List String) → All IsParam ps → All (Lacks b'#') ps
unfolding IsParam
All-snd [] h = tt
All-snd (p ∷ ps) ((_, h), hs) = (h, All-snd ps hs)

-- The reader finds the parameters of a link.
pub query-link :
    (scheme user host : String) (port : ℕ) (p : String) (ps : List String) (label : String)
    → Lacks b'?' scheme
    → Lacks b'?' user
    → Lacks b'?' host
    → All IsParam (p ∷ ps)
    → query (link scheme user host port (p ∷ ps) label) ≡ p ∷ ps
unfolding query link
query-link scheme user host port p ps label no_scheme no_user no_host good =
    rw
      (
        after_char-append b'?' scheme _ no_scheme,
        after_char-append b'?' "://" _ refl,
        after_char-append b'?' user _ no_user,
        after_char-append b'?' "@" _ refl,
        after_char-append b'?' host _ no_host,
        after_char-append b'?' ":" _ refl,
        after_char-append b'?' (decimal port) _ (decimal-lacks b'?' port (omega arith)),
        after_char-hit,
        until_char-append b'#' (join "&" (p ∷ ps)) _ (join-Lacks (p ∷ ps) (All-snd (p ∷ ps) good)),
        until_char-hit,
        append-nil,
      )
      (split_on-join p ps (All-fst (p ∷ ps) good))
