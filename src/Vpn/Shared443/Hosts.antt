-- ===== src/Vpn/Shared443/Hosts.antt =====
-- The panel's names are cleaned when they are collected, so that the map keeps them as they are.
use vpn_control_panel.Prelude.{
  String, ◌≡◌, refl, ap, false, ◌||◌, List, [], ◌∷◌, ◌++◌, ◌=ˢ◌, eq_iff, arith, Bool-cases, inl,
  inr, strip, strip_idem,
}
use vpn_control_panel.Vpn.Shared443.{text_in, add_host, add_hosts, stripped}

-- The names are stripped, not blank and pairwise different.
unfoldable pub AreHosts : List String → Type 0
AreHosts [] = Unit
AreHosts (s ∷ rest) = (strip s ≡ s) × ((s =ˢ "") ≡ false) × (text_in s rest ≡ false) × AreHosts rest

text_in-append :
    (s t : String) (xs : List String) → text_in s (xs ++ t ∷ []) ≡ (text_in s xs || t =ˢ s)
text_in-append s t [] = ground arith
text_in-append s t (x ∷ xs) = ground (arith, text_in-append s t xs)

AreHosts-append :
    (xs : List String) (s : String)
    → AreHosts xs
    → strip s ≡ s
    → (s =ˢ "") ≡ false
    → text_in s xs ≡ false
    → AreHosts (xs ++ s ∷ [])
unfolding AreHosts
AreHosts-append [] s h same written new = (same, written, refl, tt)
AreHosts-append (x ∷ xs) s (same_x, written_x, new_x, h) same written new = (
  same_x,
  written_x,
  ground (arith, text_in-append x s xs, new_x, eq_iff s x, eq_iff x s, new),
  AreHosts-append xs s h same written (ground (arith, new)),
)

add_host-AreHosts :
    (hosts : List String) (candidate : String)
    → AreHosts hosts
    → AreHosts (add_host hosts candidate)
unfolding add_host
add_host-AreHosts hosts candidate h =
    let value = strip candidate in
    elim (Bool-cases (value =ˢ "" || text_in value hosts)) [
      | inl e ↦ rw e h
      | inr e ↦ rw e (
          AreHosts-append hosts value h (strip_idem candidate) (ground (arith, e))
            (ground (arith, e)))
    ]

pub add_hosts-AreHosts :
    (candidates hosts : List String) → AreHosts hosts → AreHosts (add_hosts hosts candidates)
unfolding add_hosts
add_hosts-AreHosts [] hosts h = h
add_hosts-AreHosts (candidate ∷ rest) hosts h =
    add_hosts-AreHosts rest (add_host hosts candidate) (add_host-AreHosts hosts candidate h)

pub stripped-AreHosts : (hosts : List String) → AreHosts hosts → stripped hosts ≡ hosts
unfolding stripped AreHosts
stripped-AreHosts [] h = refl
stripped-AreHosts (s ∷ rest) (same, written, _, h) =
    rw (same, written) (ap (◌∷◌ s) (stripped-AreHosts rest h))
