-- ===== src/Vpn/Shared443/Distinct.antt =====
-- The map that is rendered has every name once, and gives it its last backend.
use vpn_control_panel.Prelude.{
  String, ◌≡◌, refl, ap, ◌∙◌, Bool, true, false, ◌&&◌, ◌||◌, not, Option, none, some, List, [], ◌∷◌,
  ◌++◌, ◌=ˢ◌, eq_iff, eq_refl, if◌then◌else◌, arith, Bool-cases, inl, inr, strip,
}
use vpn_control_panel.Domain.Settings.{PanelSettings}
use vpn_control_panel.Vpn.Shared443.{
  text_in, panel_sni_hosts, Routes, set_route, is_skipped, by_sni, stripped, panel_routes,
  map_entries,
}
use vpn_control_panel.Vpn.Shared443.Hosts.{AreHosts, add_hosts-AreHosts, stripped-AreHosts}

-- The backend of a name.
abbrev pub lookup : String → Routes → Option String
lookup sni [] = none
lookup sni ((s, b) ∷ rest) = if s =ˢ sni then some b else lookup sni rest

-- The last backend that the routes give the name, and the one from before without any.
abbrev pub last_backend : String → Option String → Routes → Option String
last_backend sni before [] = before
last_backend sni before ((s, b) ∷ rest) =
    let now = last_backend sni (some (strip b)) rest in
    let old = last_backend sni before rest in
    if strip s =ˢ sni && not (strip b =ˢ "") then now else old

lookup-set_route :
    (sni s b : String) (table : Routes)
    → lookup sni (set_route s b table) ≡ (if s =ˢ sni then some b else lookup sni table)
unfolding set_route
lookup-set_route sni s b [] = refl
lookup-set_route sni s b ((t, c) ∷ rest) =
    ground (arith, eq_iff t s, eq_iff t sni, eq_iff s sni, lookup-set_route sni s b rest)

-- A name that is not the panel's is skipped only where its backend is blank.
is_skipped-eq :
    (panel : List String) (sni s backend : String)
    → text_in sni panel ≡ false
    → (sni =ˢ "") ≡ false
    → (s =ˢ sni) ≡ true
    → is_skipped panel s backend ≡ (backend =ˢ "")
unfolding is_skipped
is_skipped-eq panel sni s backend other written e =
    let same = (eq_iff s sni).0 e in rw (same, other, written) ground arith

lookup-round :
    (panel : List String) (sni s b : String) (table : Routes)
    → text_in sni panel ≡ false
    → (sni =ˢ "") ≡ false
    → lookup sni (if is_skipped panel s b then table else set_route s b table)
      ≡ (if s =ˢ sni && not (b =ˢ "") then some b else lookup sni table)
lookup-round panel sni s b table other written = elim (Bool-cases (s =ˢ sni)) [
  | inl e ↦
      let skips = is_skipped-eq panel sni s b other written e in
      ground (arith, e, skips, lookup-set_route sni s b table)
  | inr e ↦ ground (arith, e, lookup-set_route sni s b table)
]

if-last_backend :
    (sni b : String) (before : Option String) (t : Bool) (rest : Routes)
    → last_backend sni (if t then some b else before) rest
      ≡ (if t then last_backend sni (some b) rest else last_backend sni before rest)
if-last_backend sni b before true rest = refl
if-last_backend sni b before false rest = refl

lookup-by_sni :
    (panel : List String) (sni : String) (routes table : Routes)
    → text_in sni panel ≡ false
    → (sni =ˢ "") ≡ false
    → lookup sni (by_sni panel table routes) ≡ last_backend sni (lookup sni table) routes
unfolding by_sni
lookup-by_sni panel sni [] table other written = refl
lookup-by_sni panel sni ((s, b) ∷ rest) table other written =
    lookup-by_sni panel sni rest _ other written
    ∙ ap (λ o. last_backend sni o rest)
        (lookup-round panel sni (strip s) (strip b) table other written)
    ∙ if-last_backend sni (strip b) (lookup sni table) _ rest

-- Every name stands once.
abbrev pub is_key : String → Routes → Bool
is_key sni [] = false
is_key sni ((s, b) ∷ rest) = s =ˢ sni || is_key sni rest

abbrev pub distinct : Routes → Bool
distinct [] = true
distinct ((s, b) ∷ rest) = not (is_key s rest) && distinct rest

is_key-set_route :
    (sni s b : String) (table : Routes)
    → is_key sni (set_route s b table) ≡ (s =ˢ sni || is_key sni table)
unfolding set_route
is_key-set_route sni s b [] = ground arith
is_key-set_route sni s b ((t, c) ∷ rest) =
    ground (arith, eq_iff t s, eq_iff t sni, eq_iff s sni, is_key-set_route sni s b rest)

distinct-set_route :
    (s b : String) (table : Routes) → distinct table ≡ true → distinct (set_route s b table) ≡ true
unfolding set_route
distinct-set_route s b [] h = refl
distinct-set_route s b ((t, c) ∷ rest) h =
    ground
      (arith, h, eq_iff t s, eq_iff s t, is_key-set_route t s b rest, distinct-set_route s b rest)

distinct-by_sni :
    (panel : List String) (routes table : Routes)
    → distinct table ≡ true
    → distinct (by_sni panel table routes) ≡ true
unfolding by_sni
distinct-by_sni panel [] table h = h
distinct-by_sni panel ((s, b) ∷ rest) table h =
    elim (Bool-cases (is_skipped panel (strip s) (strip b))) [
      | inl e ↦ rw e (distinct-by_sni panel rest table h)
      | inr e ↦ rw e (
          distinct-by_sni panel rest (set_route (strip s) (strip b) table)
            (distinct-set_route (strip s) (strip b) table h))
    ]

is_key-round :
    (panel : List String) (sni s b : String) (table : Routes)
    → text_in sni panel ≡ true
    → is_key sni table ≡ false
    → is_key sni (if is_skipped panel s b then table else set_route s b table) ≡ false
unfolding is_skipped
is_key-round panel sni s b table mine h = elim (Bool-cases (s =ˢ sni)) [
  | inl e ↦ let same = (eq_iff s sni).0 e in rw (same, mine) ground (arith, h)
  | inr e ↦ ground (arith, e, h, is_key-set_route sni s b table)
]

-- A panel's name is no key of the routes.
is_key-by_sni :
    (panel : List String) (sni : String) (routes table : Routes)
    → text_in sni panel ≡ true
    → is_key sni table ≡ false
    → is_key sni (by_sni panel table routes) ≡ false
unfolding by_sni
is_key-by_sni panel sni [] table mine h = h
is_key-by_sni panel sni ((s, b) ∷ rest) table mine h =
    is_key-by_sni panel sni rest _ mine (is_key-round panel sni (strip s) (strip b) table mine h)

lookup-append :
    (sni : String) (xs ys : Routes)
    → lookup sni (xs ++ ys) ≡ (if is_key sni xs then lookup sni xs else lookup sni ys)
lookup-append sni [] ys = refl
lookup-append sni ((s, b) ∷ xs) ys = ground (arith, lookup-append sni xs ys)

is_key-append :
    (sni : String) (xs ys : Routes) → is_key sni (xs ++ ys) ≡ (is_key sni xs || is_key sni ys)
is_key-append sni [] ys = refl
is_key-append sni ((s, b) ∷ xs) ys = ground (arith, is_key-append sni xs ys)

is_key-panel_routes :
    (sni backend : String) (names : List String)
    → is_key sni (panel_routes backend names) ≡ text_in sni names
is_key-panel_routes sni backend [] = refl
is_key-panel_routes sni backend (s ∷ rest) = ground (arith, is_key-panel_routes sni backend rest)

lookup-panel_routes :
    (sni backend : String) (names : List String)
    → text_in sni names ≡ true
    → lookup sni (panel_routes backend names) ≡ some backend
lookup-panel_routes sni backend [] h = ground (arith, h)
lookup-panel_routes sni backend (s ∷ rest) h =
    ground (arith, h, lookup-panel_routes sni backend rest)

-- In the map, a name that is not blank has the panel's backend if it is one of the panel's names,
-- and else the last backend that is not blank among its routes, if there is one.
pub lookup-map_entries :
    (panel_snis : List String) (panel_backend : String) (routes : Routes) (sni : String)
    → (sni =ˢ "") ≡ false
    → lookup sni (map_entries panel_snis panel_backend routes) ≡ (
        if text_in sni (stripped panel_snis)
        then some panel_backend
        else last_backend sni none routes)
unfolding map_entries
lookup-map_entries panel_snis panel_backend routes sni written =
    let panel = stripped panel_snis in
    let joins = lookup-append sni (panel_routes panel_backend panel) (by_sni panel [] routes) in
    let keys = is_key-panel_routes sni panel_backend panel in
    elim (Bool-cases (text_in sni panel)) [
      | inl e ↦ rw (joins, keys, e) (lookup-panel_routes sni panel_backend panel e)
      | inr e ↦ rw (joins, keys, e) (lookup-by_sni panel sni routes [] e written)
    ]

distinct-append :
    (backend : String) (names : List String) (ys : Routes)
    → AreHosts names
    → distinct ys ≡ true
    → ((s : String) → text_in s names ≡ true → is_key s ys ≡ false)
    → distinct (panel_routes backend names ++ ys) ≡ true
unfolding AreHosts
distinct-append backend [] ys h fine apart = fine
distinct-append backend (s ∷ rest) ys (_, _, new, h) fine apart =
    let keys = is_key-append s (panel_routes backend rest) ys in
    let mine = is_key-panel_routes s backend rest in
    let more =
      distinct-append backend rest ys h fine (λ t there. apart t (ground (arith, there))) in
    ground (arith, keys, mine, new, apart s (ground (arith, eq_refl s)), more)

-- The map for the panel's own names has every name once, whatever the routes are.
pub map_entries-distinct :
    (settings : PanelSettings) (panel_backend : String) (routes : Routes)
    → distinct (map_entries (panel_sni_hosts settings) panel_backend routes) ≡ true
unfolding map_entries panel_sni_hosts AreHosts
map_entries-distinct settings panel_backend routes =
    let hosts = panel_sni_hosts settings in
    let are =
      add_hosts-AreHosts (settings.vpn.public_host ∷ settings.vpn.public_host_aliases) [] tt in
    rw (stripped-AreHosts hosts are) (
      distinct-append panel_backend hosts (by_sni hosts [] routes) are
        (distinct-by_sni hosts routes [] refl)
        (λ s mine. is_key-by_sni hosts s routes [] mine refl))
