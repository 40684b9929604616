-- ===== src/Application/ShareUseCases/Order.antt =====
-- The order of a subscription's configs: `_PROFILE_ORDER` and `_sort_snapshots` of
-- panel/application/resolve_share.py.
use Prim.Native.Nat.{Ordering}
use Prim.Native.String
use vpn_control_panel.Prelude.{
  ℕ, Bool, true, false, String, List, [], ◌∷◌, ◌==◌, ◌&&◌, ◌||◌, ltb, if◌then◌else◌,
}
use vpn_control_panel.Domain.Enums.{ConfigProfile}
use vpn_control_panel.Persistence.Configs.Queries.{ConfigVersionSnapshot}

-- `_PROFILE_ORDER`
abbrev pub profile_order : ConfigProfile → ℕ
profile_order ConfigProfile.xray_reality = 0
profile_order ConfigProfile.xray_xhttp = 1
profile_order ConfigProfile.xray_grpc = 2
profile_order ConfigProfile.hysteria2 = 3

abbrev le_text : String → String → Bool
le_text s t = elim (String.compare s t) [ Ordering.gt ↦ false | _ ↦ true ]

-- The order of the keys `(profile order, name.lower())`; `str.lower` is the first argument.
unfoldable pub sorts_before :
    (String → String) → ConfigVersionSnapshot → ConfigVersionSnapshot → Bool
sorts_before lower a b =
    let p = profile_order a.profile in
    let q = profile_order b.profile in ltb p q || (p == q && le_text (lower a.name) (lower b.name))

unfoldable pub insert_snapshot :
    (String → String)
    → ConfigVersionSnapshot
    → List ConfigVersionSnapshot
    → List ConfigVersionSnapshot
unfolding sorts_before
insert_snapshot lower x [] = x ∷ []
insert_snapshot lower x (y ∷ ys) =
    if sorts_before lower x y then x ∷ y ∷ ys else y ∷ insert_snapshot lower x ys

-- `sorted`, a stable sort: a row goes before the later rows with its key.
unfoldable pub sort_snapshots :
    (String → String) → List ConfigVersionSnapshot → List ConfigVersionSnapshot
unfolding insert_snapshot
sort_snapshots lower [] = []
sort_snapshots lower (x ∷ xs) = insert_snapshot lower x (sort_snapshots lower xs)
