-- ===== src/Application/ConfigUseCases/Busy.antt =====
-- One regeneration at a time: a request that was accepted makes the config busy.
use vpn_control_panel.Prelude.{
  ℕ, true, ◌≡◌, refl, some, arith, Exec, continue, continue-holds, Result, ok, err, Error,
  value_error, config_not_regeneratable, Option-cases, inl, inr, is_some, find?-modify_self,
}
use vpn_control_panel.Domain.Enums.{is_busy}
use vpn_control_panel.Persistence.Models.{Db, VpnConfigModel}
use vpn_control_panel.Persistence.Configs.{
  has_id, get_model, get_any_model, prepare_regenerate, write_model, as_pending, RegenerateContext,
}
use vpn_control_panel.Persistence.Configs.Queries.{get_by_id}
use vpn_control_panel.Application.Session.{Committed, World, request, open_session}
use vpn_control_panel.Application.ConfigUseCases.{regenerate_begin, regenerate_guard, rewrap}

-- The config has a version and is busy.
unfoldable IsWaiting : ℕ → Db → Type 0
IsWaiting i db =
    (m : VpnConfigModel) × (get_model i db ≡ some m)
    × (is_some m.current_version ≡ true)
    × (is_busy m.status ≡ true)

module _ (i user now : ℕ) where
  waiting_row :
      (db : Db) (m : VpnConfigModel)
      → get_any_model i db ≡ some m
      → (prepare_regenerate i user now db).0 ≡ ok tt
      → ((m.is_active ≡ true) × (is_some m.current_version ≡ true))
        × ((prepare_regenerate i user now db).1 ≡ write_model i (as_pending user now) db)
  unfolding prepare_regenerate get_model
  waiting_row db m n h = ground (arith, n, h)

  found_after :
      (db : Db) (m : VpnConfigModel)
      → get_any_model i db ≡ some m
      → m.is_active ≡ true
      → get_model i (write_model i (as_pending user now) db) ≡ some (as_pending user now m)
  unfolding get_model get_any_model write_model
  found_after db m n a =
      let found =
        find?-modify_self (has_id i) (as_pending user now) db.vpn_configs (λ x p. p) m n in
      ground (arith, found, a)

  prepare_regenerate-IsWaiting :
      (db : Db)
      → (prepare_regenerate i user now db).0 ≡ ok tt
      → IsWaiting i (prepare_regenerate i user now db).1
  unfolding prepare_regenerate IsWaiting get_model
  prepare_regenerate-IsWaiting db h = elim (Option-cases (get_any_model i db)) [
    | inl n ↦ ground (arith, n, h)
    | inr (m, n) ↦
        let row = waiting_row db m n h in
        rw (row.1) (as_pending user now m, found_after db m n (row.0.0), row.0.1, refl)
  ]

  Waits : RegenerateContext → Result RegenerateContext × World → Type 0
  Waits context out = out.0 ≡ ok context → IsWaiting i out.1.committed

  err-Waits : (context : RegenerateContext) (e : Error) (w : World) → Waits context (err e, w)
  unfolding Waits
  err-Waits context e w h = ground (arith, h)

  rewrap-ok : (out : Result (Unit {0}) × Db) → (rewrap out).0 ≡ ok tt → out.0 ≡ ok tt
  rewrap-ok (ok u, db) = λ h. refl
  rewrap-ok (err e, db) = elim e as (λ x. (rewrap (err x, db)).0 ≡ ok tt → err x ≡ ok tt) [
    | value_error s ↦ λ h. ground (arith, h)
    | _ ↦ λ h. h
  ]

  rewrap-db : (out : Result (Unit {0}) × Db) → (rewrap out).1 ≡ out.1
  rewrap-db (ok u, db) = refl
  rewrap-db (err e, db) = elim e as (λ x. (rewrap (err x, db)).1 ≡ db) [
    | value_error s ↦ refl
    | _ ↦ refl
  ]

  prepared :
      (context x : RegenerateContext) (w : World)
      → (rewrap (prepare_regenerate i user now w.session)).0 ≡ ok tt
      → Waits context (
        ok x,
        record w {
          committed = (rewrap (prepare_regenerate i user now w.session)).1;
          session = (rewrap (prepare_regenerate i user now w.session)).1;
        },
      )
  unfolding Waits
  prepared context x w h _ =
      let out = prepare_regenerate i user now w.session in
      rw (rewrap-db out) (prepare_regenerate-IsWaiting w.session (rewrap-ok out h))

  bind-Waits :
      {A : Type 0} (context : RegenerateContext) (r : Result A) (w : World)
      (f : A → Exec World RegenerateContext)
      → ((a : A) → r ≡ ok a → Waits context (f a w))
      → Waits context (continue r w f)
  bind-Waits context r w f goes =
      continue-holds (Waits context) r w f (λ e. err-Waits context e w) goes

  regenerate_begin-Waits :
      (context : RegenerateContext) (w : World) → Waits context (regenerate_begin i user now w)
  unfolding regenerate_begin
  regenerate_begin-Waits context w = search (bind-Waits, prepared)

-- A config that waits refuses a regeneration, and nothing changes.
waiting-busy :
    (i user now : ℕ) (c : Committed)
    → IsWaiting i c.db
    → request (regenerate_begin i user now) c ≡ (err (config_not_regeneratable "Config is busy"), c)
unfolding IsWaiting regenerate_begin get_by_id regenerate_guard
waiting-busy i user now c (m, found, versioned, busy) = rw found (rw versioned (rw busy refl))

-- When the first transaction of a regeneration of a config has been committed, a second request
-- for the config that comes before anything else is refused as busy, and changes nothing.
pub regenerate_begin-busy :
    (i user now user' now' : ℕ) (c : Committed) (context : RegenerateContext)
    → (request (regenerate_begin i user now) c).0 ≡ ok context
    → request (regenerate_begin i user' now') (request (regenerate_begin i user now) c).1 ≡ (
      err (config_not_regeneratable "Config is busy"),
      (request (regenerate_begin i user now) c).1,
    )
unfolding Waits
regenerate_begin-busy i user now user' now' c context h =
    waiting-busy i user' now' (request (regenerate_begin i user now) c).1
      (regenerate_begin-Waits i user now context (open_session c) h)
