-- ===== src/Application/RegenerateAll/Counting.antt =====
-- A regeneration leaves the number of active configs as it is.
use vpn_control_panel.Prelude.{
  ℕ, zero, suc, String, Bool, ◌≡◌, refl, ◌∙◌, Option, leb, ◌+◌, ◌-◌, ◌≤◌, ◌<◌, none, some, List, [],
  ◌∷◌, arith, take, drop, length, filter, modify, Exec, continue, continue-holds, Result, ok, err,
  value_error, Bool-cases, inl, inr,
}
use vpn_control_panel.Json.{Json}
use vpn_control_panel.Domain.Settings.{PanelSettings}
use vpn_control_panel.Persistence.Models.{Db, VpnConfigModel}
use vpn_control_panel.Persistence.Configs.{
  write_model, write_or_raise, get_model, set_last_task_id, prepare_regenerate, as_pending,
  with_task,
}
use vpn_control_panel.Persistence.Configs.Queries.{
  matches_filters, insert_by, order_by, list_active,
}
use vpn_control_panel.Application.Audit.{audit_log}
use vpn_control_panel.Application.Session.{
  World, BrokerReply, accepted, refused, lost, publish_task,
}
use vpn_control_panel.Application.ConfigUseCases.{
  regenerate_config, regenerate_begin, regenerate_end, rewrap,
}
use vpn_control_panel.Worker.Task.{PublishedTask}

-- The number of active configs.
unfoldable pub active_count : Db → ℕ
active_count db = length (filter (matches_filters none) db.vpn_configs)

length-filter-modify :
    (p : VpnConfigModel → Bool) (f : VpnConfigModel → VpnConfigModel) (xs : List VpnConfigModel)
    → ((m : VpnConfigModel) → (f m).is_active ≡ m.is_active)
    → length (filter (matches_filters none) (modify p f xs))
      ≡ length (filter (matches_filters none) xs)
length-filter-modify p f [] keep = refl
length-filter-modify p f (x ∷ xs) keep = ground (arith, keep x, length-filter-modify p f xs keep)

write_model_count :
    (i : ℕ) (f : VpnConfigModel → VpnConfigModel) (db : Db)
    → ((m : VpnConfigModel) → (f m).is_active ≡ m.is_active)
    → active_count (write_model i f db) ≡ active_count db
unfolding active_count write_model
write_model_count i f db keep = length-filter-modify _ f db.vpn_configs keep

length-insert_by :
    (before : ℕ → ℕ → Bool) (x : VpnConfigModel) (xs : List VpnConfigModel)
    → length (insert_by before x xs) ≡ suc (length xs)
unfolding insert_by
length-insert_by before x [] = refl
length-insert_by before x (y ∷ ys) = ground (arith, length-insert_by before x ys)

length-order_by :
    (before : ℕ → ℕ → Bool) (xs : List VpnConfigModel) → length (order_by before xs) ≡ length xs
unfolding order_by
length-order_by before [] = refl
length-order_by before (x ∷ xs) =
    omega (arith, length-insert_by before x (order_by before xs), length-order_by before xs)

module _ {ℓ} {A : Type ℓ} where
  length-drop : (n : ℕ) (xs : List A) → length (drop n xs) ≡ length xs - n
  length-drop zero xs = omega arith
  length-drop (suc n) [] = omega arith
  length-drop (suc n) (x ∷ xs) = omega (arith, length-drop n xs)

  length-take_le : (n : ℕ) (xs : List A) → length (take n xs) ≤ length xs
  length-take_le zero xs = omega arith
  length-take_le (suc n) [] = omega arith
  length-take_le (suc n) (x ∷ xs) = omega (arith, length-take_le n xs)

  length-take_pos : (n : ℕ) (xs : List A) → 1 ≤ length xs → 1 ≤ length (take (suc n) xs)
  length-take_pos n [] h = h
  length-take_pos n (x ∷ xs) h = omega arith

-- A page ends within the active configs, and is empty only behind them.
pub list_active_bounds :
    (offset : ℕ) (db : Db)
    → offset ≤ active_count db
    → let n = length (list_active none 100 offset db).items in
      (offset + n ≤ active_count db) × (offset < active_count db → 1 ≤ n)
unfolding list_active active_count
list_active_bounds offset db h =
    let rows = order_by (λ a b. leb b a) (filter (matches_filters none) db.vpn_configs) in
    let size = length-order_by (λ a b. leb b a) (filter (matches_filters none) db.vpn_configs) in
    let dropped = length-drop offset rows in
    (
      omega (arith, h, size, dropped, length-take_le 100 (drop offset rows)),
      λ below. length-take_pos 99 (drop offset rows) (omega (arith, below, size, dropped)),
    )

audit_log_count :
    (settings : PanelSettings) (event : String) (payload : Json) (user : Option ℕ) (db : Db)
    → active_count (audit_log settings event payload user db) ≡ active_count db
unfolding active_count audit_log
audit_log_count settings event payload user db = elim (Bool-cases settings.audit.enabled) [
  | inl e ↦ rw e refl
  | inr e ↦ rw e refl
]

rewrap_count : (out : Result (Unit {0}) × Db) → active_count (rewrap out).1 ≡ active_count out.1
rewrap_count (ok u, db) = refl
rewrap_count (err (value_error s), db) = refl
rewrap_count (err e, db) = refl

prepare_regenerate_count :
    (i user now : ℕ) (db : Db) → active_count (prepare_regenerate i user now db).1 ≡ active_count db
unfolding prepare_regenerate
prepare_regenerate_count i user now db =
    ground (arith, write_model_count i (as_pending user now) db λ m. refl)

write_or_raise_count :
    (found : Option VpnConfigModel) (task : String) (now : ℕ) (db : Db)
    → active_count (write_or_raise found (with_task task now) db).1 ≡ active_count db
unfolding write_or_raise
write_or_raise_count none task now db = refl
write_or_raise_count (some m) task now db = write_model_count m.id (with_task task now) db λ m. refl

set_last_task_id_count :
    (i : ℕ) (task : String) (now : ℕ) (db : Db)
    → active_count (set_last_task_id i task now db).1 ≡ active_count db
unfolding set_last_task_id
set_last_task_id_count i task now db = write_or_raise_count (get_model i db) task now db

-- The tables have this number of active configs.
pub record Counts (c : ℕ) (db : Db) : Type 0 where
  pub count : active_count db ≡ c

module _ (c : ℕ) where
  pub bind-Counts :
      {A B : Type 0} (r : Result A) (w : World) (f : A → Exec World B)
      → Counts c w.session
      → ((a : A) → r ≡ ok a → Counts c (f a w).1.session)
      → Counts c (continue r w f).1.session
  bind-Counts r w f h goes = continue-holds (λ out. Counts c out.1.session) r w f (λ _. h) goes

  publish_task-Counts :
      (t : PublishedTask) (reply : BrokerReply) (w : World)
      → Counts c w.session
      → Counts c (publish_task t reply w).1.session
  unfolding publish_task
  publish_task-Counts t (accepted id) w h = h
  publish_task-Counts t (refused e) w h = h
  publish_task-Counts t (lost e) w h = h

  begun-Counts :
      (i user now : ℕ) (db : Db)
      → Counts c db
      → Counts c (rewrap (prepare_regenerate i user now db)).1
  begun-Counts i user now db h = record {
    count =
        rewrap_count (prepare_regenerate i user now db)
        ∙ prepare_regenerate_count i user now db
        ∙ h.count;
  }

  requested-Counts :
      (settings : PanelSettings) (event : String) (payload : Json) (user : Option ℕ) (db : Db)
      → Counts c db
      → Counts c (audit_log settings event payload user db)
  requested-Counts settings event payload user db h = record {
    count = audit_log_count settings event payload user db ∙ h.count;
  }

  set_last_task_id-Counts :
      (i : ℕ) (task : String) (now : ℕ) (db : Db)
      → Counts c db
      → Counts c (set_last_task_id i task now db).1
  set_last_task_id-Counts i task now db h = record {
    count = set_last_task_id_count i task now db ∙ h.count;
  }

  regenerate_begin-Counts :
      (i user now : ℕ) (w : World)
      → Counts c w.session
      → Counts c (regenerate_begin i user now w).1.session
  unfolding regenerate_begin
  regenerate_begin-Counts i user now w h = search (bind-Counts, begun-Counts) depth 14

  regenerate_end-Counts :
      (settings : PanelSettings) (i user target : ℕ) (task : String) (now : ℕ) (w : World)
      → Counts c w.session
      → Counts c (regenerate_end settings i user target task now w).1.session
  unfolding regenerate_end
  regenerate_end-Counts settings i user target task now w h =
      search (bind-Counts, requested-Counts, set_last_task_id-Counts) depth 14

  pub regenerate_config-Counts :
      (settings : PanelSettings) (i user now : ℕ) (reply : BrokerReply) (task_now : ℕ) (w : World)
      → Counts c w.session
      → Counts c (regenerate_config settings i user now reply task_now w).1.session
  unfolding regenerate_config
  regenerate_config-Counts settings i user now reply task_now w h =
      search (bind-Counts, regenerate_begin-Counts, publish_task-Counts, regenerate_end-Counts)
        depth 14
