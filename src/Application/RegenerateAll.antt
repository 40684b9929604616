-- ===== src/Application/RegenerateAll.antt =====
-- panel/application/regenerate_all_configs.py. What the broker answers for a config and the times of
-- its regeneration are functions of its id.
pub mod Counting
pub mod Tried
use vpn_control_panel.Prelude.{
  ℕ, zero, suc, String, Bool, true, false, ◌+◌, Option, none, some, List, [], ◌∷◌, ◌++◌, leb,
  length, config_not_regeneratable, Result, ok, err, Exec, ◌>>=◌, ◌>>◌, pure, continue,
}
use vpn_control_panel.Json.{num, obj, end, field}
use vpn_control_panel.Domain.Settings.{PanelSettings}
use vpn_control_panel.Persistence.Models.{VpnConfigModel}
use vpn_control_panel.Persistence.Configs.Queries.{list_active}
use vpn_control_panel.Application.Session.{World, commit, BrokerReply, audit}
use vpn_control_panel.Application.ConfigUseCases.{regenerate_config}

pub record RegenerateAllConfigsResult : Type 0 where
  pub queued : List (ℕ × String)
  -- the id and the reason of each `SkippedRegenerate`
  pub skipped : List (ℕ × String)

pub record Answers : Type 0 where
  pub now : ℕ → ℕ
  pub reply : ℕ → BrokerReply
  pub task_now : ℕ → ℕ

-- The `try` block around one regeneration, on what it gave.
abbrev pub noted :
    RegenerateAllConfigsResult
    → ℕ
    → Result (ℕ × String) × World
    → Result RegenerateAllConfigsResult × World
noted acc id (ok r, w) = (ok (record acc { queued = acc.queued ++ r ∷ [] }), w)
noted acc id (err (config_not_regeneratable reason), w) =
    (ok (record acc { skipped = acc.skipped ++ (id, reason) ∷ [] }), w)
noted acc id (err e, w) = (err e, w)

abbrev pub finish :
    PanelSettings
    → ℕ
    → Option RegenerateAllConfigsResult
    → Exec World (Option RegenerateAllConfigsResult)
finish settings user_id none = pure none
finish settings user_id (some r) = do
  audit settings "config.regenerate_all.requested"
      (obj (
        field "queued_count" (num (length r.queued))
          (field "skipped_count" (num (length r.skipped)) end)))
      user_id
  commit
  pure (some r)

module _ (settings : PanelSettings) (user_id : ℕ) (answers : Answers) where
  -- The `for` loop over the configs of a page.
  unfoldable pub regenerate_items :
      List VpnConfigModel → RegenerateAllConfigsResult → Exec World RegenerateAllConfigsResult
  unfolding regenerate_config
  regenerate_items [] acc = pure acc
  regenerate_items (m ∷ ms) acc =
      (λ w. noted acc m.id (
        regenerate_config settings m.id user_id (answers.now m.id) (answers.reply m.id)
          (answers.task_now m.id) w))
      >>= λ a. regenerate_items ms a

  -- The `while` loop, on fuel: `none` when it is used up.
  unfoldable pub regenerate_pages :
      ℕ → ℕ → RegenerateAllConfigsResult → Exec World (Option RegenerateAllConfigsResult)
  unfolding list_active regenerate_items
  regenerate_pages zero offset acc w = (ok none, w)
  regenerate_pages (suc fuel) offset acc w =
      let batch = list_active none 100 offset w.session in
      let r = regenerate_items batch.items acc w in
      continue r.0 r.1 λ a. elim (leb batch.total (offset + length batch.items)) [
        | true ↦ pure (some a)
        | false ↦ regenerate_pages fuel (offset + length batch.items) a
      ]

  -- `RegenerateAllConfigsUseCase.execute`
  unfoldable pub regenerate_all : ℕ → Exec World (Option RegenerateAllConfigsResult)
  unfolding regenerate_pages
  regenerate_all fuel =
      regenerate_pages fuel 0 (record { queued = []; skipped = [] }) >>= finish settings user_id
