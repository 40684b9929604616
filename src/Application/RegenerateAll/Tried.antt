-- ===== src/Application/RegenerateAll/Tried.antt =====
-- The page loop ends, and tries as many configs as are active.
use vpn_control_panel.Prelude.{
  ℕ, zero, suc, String, Bool, true, false, ◌≡◌, refl, ◌+◌, ◌≤◌, ◌<◌, Option, none, some, List, [],
  ◌∷◌, leb, arith, length, length-append, Result, ok, err, Error, config_not_regeneratable,
  Bool-cases, inl, inr, continue,
}
use vpn_control_panel.Domain.Settings.{PanelSettings}
use vpn_control_panel.Persistence.Models.{Db, VpnConfigModel}
use vpn_control_panel.Persistence.Configs.Queries.{list_active}
use vpn_control_panel.Application.Session.{World}
use vpn_control_panel.Application.ConfigUseCases.{regenerate_config}
use vpn_control_panel.Application.RegenerateAll.{
  RegenerateAllConfigsResult, Answers, noted, regenerate_items, regenerate_pages, regenerate_all,
  finish,
}
use vpn_control_panel.Application.RegenerateAll.Counting.{
  active_count, Counts, regenerate_config-Counts, list_active_bounds,
}

-- The number of configs that are queued or skipped.
unfoldable pub tried : RegenerateAllConfigsResult → ℕ
tried r = length r.queued + length r.skipped

refuses : Error → Bool
refuses (config_not_regeneratable reason) = true
refuses e = false

-- A run that has so many configs tried, or that an exception ends which is no refusal of a config.
-- Its fuel is not used up.
unfoldable pub HasTried : ℕ → Result (Option RegenerateAllConfigsResult) → Type 0
unfolding tried refuses
HasTried n (ok none) = ⊥
HasTried n (ok (some r)) = tried r ≡ n
HasTried n (err e) = refuses e ≡ false

-- What a step of the loop leads to: the tables count c configs, and n are tried.
Reaches : ℕ → ℕ → Result RegenerateAllConfigsResult × World → Type 0
unfolding tried refuses
Reaches c n (ok r, w) = (tried r ≡ n) × Counts c w.session
Reaches c n (err e, w) = refuses e ≡ false

noted-Reaches :
    (c id : ℕ) (acc : RegenerateAllConfigsResult) (out : Result (ℕ × String) × World)
    → Counts c out.1.session
    → Reaches c (suc (tried acc)) (noted acc id out)
unfolding Reaches tried refuses
noted-Reaches c id acc (ok r, w) h = (omega (arith, length-append acc.queued (r ∷ [])), h)
noted-Reaches c id acc (err (config_not_regeneratable reason), w) h =
    (omega (arith, length-append acc.skipped ((id, reason) ∷ [])), h)
noted-Reaches c id acc (err e, w) h = refl

-- A step behind another.
bind-Reaches :
    {A : Type 0} (c n : ℕ) (P : Result A × World → Type 0)
    (out : Result RegenerateAllConfigsResult × World)
    (f : RegenerateAllConfigsResult → World → Result A × World)
    → Reaches c n out
    → ((e : Error) (w : World) → refuses e ≡ false → P (err e, w))
    → ((a : RegenerateAllConfigsResult) (w : World) → tried a ≡ n → Counts c w.session → P (f a w))
    → P (continue out.0 out.1 f)
unfolding Reaches
bind-Reaches c n P (ok r, w) f (h, k) fails goes = goes r w h k
bind-Reaches c n P (err e, w) f h fails goes = fails e w h

leb_sound : (a b : ℕ) → leb a b ≡ true → a ≤ b
leb_sound a b h = ground (arith, h)

leb_complete : (a b : ℕ) → leb a b ≡ false → b < a
leb_complete a b h = ground (arith, h)

total_lem : (offset : ℕ) (db : Db) → (list_active none 100 offset db).total ≡ active_count db
unfolding list_active active_count
total_lem offset db = refl

module _ (settings : PanelSettings) (user_id : ℕ) (answers : Answers) (c : ℕ) where
  items-Reaches :
      (ms : List VpnConfigModel) (acc : RegenerateAllConfigsResult) (w : World) (n : ℕ)
      → Counts c w.session
      → tried acc + length ms ≡ n
      → Reaches c n (regenerate_items settings user_id answers ms acc w)
  unfolding regenerate_items Reaches
  items-Reaches [] acc w n h e = (omega (arith, e), h)
  items-Reaches (m ∷ ms) acc w n h e =
      let now = answers.now m.id in
      let task_now = answers.task_now m.id in
      let out = regenerate_config settings m.id user_id now (answers.reply m.id) task_now w in
      let kept =
        regenerate_config-Counts c settings m.id user_id now (answers.reply m.id) task_now w h in
      bind-Reaches c (suc (tried acc)) (Reaches c n) (noted acc m.id out)
        (regenerate_items settings user_id answers ms) (noted-Reaches c m.id acc out kept)
        (λ e w f. f) λ a w' t k. items-Reaches ms a w' n k (omega (arith, e, t))

  pages-HasTried :
      (fuel offset : ℕ) (acc : RegenerateAllConfigsResult) (w : World)
      → Counts c w.session
      → tried acc ≡ offset
      → offset ≤ c
      → c < offset + fuel
      → HasTried c (regenerate_pages settings user_id answers fuel offset acc w).0
  unfolding regenerate_pages HasTried
  pages-HasTried zero offset acc w h n below enough = omega (arith, below, enough)
  pages-HasTried (suc fuel) offset acc w h n below enough =
      let batch = list_active none 100 offset w.session in
      let next = offset + length batch.items in
      let page = list_active_bounds offset w.session (omega (arith, h.count, below)) in
      let total = total_lem offset w.session in
      bind-Reaches c next (λ out. HasTried c out.0)
        (regenerate_items settings user_id answers batch.items acc w) _
        (items-Reaches batch.items acc w next h (omega (arith, n))) (λ e w f. f)
        λ a w' t k. elim (Bool-cases (leb batch.total next)) [
          | inl e ↦ rw e (omega (arith, t, leb_sound batch.total next e, page.0, h.count, total))
          | inr e ↦
              let more = leb_complete batch.total next e in
              let some_item = page.1 (omega (arith, more, total)) in
              rw e (
                pages-HasTried fuel next a w' k t (omega (arith, page.0, h.count))
                  (omega (arith, enough, some_item)))
        ]

finish-HasTried :
    (settings : PanelSettings) (user_id c : ℕ)
    (out : Result (Option RegenerateAllConfigsResult) × World)
    → HasTried c out.0
    → HasTried c (continue out.0 out.1 (finish settings user_id)).0
unfolding HasTried
finish-HasTried settings user_id c (ok none, w) h = h
finish-HasTried settings user_id c (ok (some r), w) h = h
finish-HasTried settings user_id c (err e, w) h = h

-- With fuel for one page more than there are active configs, the run for all configs does not use
-- up its fuel: as many configs are queued or skipped as were active at its start, unless an
-- exception ends it, which is never the refusal of a config.
pub regenerate_all-HasTried :
    (settings : PanelSettings) (user_id : ℕ) (answers : Answers) (fuel : ℕ) (w : World)
    → active_count w.session < fuel
    → HasTried (active_count w.session) (regenerate_all settings user_id answers fuel w).0
unfolding regenerate_all tried
regenerate_all-HasTried settings user_id answers fuel w enough =
    let start : RegenerateAllConfigsResult = record { queued = []; skipped = [] } in
    finish-HasTried settings user_id (active_count w.session)
      (regenerate_pages settings user_id answers fuel 0 start w)
      (pages-HasTried settings user_id answers (active_count w.session) fuel 0 start w
        (record { count = refl }) refl (omega arith) (omega (arith, enough)))
