-- ===== src/Persistence/RateLimits.antt =====
-- `PostgresRateLimiter` of panel/infrastructure/persistence/repositories/rate_limit.py: counters by
-- key and window. `INSERT … ON CONFLICT DO UPDATE … RETURNING count` is one atomic statement.
pub mod Windows
use vpn_control_panel.Prelude.{
  ℕ, ◌+◌, ◌*◌, ◌/◌, String, Bool, true, false, Option, none, some, List, [], ◌∷◌, ◌++◌, ◌&&◌, ◌=ˢ◌,
  ◌==◌, ltb, if◌then◌else◌, find?, modify, rate_limit_exceeded, Result, ok, err, Exec,
}
use Prim.Native.String.{◌++◌ as ◌<>◌}
use vpn_control_panel.Persistence.Models.{Db, RateLimitEntryModel}

abbrev pub is_entry : String → ℕ → RateLimitEntryModel → Bool
is_entry key start e = e.key =ˢ key && e.window_start == start

-- The start of the window that holds the time, in whole seconds.
abbrev pub window_start : ℕ → ℕ → ℕ
window_start now window_seconds = now / window_seconds * window_seconds

abbrev pub rate_key : String → String → String
rate_key scope identifier = scope <> (":" <> identifier)

abbrev pub bump : RateLimitEntryModel → RateLimitEntryModel
bump e = record e { count = e.count + 1 }

unfoldable pub find_entry : String → ℕ → List RateLimitEntryModel → Option RateLimitEntryModel
find_entry key start rows = find? (is_entry key start) rows

abbrev pub count_of : Option RateLimitEntryModel → ℕ
count_of none = 0
count_of (some e) = e.count

-- The upsert.
unfoldable pub upsert : String → ℕ → List RateLimitEntryModel → List RateLimitEntryModel
unfolding find_entry
upsert key start rows = elim (find_entry key start rows) [
  | none ↦ rows ++ record { key = key; window_start = start; count = 1 } ∷ []
  | some _ ↦ modify (is_entry key start) bump rows
]

-- The count that `RETURNING` gives and the rows after it; a refused request is counted too.
unfoldable pub check_and_increment : String → String → ℕ → ℕ → ℕ → Exec Db (Unit {0})
check_and_increment scope identifier limit window_seconds now db =
    let key = rate_key scope identifier in
    let start = window_start now window_seconds in
    let rows = upsert key start db.rate_limit_entries in
    let db' = record db { rate_limit_entries = rows } in
    if ltb limit (count_of (find_entry key start rows))
    then (err rate_limit_exceeded, db')
    else (ok tt, db')

unfoldable pub current_count : String → String → ℕ → ℕ → Db → ℕ
unfolding find_entry
current_count scope identifier window_seconds now db =
    count_of (
      find_entry (rate_key scope identifier) (window_start now window_seconds)
        db.rate_limit_entries)
