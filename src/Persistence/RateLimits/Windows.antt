-- ===== src/Persistence/RateLimits/Windows.antt =====
-- What the limiter counts, and which requests of a window it lets through.
use vpn_control_panel.Prelude.{
  ℕ, ◌+◌, String, Bool, true, false, ◌≡◌, refl, List, [], ◌∷◌, ◌=ˢ◌, ◌==◌, eq_iff, eq_refl, arith,
  Option-cases, inl, inr, if◌then◌else◌, ltb, find?, find?-append, find?-modify_self,
  find?-modify_ne, ok, err, Result, Bool-cases, ap, ==_iff, ◌-◌, ◌&&◌,
}
use Prim.Native.Nat.{min}
use Prim.Native.String.{◌++◌ as ◌<>◌}
use text.Mathlib.TextLemmas.{append_cancel_left}
use vpn_control_panel.Persistence.Models.{Db, RateLimitEntryModel}
use vpn_control_panel.Persistence.RateLimits.{
  is_entry, window_start, rate_key, find_entry, count_of, upsert, check_and_increment, bump,
}

pub find_entry-upsert_self :
    (key : String) (start : ℕ) (rows : List RateLimitEntryModel)
    → count_of (find_entry key start (upsert key start rows))
      ≡ count_of (find_entry key start rows) + 1
unfolding upsert find_entry
find_entry-upsert_self key start rows = elim (Option-cases (find? (is_entry key start) rows)) [
  | inl new ↦ ground (
    arith,
    eq_refl key,
    find?-append (is_entry key start) rows
        (record { key = key; window_start = start; count = 1 } ∷ []),
  )
  | inr (e, old) ↦ ground (arith, find?-modify_self (is_entry key start) bump rows (λ x h. h) e old)
]

find_entry-upsert_ne :
    (key key' : String) (start start' : ℕ) (rows : List RateLimitEntryModel)
    → (key ≡ key' → start ≡ start' → ⊥)
    → find_entry key' start' (upsert key start rows) ≡ find_entry key' start' rows
unfolding upsert find_entry
find_entry-upsert_ne key key' start start' rows apart =
    elim (Option-cases (find? (is_entry key start) rows)) [
      | inl new ↦ ground (
        arith,
        eq_iff key key',
        apart,
        find?-append (is_entry key' start') rows
            (record { key = key; window_start = start; count = 1 } ∷ []),
      )
      | inr (e, old) ↦ ground (
        arith,
        find?-modify_ne (is_entry key start) (is_entry key' start') bump rows
            (λ x h. ground (arith, eq_iff x.key key, eq_iff x.key key', apart)),
      )
    ]

rate_key_injective : (scope i j : String) → rate_key scope i ≡ rate_key scope j → i ≡ j
rate_key_injective scope i j h =
    append_cancel_left ":" i j (append_cancel_left scope (":" <> i) (":" <> j) h)

-- A request: who asks, and when.
abbrev Request : Type 0
Request = String × ℕ

module _ (scope : String) (limit window_seconds : ℕ) (who : String) (start : ℕ) where
  abbrev is_of : Request → Bool
  is_of (i, now) = i =ˢ who && window_start now window_seconds == start

  abbrev passes : Result (Unit {0}) → ℕ
  passes (ok _) = 1
  passes (err _) = 0

  abbrev pub requests_of : List Request → ℕ
  requests_of [] = 0
  requests_of (r ∷ rs) = (if is_of r then 1 else 0) + requests_of rs

  -- How many of the requests of `who` in the window pass, when all are served in turn.
  pub passed : List Request → Db → ℕ
  passed [] db = 0
  passed (r ∷ rs) db =
      let served = check_and_increment scope r.0 limit window_seconds r.1 db in
      (if is_of r then passes served.0 else 0) + passed rs served.1

  abbrev pub counted : Db → ℕ
  counted db = count_of (find_entry (rate_key scope who) start db.rate_limit_entries)

  module _ (r : Request) (db : Db) where
    abbrev its_key : String
    its_key = rate_key scope r.0

    abbrev its_start : ℕ
    its_start = window_start r.1 window_seconds

    entries_after :
        (check_and_increment scope r.0 limit window_seconds r.1 db).1.rate_limit_entries
        ≡ upsert its_key its_start db.rate_limit_entries
    unfolding check_and_increment
    entries_after = ground arith

    result_after : passes (check_and_increment scope r.0 limit window_seconds r.1 db).0 ≡ (
        if ltb limit (count_of (find_entry its_key its_start db.rate_limit_entries) + 1)
        then 0
        else 1)
    unfolding check_and_increment
    result_after = ground (arith, find_entry-upsert_self its_key its_start db.rate_limit_entries)

    counted_of :
        is_of r ≡ true
        → (counted (check_and_increment scope r.0 limit window_seconds r.1 db).1 ≡ counted db + 1)
          × (passes (check_and_increment scope r.0 limit window_seconds r.1 db).0
              ≡ (if ltb limit (counted db + 1) then 0 else 1))
    counted_of h =
        let who_is : r.0 ≡ who = ground (arith, eq_iff r.0 who) in
        let start_is : its_start ≡ start = ground arith in
        let key_is : its_key ≡ rate_key scope who = ap (rate_key scope) who_is in
        (
          rw entries_after (
              rw (← key_is)
                (rw (← start_is) (find_entry-upsert_self its_key its_start db.rate_limit_entries))),
          rw result_after (rw key_is (rw start_is refl)),
        )

    counted_ne :
        is_of r ≡ false
        → counted (check_and_increment scope r.0 limit window_seconds r.1 db).1 ≡ counted db
    counted_ne h = rw entries_after (
        ap count_of (
          find_entry-upsert_ne its_key (rate_key scope who) its_start start db.rate_limit_entries
            λ k s. ground (
              arith,
              rate_key_injective scope r.0 who k,
              eq_iff r.0 who,
              ==_iff its_start start,
              s,
            )))

  abbrev after : Request → Db → Db
  after r db = (check_and_increment scope r.0 limit window_seconds r.1 db).1

  -- Of any requests, of anyone and at any times, exactly so many of one client's requests in one
  -- window pass as the limit leaves open: the smaller of their number and of the limit less what
  -- the window has counted already.
  pub passed-eq-min :
      (rs : List Request) (db : Db) → passed rs db ≡ min (requests_of rs) (limit - counted db)
  unfolding passed
  passed-eq-min [] db = omega arith
  passed-eq-min (r ∷ rs) db = elim (Bool-cases (is_of r)) [
    | inl e ↦
        let (counts, result) = counted_of r db e in
        ground (arith, counts, result, passed-eq-min rs (after r db))
    | inr e ↦ ground (arith, counted_ne r db e, passed-eq-min rs (after r db))
  ]
