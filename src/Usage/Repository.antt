-- ===== src/Usage/Repository.antt =====
-- src/infra/repositories/DailyUsageRepositoryPrisma.ts, and the entity `DailyUsage`. A date is a
-- number of milliseconds; two dates have the same UTC year, month and day of the month when they
-- fall into the same period of 24 hours since the epoch.
use graph_node_be.Common.{
  ℕ, ◌+◌, ◌/◌, Bool, Option, none, some, List, [], ◌∷◌, String, if◌then◌else◌, nat_eq,
}
use graph_node_be.Common.Text.{◌==◌}
use graph_node_be.Store.Rows.{DailyUsageRow}
use graph_node_be.Store.Effects.{Tx, Action, call, gets, modify, raise, database, ◌>>=◌}

abbrev pub day_ms : ℕ
day_ms = 86400000

abbrev pub is_same_utc_date : ℕ → ℕ → Bool
is_same_utc_date a b = nat_eq (a / day_ms) (b / day_ms)

unfoldable pub find_usage : String → List DailyUsageRow → Option DailyUsageRow
find_usage u [] = none
find_usage u (r ∷ rs) = if r.user_id == u then some r else find_usage u rs

unfoldable pub find_by_user : String → Action (Option DailyUsageRow)
find_by_user u = call (gets (λ d. find_usage u d.daily_usages))

-- What the update writes: `increment` adds to the count that the row has by then.
abbrev pub counted : ℕ → Bool → DailyUsageRow → DailyUsageRow
counted today same_day r = record r {
  last_reset_date = today;
  chat_count = if same_day then r.chat_count + 1 else 1;
}

unfoldable pub update_usage : String → ℕ → Bool → List DailyUsageRow → List DailyUsageRow
update_usage u today same_day [] = []
update_usage u today same_day (r ∷ rs) =
    if r.user_id == u then counted today same_day r ∷ rs else r ∷ update_usage u today same_day rs

-- `userId` is unique.
abbrev pub insert_usage : Option DailyUsageRow → DailyUsageRow → Tx (Unit {0})
insert_usage (some other) r = raise database
insert_usage none r = modify (λ d. record d { daily_usages = r ∷ d.daily_usages })

-- An update of a row that is gone throws.
abbrev pub update_if_found : Option DailyUsageRow → String → ℕ → Bool → Tx (Unit {0})
update_if_found none u today same_day = raise database
update_if_found (some r) u today same_day =
    modify (λ d. record d { daily_usages = update_usage u today same_day d.daily_usages })

abbrev pub upsert_found : Option DailyUsageRow → String → ℕ → Action (Unit {0})
upsert_found none u today = call (λ d.
    insert_usage (find_usage u d.daily_usages)
      (record { user_id = u; last_reset_date = today; chat_count = 1 }) d)
upsert_found (some e) u today = call (λ d.
    update_if_found (find_usage u d.daily_usages) u today (is_same_utc_date e.last_reset_date today)
      d)

-- The row that it returns is not used.
unfoldable pub upsert_for_today : String → ℕ → Action (Unit {0})
upsert_for_today u today = do existing ← find_by_user u; upsert_found existing u today
