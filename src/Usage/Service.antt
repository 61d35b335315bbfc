-- ===== src/Usage/Service.antt =====
-- src/core/services/DailyUsageService.ts. `limit` is `DAILY_CHAT_LIMIT` of the environment, and
-- `now` the reading of the clock.
use graph_node_be.Common.{ℕ, ◌-◌, ◌*◌, ◌/◌, Option, none, some, String, leb, if◌then◌else◌}
use graph_node_be.Store.Rows.{DailyUsageRow}
use graph_node_be.Store.Effects.{
  Action, Error, rate_limited, upstream, pure, raise, raise_if, catch, ◌>>=◌,
}
use graph_node_be.Usage.Repository.{day_ms, is_same_utc_date, find_by_user, upsert_for_today}

abbrev pub get_today_utc : ℕ → ℕ
get_today_utc now = now / day_ms * day_ms

unfoldable pub get_effective_count : Option DailyUsageRow → ℕ → ℕ
get_effective_count none today = 0
get_effective_count (some r) today =
    if is_same_utc_date r.last_reset_date today then r.chat_count else 0

abbrev pub rate_limit_or_upstream : {A : Type 0} → Error → Action A
rate_limit_or_upstream rate_limited = raise rate_limited
rate_limit_or_upstream _ = raise upstream

module _ (limit : ℕ) where
  unfoldable pub check_limit : String → ℕ → Action (Unit {0})
  check_limit u now =
      catch
        (do
          current ← find_by_user u
          raise_if (leb limit (get_effective_count current (get_today_utc now))) rate_limited)
        rate_limit_or_upstream

  -- `Math.max(0, a - b)` is the subtraction of natural numbers.
  unfoldable pub get_remaining_count : String → ℕ → Action ℕ
  get_remaining_count u now =
      catch
        (do
          current ← find_by_user u
          pure (limit - get_effective_count current (get_today_utc now)))
        (λ e. raise upstream)

unfoldable pub increment_usage : String → ℕ → Action (Unit {0})
increment_usage u now = catch (upsert_for_today u (get_today_utc now)) (λ e. raise upstream)

abbrev pub if_from_today : Option DailyUsageRow → ℕ → Option DailyUsageRow
if_from_today none today = none
if_from_today (some r) today = if is_same_utc_date r.last_reset_date today then some r else none

unfoldable pub get_today_usage : String → ℕ → Action (Option DailyUsageRow)
get_today_usage u now =
    catch (do current ← find_by_user u; pure (if_from_today current (get_today_utc now)))
      (λ e. raise upstream)
