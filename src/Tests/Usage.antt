-- ===== src/Tests/Usage.antt =====
-- The daily limit at a concrete input.
use graph_node_be.Usage.Repository.{find_usage}
use graph_node_be.Common.{◌≡◌, refl, [], ◌∷◌}
use graph_node_be.Store.Rows.{Database}
use graph_node_be.Store.Effects.{ok, err, rate_limited}
use graph_node_be.Credit.Sweep.{calm}
use graph_node_be.Usage.Service.{get_effective_count, check_limit, get_remaining_count}
use graph_node_be.Usage.Counting.{chats, daily_limit}
use graph_node_be.Tests.Data.{empty_db}

-- Three chats yesterday.
abbrev yesterday : Database
yesterday = record empty_db {
  daily_usages = record { user_id = "alice"; last_reset_date = 0; chat_count = 3 } ∷ [];
}

daily_limit_example :
    let (r, w) = chats "alice" (86400001 ∷ 86400002 ∷ []) (calm yesterday) in
    (r ≡ ok tt)
    × ((get_remaining_count 2 "alice" 86400003 w).0 ≡ ok 0)
    × ((check_limit 2 "alice" 86400003 w).0 ≡ err rate_limited)
unfolding find_usage get_effective_count
daily_limit_example =
    daily_limit 2 "alice" 86400003 (86400001 ∷ 86400002 ∷ []) yesterday (refl, (refl, tt))
