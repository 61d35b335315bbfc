-- ===== src/Tests/Subscription.antt =====
-- The theorems on subscriptions at concrete inputs.
use graph_node_be.Billing.Config.{billing_cycle_days, days_ms, plan_credit_limits}
use graph_node_be.Common.Int.{pos}
use graph_node_be.Billing.Types.{pro}
use graph_node_be.Subscription.Service.{grant_plan, granted_subscription}
use graph_node_be.Subscription.Grants.{grant_plan-active, canceled_rows}
use graph_node_be.Tests.Data.{alice, alice_db}
use graph_node_be.Credit.Tables.{find_balance}
use graph_node_be.Subscription.Tables.{find_subscription, update_subscription, find_by_status}
use graph_node_be.Common.{◌+◌, none, ◌∙◌, sym, get_or, ap, Option, ◌≡◌, refl, some, String, [], ◌∷◌}
use graph_node_be.Store.Effects.{Result, ok, err, upstream}
use graph_node_be.Store.Rows.{Database, SubscriptionRow}
use graph_node_be.Billing.Types.{SubscriptionStatus}
use graph_node_be.Credit.Sweep.{calm}
use graph_node_be.Subscription.Service.{
  cancel_subscription, cancel_update, create_free_subscription, free_subscription,
}
use graph_node_be.Subscription.Lifecycle.{
  cancel_subscription-outcome, create_free_subscription-unfunded,
}
use graph_node_be.Tests.Data.{free_row, empty_db}

-- A provider that refuses every cancellation.
abbrev down : String → Option (String → Result (Unit {0}))
down provider = some (λ external. err upstream)

abbrev subscribed : Database
subscribed = record empty_db { subscriptions = free_row ∷ [] }

ids :
    (s : SubscriptionRow)
    → find_by_status SubscriptionStatus.active "alice" subscribed.subscriptions ≡ some s
    → find_subscription s.id subscribed.subscriptions ≡ some s
unfolding find_by_status find_subscription
ids s e = ap (λ o. find_subscription (get_or o free_row).id subscribed.subscriptions) (sym e) ∙ e

cancel_subscription-outcome_example :
    cancel_subscription down "alice" "stripe" 70 (calm subscribed) ≡ (
      ok (record free_row { status = SubscriptionStatus.canceled; canceled_at = some 70 }),
      calm (record subscribed {
        subscriptions = update_subscription (cancel_update "s1" 70) (free_row ∷ []);
      }),
    )
unfolding find_by_status
cancel_subscription-outcome_example =
    cancel_subscription-outcome down "alice" "stripe" 70 subscribed ids

create_free_subscription-unfunded_example :
    let s = free_subscription "s1" "bob" 5 in
    let d = record empty_db { subscriptions = s ∷ [] } in
    (create_free_subscription "s1" "bob" 5 6 (calm empty_db) ≡ (err upstream, calm d))
    × (create_free_subscription "s2" "bob" 7 8 (calm d) ≡ (ok s, calm d))
unfolding find_by_status find_subscription find_balance
create_free_subscription-unfunded_example =
    create_free_subscription-unfunded "s1" "bob" 5 6 7 8 "s2" empty_db refl refl refl

abbrev funded : Database
funded = record alice_db { subscriptions = free_row ∷ [] }

funded_ids :
    (s : SubscriptionRow)
    → find_by_status SubscriptionStatus.active "alice" funded.subscriptions ≡ some s
    → find_subscription s.id funded.subscriptions ≡ some s
unfolding find_by_status find_subscription
funded_ids s e = ap (λ o. find_subscription (get_or o free_row).id funded.subscriptions) (sym e) ∙ e

abbrev gift : SubscriptionRow
gift = granted_subscription "s9" "alice" pro none 51

grant_plan-active_example :
    let (result, w) = grant_plan "s9" "alice" pro none 50 51 52 (calm funded) in
    (result ≡ ok gift)
    × (w.db.subscriptions ≡ gift ∷ canceled_rows (some free_row) 50 (free_row ∷ []))
    × (find_by_status SubscriptionStatus.active "alice" w.db.subscriptions ≡ some gift)
    × (find_balance "alice" w.db.balances
        ≡ some (record alice {
          balance = pos (plan_credit_limits pro);
          plan_type = pro;
          cycle_start = 52;
          cycle_end = 52 + days_ms billing_cycle_days;
        }))
unfolding find_by_status find_subscription find_balance
grant_plan-active_example =
    grant_plan-active "s9" "alice" pro none 50 51 52 funded alice funded_ids refl refl
