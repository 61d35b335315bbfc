-- ===== src/Subscription/Grants.antt =====
-- A plan that an administrator grants.
use graph_node_be.Credit.Repository.{refill_balance}
use graph_node_be.Subscription.Repository.{
  create, find_by_id, update_status, find_active_by_user_id,
}
use graph_node_be.Common.{
  ◌≡◌, ℕ, ◌+◌, Option, none, some, String, List, ◌∷◌, Option-cases, inl, inr,
}
use graph_node_be.Common.Int.{pos}
use graph_node_be.Common.Text.{eq_refl}
use graph_node_be.Billing.Types.{PlanType, SubscriptionStatus}
use graph_node_be.Billing.Config.{days_ms, billing_cycle_days, plan_credit_limits}
use graph_node_be.Store.Rows.{Database, SubscriptionRow, CreditBalanceRow}
use graph_node_be.Store.Effects.{ok}
use graph_node_be.Credit.Sweep.{calm}
use graph_node_be.Credit.Tables.{find_balance, find_balance-update_rows}
use graph_node_be.Credit.Service.{refill}
use graph_node_be.Subscription.Tables.{
  find_by_status, find_subscription, update_subscription, find_subscription-update_subscription,
}
use graph_node_be.Subscription.Service.{grant_plan, granted_subscription, cancel_update}

-- The subscriptions after the active one, if any, is canceled.
abbrev pub canceled_rows : Option SubscriptionRow → ℕ → List SubscriptionRow → List SubscriptionRow
canceled_rows none at rows = rows
canceled_rows (some s) at rows = update_subscription (cancel_update s.id at) rows

-- Where no database call fails, the user has a credit row, the new id is unused and the id of the
-- active subscription, if there is one, identifies its row: `grantPlan` cancels that subscription,
-- and the granted one is then the ACTIVE one, until `grantedUntil` or for 365 days. The credits are
-- those of the granted plan, for a cycle from the clock.
pub grant_plan-active :
    (id u : String) (plan : PlanType) (granted_until : Option ℕ) (canceled now refilled : ℕ)
    (d : Database) (b : CreditBalanceRow)
    → ((s : SubscriptionRow)
        → find_by_status SubscriptionStatus.active u d.subscriptions ≡ some s
        → find_subscription s.id d.subscriptions ≡ some s)
    → find_subscription id d.subscriptions ≡ none
    → find_balance u d.balances ≡ some b
    → let g = granted_subscription id u plan granted_until now in
      let current = find_by_status SubscriptionStatus.active u d.subscriptions in
      let (result, w) = grant_plan id u plan granted_until canceled now refilled (calm d) in
      (result ≡ ok g)
      × (w.db.subscriptions ≡ g ∷ canceled_rows current canceled d.subscriptions)
      × (find_by_status SubscriptionStatus.active u w.db.subscriptions ≡ some g)
      × (find_balance u w.db.balances
          ≡ some (record b {
            balance = pos (plan_credit_limits plan);
            hold_amount = pos 0;
            plan_type = plan;
            cycle_start = refilled;
            cycle_end = refilled + days_ms billing_cycle_days;
          }))
unfolding grant_plan find_active_by_user_id update_status find_by_id create refill refill_balance
    find_by_status
grant_plan-active id u plan granted_until canceled now refilled d b stored fresh found =
    elim (Option-cases (find_by_status SubscriptionStatus.active u d.subscriptions)) [
      | inl missing ↦ (
        simp (missing, fresh, found),
        simp (missing, fresh, found),
        simp (missing, fresh, found, eq_refl),
        simp (missing, fresh, found, find_balance-update_rows, eq_refl),
      )
      | inr (s, active) ↦
          let unused =
            find_subscription-update_subscription id (cancel_update s.id canceled) d.subscriptions
              fresh in
          (
            simp (active, stored s active, unused, found),
            simp (active, stored s active, unused, found),
            simp (active, stored s active, unused, found, eq_refl),
            simp (active, stored s active, unused, found, find_balance-update_rows, eq_refl),
          )
    ]
