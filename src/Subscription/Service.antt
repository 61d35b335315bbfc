-- ===== src/Subscription/Service.antt =====
-- src/core/services/SubscriptionService.ts. Each reading of the clock and each id that the database
-- makes is an argument. `adapters` stands for `this.pgAdapters[pgProvider.toLowerCase()]`: the
-- `cancelSubscription` of a payment provider, which ends or throws and does not use the database.
use graph_node_be.Common.Text.{◌==◌}
use graph_node_be.Subscription.Repository.{create, find_active_by_user_id, update_status}
use graph_node_be.Billing.Config.{days_ms, billing_cycle_days}
use graph_node_be.Store.Rows.{SubscriptionRow}
use graph_node_be.Billing.Types.{
  SubscriptionSource, PlanType, free, plan_eq, BillingCycle, SubscriptionStatus,
}
use graph_node_be.Common.{if◌then◌else◌, get_or, ◌+◌, ℕ, Bool, false, Option, none, some, String}
use graph_node_be.Subscription.Tables.{StatusUpdate}
use graph_node_be.Credit.Service.{refill, ignore}
use graph_node_be.Store.Effects.{
  Result, Action, validation, conflict, not_found, raise_if, or_raise, pure, catch, ◌>>=◌, ◌>>◌,
}

-- `BILLING_CYCLE_DAYS` or 365 days, by the billing cycle.
abbrev pub duration_days : Option BillingCycle → ℕ
duration_days (some BillingCycle.yearly) = 365
duration_days _ = billing_cycle_days

abbrev pub free_subscription : String → String → ℕ → SubscriptionRow
free_subscription id u now = record {
  id = id;
  user_id = u;
  plan_type = free;
  status = SubscriptionStatus.active;
  source = SubscriptionSource.payment;
  billing_cycle = none;
  current_period_start = now;
  current_period_end = now + days_ms billing_cycle_days;
  granted_until = none;
  external_subscription_id = none;
  payment_method_id = none;
  canceled_at = none;
}

abbrev pub existing_or_free :
    Option SubscriptionRow → String → String → (now refilled : ℕ) → Action SubscriptionRow
existing_or_free (some s) id u now refilled = pure s
existing_or_free none id u now refilled = do
  subscription ← create (free_subscription id u now)
  refill u free refilled
  pure subscription

unfoldable pub create_free_subscription :
    String → String → (now refilled : ℕ) → Action SubscriptionRow
create_free_subscription id u now refilled = do
  existing ← find_active_by_user_id u
  existing_or_free existing id u now refilled

abbrev pub cancel_update : String → ℕ → StatusUpdate
cancel_update id at = record {
  id = id;
  status = SubscriptionStatus.canceled;
  canceled_at = some at;
  current_period_end = none;
}

-- `if (current) await updateStatus(… 'CANCELED' …)`
abbrev pub cancel_current : Option SubscriptionRow → ℕ → Action (Unit {0})
cancel_current none at = pure tt
cancel_current (some s) at = do update_status (cancel_update s.id at); pure tt

abbrev pub has_plan : Option SubscriptionRow → PlanType → Bool
has_plan none plan = false
has_plan (some s) plan = plan_eq s.plan_type plan

abbrev pub pending_subscription :
    String → String → PlanType → BillingCycle → String → Option String → ℕ → SubscriptionRow
pending_subscription id u plan cycle external method now = record {
  id = id;
  user_id = u;
  plan_type = plan;
  status = SubscriptionStatus.pending;
  source = SubscriptionSource.payment;
  billing_cycle = some cycle;
  current_period_start = now;
  current_period_end = now + days_ms (duration_days (some cycle));
  granted_until = none;
  external_subscription_id = some external;
  payment_method_id = method;
  canceled_at = none;
}

unfoldable pub upgrade_plan :
    String
    → String
    → PlanType
    → BillingCycle
    → String
    → Option String
    → (canceled now : ℕ) → Action SubscriptionRow
upgrade_plan id u plan cycle external method canceled now = do
  raise_if (plan_eq plan free) validation
  current ← find_active_by_user_id u
  raise_if (has_plan current plan) conflict
  cancel_current current canceled
  create (pending_subscription id u plan cycle external method now)

-- What a throw of the provider does: it is logged.
abbrev pub ask_provider : Option (String → Result (Unit {0})) → Option String → Action (Unit {0})
ask_provider (some cancel) (some external) = catch (λ w. (cancel external, w)) (ignore tt)
ask_provider _ _ = pure tt

-- The external id, where it is not empty and the subscription is paid.
abbrev pub paid_external_id : SubscriptionRow → Option String
paid_external_id s = elim s.source [
  | SubscriptionSource.payment ↦ elim s.external_subscription_id [
    | none ↦ none
    | some e ↦ if e == "" then none else some e
  ]
  | _ ↦ none
]

unfoldable pub cancel_subscription :
    (String → Option (String → Result (Unit {0}))) → String → String → ℕ → Action SubscriptionRow
cancel_subscription adapters u pg_provider canceled_at = do
  found ← find_active_by_user_id u
  current ← or_raise found not_found
  canceled ← update_status (cancel_update current.id canceled_at)
  ask_provider (adapters pg_provider) (paid_external_id current)
  pure canceled

abbrev pub granted_subscription : String → String → PlanType → Option ℕ → ℕ → SubscriptionRow
granted_subscription id u plan granted_until now = record {
  id = id;
  user_id = u;
  plan_type = plan;
  status = SubscriptionStatus.active;
  source = SubscriptionSource.admin_grant;
  billing_cycle = none;
  current_period_start = now;
  current_period_end = get_or granted_until (now + days_ms 365);
  granted_until = granted_until;
  external_subscription_id = none;
  payment_method_id = none;
  canceled_at = none;
}

-- `granted_by_admin_id` is only logged.
unfoldable pub grant_plan :
    String → String → PlanType → Option ℕ → (canceled now refilled : ℕ) → Action SubscriptionRow
grant_plan id u plan granted_until canceled now refilled = do
  current ← find_active_by_user_id u
  cancel_current current canceled
  granted ← create (granted_subscription id u plan granted_until now)
  refill u plan refilled
  pure granted
