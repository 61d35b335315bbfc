-- ===== src/Billing/Config.antt =====
-- src/config/billing.config.ts: costs, plan limits, prices and the operation policy.
-- `TokenBasedCostCalculator` is a stub that nothing uses, and computes with floating point: it is
-- left out. Durations are in milliseconds.
use graph_node_be.Common.{ℕ, ◌+◌, ◌*◌, ◌/◌, ◌-◌, Bool, true, Option}
use graph_node_be.Common.{String}
use graph_node_be.Billing.Types.{
  PlanType, free, pro, enterprise, CreditFeature, ai_chat, graph_generation, add_node,
  microscope_ingest, agent_chat,
}

-- Every field is optional in the source.
pub record CreditContext : Type 0 where
  pub message_length : Option ℕ
  pub attachment_count : Option ℕ
  pub has_web_search : Option Bool
  pub has_image_gen : Option Bool
  pub model_name : Option String
  pub node_count : Option ℕ
  pub agent_mode : Option String
  pub tool_call_count : Option ℕ

-- The interface: a cost is a natural number of credits.
pub record CreditCostCalculator : Type 0 where
  pub calculate : Option CreditContext → ℕ

abbrev pub fixed_cost_calculator : ℕ → CreditCostCalculator
fixed_cost_calculator credits = record { calculate = λ _. credits }

abbrev pub ai_chat_cost : ℕ
ai_chat_cost = 0

abbrev pub graph_generation_cost : ℕ
graph_generation_cost = 0

abbrev pub add_node_cost : ℕ
add_node_cost = 0

abbrev pub microscope_ingest_cost : ℕ
microscope_ingest_cost = 0

abbrev pub agent_chat_cost : ℕ
agent_chat_cost = 0

unfoldable pub feature_costs : CreditFeature → CreditCostCalculator
feature_costs ai_chat = fixed_cost_calculator ai_chat_cost
feature_costs graph_generation = fixed_cost_calculator graph_generation_cost
feature_costs add_node = fixed_cost_calculator add_node_cost
feature_costs microscope_ingest = fixed_cost_calculator microscope_ingest_cost
feature_costs agent_chat = fixed_cost_calculator agent_chat_cost

unfoldable pub plan_credit_limits : PlanType → ℕ
plan_credit_limits free = 30
plan_credit_limits pro = 500
plan_credit_limits enterprise = 9999

abbrev pub hold_expiry_ms : ℕ
hold_expiry_ms = 2 * 60 * 60 * 1000

abbrev pub billing_cycle_days : ℕ
billing_cycle_days = 30

-- `d * 24 * 60 * 60 * 1000`, as it is written at each use
abbrev pub days_ms : ℕ → ℕ
days_ms d = d * 24 * 60 * 60 * 1000

pub data Cancellation : Type 0 where
  immediate period_end : Cancellation

-- `keep_credits` is 'NONE'.
pub data CreditClawback : Type 0 where
  keep_credits refund_period_credits all_granted_credits : CreditClawback

pub data GrantOn : Type 0 where
  payment_confirmed subscription_active : GrantOn

pub record BillingOperationPolicy : Type 0 where
  pub retry_max_attempts : ℕ
  pub retry_interval_hours : ℕ
  pub grace_enabled : Bool
  pub grace_days : ℕ
  pub cancellation_effective : Cancellation
  pub refund_allow_partial : Bool
  pub refund_credit_clawback : CreditClawback
  pub credit_grant_on : GrantOn
  pub recovery_downgrade_plan : PlanType
  pub recovery_downgrade_after_failed_attempts : Bool

abbrev pub default_billing_operation_policy : BillingOperationPolicy
default_billing_operation_policy = record {
  retry_max_attempts = 3;
  retry_interval_hours = 24;
  grace_enabled = true;
  grace_days = 7;
  cancellation_effective = period_end;
  refund_allow_partial = true;
  refund_credit_clawback = refund_period_credits;
  credit_grant_on = payment_confirmed;
  recovery_downgrade_plan = free;
  recovery_downgrade_after_failed_attempts = true;
}

pub record PlanPrice : Type 0 where
  pub monthly : ℕ
  pub yearly : ℕ

unfoldable pub get_plan_price : PlanType → PlanPrice
get_plan_price free = record { monthly = 0; yearly = 0 }
get_plan_price pro = record { monthly = 9900; yearly = 95040 }
get_plan_price enterprise = record { monthly = 0; yearly = 0 }

-- The discount rate 0.20 in percent. `Math.round` of the exact product is rounding half up.
abbrev pub yearly_discount_percent : ℕ
yearly_discount_percent = 20

unfoldable pub calc_yearly_amount : PlanType → ℕ
unfolding get_plan_price
calc_yearly_amount plan =
    ((get_plan_price plan).monthly * 12 * (100 - yearly_discount_percent) + 50) / 100
