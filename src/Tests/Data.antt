-- ===== src/Tests/Data.antt =====
-- Test data: a user with some credits, a subscription and a webhook of a payment.
use graph_node_be.Common.{Bool, Option, none, some, [], ◌∷◌}
use graph_node_be.Common.Int.{ℤ, pos}
use graph_node_be.Billing.Types.{
  free, pro, CreditFeature, CreditTransactionType, SubscriptionStatus, SubscriptionSource,
  PgProvider, WebhookEventType, WebhookEventStatus,
}
use graph_node_be.Billing.Config.{CreditCostCalculator, fixed_cost_calculator}
use graph_node_be.Store.Json.{Json, Fields}
use graph_node_be.Store.Rows.{
  CreditBalanceRow, CreditTransactionRow, SubscriptionRow, WebhookEventRow, Database,
}
use graph_node_be.Webhook.Processing.{Readings}
use graph_node_be.Webhook.Controller.{Request}

abbrev pub alice : CreditBalanceRow
alice = record {
  user_id = "alice";
  balance = pos 30;
  hold_amount = pos 0;
  plan_type = free;
  cycle_start = 0;
  cycle_end = 100;
}

abbrev pub hold_t1 : CreditTransactionRow
hold_t1 = record {
  user_id = "alice";
  type = CreditTransactionType.hold;
  feature = some CreditFeature.ai_chat;
  amount = pos 5;
  task_id = some "t1";
  expires_at = some 50;
}

abbrev pub empty_db : Database
empty_db = record {
  balances = [];
  transactions = [];
  usage_logs = [];
  subscriptions = [];
  payments = [];
  webhook_events = [];
  daily_usages = [];
}

abbrev pub alice_db : Database
alice_db = record empty_db { balances = alice ∷ [] }

-- The HOLD of task t1 is open.
abbrev pub held_db : Database
held_db = record empty_db {
  balances = record alice { hold_amount = pos 5 } ∷ [];
  transactions = hold_t1 ∷ [];
}

abbrev pub five_each : CreditFeature → CreditCostCalculator
five_each feature = fixed_cost_calculator 5

abbrev pub free_row : SubscriptionRow
free_row = record {
  id = "s1";
  user_id = "alice";
  plan_type = free;
  status = SubscriptionStatus.active;
  source = SubscriptionSource.payment;
  billing_cycle = none;
  current_period_start = 0;
  current_period_end = 100;
  granted_until = none;
  external_subscription_id = some "sub_1";
  payment_method_id = none;
  canceled_at = none;
}

abbrev pub pending_row : SubscriptionRow
pending_row = record free_row { id = "s2"; plan_type = pro; status = SubscriptionStatus.pending }

abbrev pub payload : Fields
payload = Fields.field "type" (Json.text "invoice.paid") (
    Fields.field "id" (Json.text "evt_1") (
      Fields.field "userId" (Json.text "alice")
        (Fields.field "amount" (Json.number (pos 9900)) Fields.end)))

abbrev pub paid_event : WebhookEventRow
paid_event = record {
  id = "e1";
  provider = PgProvider.stripe;
  event_type = WebhookEventType.payment_completed;
  idempotency_key = "STRIPE:invoice.paid:evt_1";
  raw_payload = payload;
  status = WebhookEventStatus.received;
  processed_at = none;
}

abbrev pub readings : Readings
readings = record {
  free_start = 60;
  refilled = 61;
  grace_from = 62;
  canceled_at = 63;
  processed_at = 64;
  new_id = "s3";
  new_key = "k3";
}

abbrev pub request : Request
request = record {
  provider_param = "stripe";
  configured = Bool.true;
  signed = Bool.true;
  body = some (Json.object payload);
  now_text = "60";
  new_id = "e1";
}

-- `Number` of what is no number, as NaN.
abbrev pub nan : Json → Option ℤ
nan v = none
