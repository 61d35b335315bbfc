-- ===== src/Store/Rows.antt =====
-- The tables of the billing services (prisma/schema.prisma, and the row types of
-- src/core/types/persistence). A table is a list of rows, newest first. Left out are the columns
-- that are written and never read: the ids of the credit and usage tables, `description`, `metadata`,
-- `createdAt`, `updatedAt`, and a payment's currency, receipt and external id. A
-- date is a number of milliseconds; the columns keep whole seconds, so that among rows made within
-- one second the database may take another for the newest than the list does. The amount of a payment
-- is any integer; the insert of one that is no 32-bit integer would throw.
use graph_node_be.Common.{ℕ, Option, String, List}
use graph_node_be.Common.Int.{ℤ}
use graph_node_be.Billing.Types.{
  PlanType, CreditFeature, CreditTransactionType, SubscriptionStatus, SubscriptionSource,
  BillingCycle, PaymentStatus, PgProvider, WebhookEventStatus, WebhookEventType,
}
use graph_node_be.Store.Json.{Fields}

pub record CreditBalanceRow : Type 0 where
  pub user_id : String
  pub balance : ℤ
  pub hold_amount : ℤ
  pub plan_type : PlanType
  pub cycle_start : ℕ
  pub cycle_end : ℕ

pub record CreditTransactionRow : Type 0 where
  pub user_id : String
  pub type : CreditTransactionType
  pub feature : Option CreditFeature
  pub amount : ℤ
  pub task_id : Option String
  pub expires_at : Option ℕ

pub data UsageStatus : Type 0 where
  success failed : UsageStatus

pub record UsageLogRow : Type 0 where
  pub user_id : String
  pub feature : Option CreditFeature
  pub task_id : Option String
  pub credit_used : ℤ
  pub status : UsageStatus

pub record SubscriptionRow : Type 0 where
  pub id : String
  pub user_id : String
  pub plan_type : PlanType
  pub status : SubscriptionStatus
  pub source : SubscriptionSource
  pub billing_cycle : Option BillingCycle
  pub current_period_start : ℕ
  pub current_period_end : ℕ
  pub granted_until : Option ℕ
  pub external_subscription_id : Option String
  pub payment_method_id : Option String
  pub canceled_at : Option ℕ

pub record PaymentHistoryRow : Type 0 where
  pub user_id : String
  pub subscription_id : String
  pub amount : ℤ
  pub status : PaymentStatus
  pub pg_provider : PgProvider
  pub idempotency_key : String

pub record WebhookEventRow : Type 0 where
  pub id : String
  pub provider : PgProvider
  pub event_type : WebhookEventType
  pub idempotency_key : String
  pub raw_payload : Fields
  pub status : WebhookEventStatus
  pub processed_at : Option ℕ

pub record DailyUsageRow : Type 0 where
  pub user_id : String
  pub last_reset_date : ℕ
  pub chat_count : ℕ

pub record Database : Type 0 where
  pub balances : List CreditBalanceRow
  pub transactions : List CreditTransactionRow
  pub usage_logs : List UsageLogRow
  pub subscriptions : List SubscriptionRow
  pub payments : List PaymentHistoryRow
  pub webhook_events : List WebhookEventRow
  pub daily_usages : List DailyUsageRow
