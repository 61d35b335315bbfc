-- ===== src/Billing/Types.antt =====
-- The enums of src/core/types/persistence/credit.persistence.ts, and those of prisma/schema.prisma
-- that src/core/types/persistence/subscription.persistence.ts passes on.
use graph_node_be.Common.{Bool, true, false}

pub data PlanType : Type 0 where
  free pro enterprise : PlanType

pub data CreditFeature : Type 0 where
  ai_chat graph_generation add_node microscope_ingest agent_chat : CreditFeature

pub data CreditTransactionType : Type 0 where
  refill deduct hold commit rollback refund : CreditTransactionType

abbrev pub is_hold : CreditTransactionType → Bool
is_hold hold = true
is_hold _ = false

-- `type: { in: [COMMIT, ROLLBACK] }`
abbrev pub is_settlement : CreditTransactionType → Bool
is_settlement commit = true
is_settlement rollback = true
is_settlement _ = false

abbrev pub plan_eq : PlanType → PlanType → Bool
plan_eq free free = true
plan_eq pro pro = true
plan_eq enterprise enterprise = true
plan_eq _ _ = false

pub data SubscriptionStatus : Type 0 where
  pending active canceled expired : SubscriptionStatus

pub data SubscriptionSource : Type 0 where
  payment admin_grant trial : SubscriptionSource

pub data BillingCycle : Type 0 where
  monthly yearly : BillingCycle

pub data PaymentStatus : Type 0 where
  pending success failed refunded : PaymentStatus

pub data PgProvider : Type 0 where
  portone toss stripe google apple : PgProvider

pub data WebhookEventStatus : Type 0 where
  received processed failed : WebhookEventStatus

pub data WebhookEventType : Type 0 where
  payment_completed payment_ready webhook_ignored subscription_renewed subscription_canceled
        payment_failed payment_refunded :
      WebhookEventType
