-- ===== src/Webhook/Resolver.antt =====
-- src/infra/payment/webhookEventResolver.ts.
use graph_node_be.Common.{
  true, false, none, if◌then◌else◌, some, ◌or_else◌, Bool, Option, get_or, String, List, [], ◌∷◌,
}
use graph_node_be.Common.Text.{◌==◌}
use graph_node_be.Billing.Types.{
  PgProvider, WebhookEventType, payment_completed, payment_ready, webhook_ignored, payment_failed,
  payment_refunded, subscription_canceled,
}
use graph_node_be.Store.Json.{Json, Fields, get, get_in}

pub record WebhookResolution : Type 0 where
  pub event_type : WebhookEventType
  pub raw_type : String
  pub ignored : Bool

-- `TABLE[key] ?? null`
unfoldable pub lookup : String → List (String × WebhookEventType) → Option WebhookEventType
lookup key [] = none
lookup key ((k, t) ∷ rows) = if k == key then some t else lookup key rows

abbrev pub stripe_event_types : List (String × WebhookEventType)
stripe_event_types =
    ("checkout.session.completed", payment_completed)
    ∷ ("payment_intent.succeeded", payment_completed)
    ∷ ("charge.succeeded", payment_completed)
    ∷ ("invoice.paid", payment_completed)
    ∷ ("invoice.payment_succeeded", payment_completed)
    ∷ ("invoice.payment_failed", payment_failed)
    ∷ ("customer.subscription.deleted", subscription_canceled)
    ∷ ("customer.subscription.paused", subscription_canceled)
    ∷ ("charge.refunded", payment_refunded)
    ∷ ("charge.refund.updated", payment_refunded)
    ∷ ("refund.created", payment_refunded)
    ∷ ("refund.updated", payment_refunded)
    ∷ []

abbrev pub portone_v2_event_types : List (String × WebhookEventType)
portone_v2_event_types =
    ("Transaction.Ready", payment_ready)
    ∷ ("Transaction.VirtualAccountIssued", payment_ready)
    ∷ ("Transaction.PayPending", payment_ready)
    ∷ ("Transaction.Paid", payment_completed)
    ∷ ("Transaction.Failed", payment_failed)
    ∷ ("Transaction.PartialCancelled", payment_refunded)
    ∷ ("Transaction.Cancelled", payment_refunded)
    ∷ ("Transaction.CancelPending", payment_ready)
    ∷ ("BillingKey.Deleted", subscription_canceled)
    ∷ []

abbrev pub portone_status_types : List (String × WebhookEventType)
portone_status_types =
    ("ready", payment_ready)
    ∷ ("pending", payment_ready)
    ∷ ("virtual_account_issued", payment_ready)
    ∷ ("paid", payment_completed)
    ∷ ("failed", payment_failed)
    ∷ ("cancelled", payment_refunded)
    ∷ ("canceled", payment_refunded)
    ∷ ("partial_cancelled", payment_refunded)
    ∷ ("partial_canceled", payment_refunded)
    ∷ ("READY", payment_ready)
    ∷ ("PENDING", payment_ready)
    ∷ ("VIRTUAL_ACCOUNT_ISSUED", payment_ready)
    ∷ ("PAID", payment_completed)
    ∷ ("FAILED", payment_failed)
    ∷ ("CANCELLED", payment_refunded)
    ∷ ("CANCELED", payment_refunded)
    ∷ ("PARTIAL_CANCELLED", payment_refunded)
    ∷ ("PARTIAL_CANCELED", payment_refunded)
    ∷ []

abbrev pub toss_event_types : List (String × WebhookEventType)
toss_event_types =
    ("PAYMENT_STATUS_CHANGED", payment_completed)
    ∷ ("DONE", payment_completed)
    ∷ ("PAID", payment_completed)
    ∷ ("READY", payment_ready)
    ∷ ("IN_PROGRESS", payment_ready)
    ∷ ("WAITING_FOR_DEPOSIT", payment_ready)
    ∷ ("CANCELED", payment_refunded)
    ∷ ("PARTIAL_CANCELED", payment_refunded)
    ∷ ("ABORTED", payment_failed)
    ∷ ("EXPIRED", payment_failed)
    ∷ ("BILLING_KEY_DELETED", subscription_canceled)
    ∷ []

-- A text that is not empty.
abbrev pub string_value : Option Json → Option String
string_value (some (Json.text s)) = if s == "" then none else some s
string_value _ = none

-- `isRecord(v) ? v : null`
abbrev pub as_record : Option Json → Option Fields
as_record (some (Json.object fs)) = some fs
as_record _ = none

unfoldable pub extract_raw_type : PgProvider → Fields → String
extract_raw_type PgProvider.portone payload =
    let inner = as_record (get "data" payload) in
    get_or
      (string_value (get "type" payload)
        or_else string_value (get "status" payload)
        or_else string_value (get_in "paymentStatus" inner)
        or_else string_value (get_in "status" inner))
      ""
extract_raw_type PgProvider.toss payload =
    get_or
      (string_value (get "eventType" payload)
        or_else string_value (get "status" payload)
        or_else string_value (get "type" payload))
      ""
extract_raw_type _ payload = get_or (string_value (get "type" payload)) ""

abbrev pub known_type : PgProvider → String → Option WebhookEventType
known_type PgProvider.stripe raw_type = lookup raw_type stripe_event_types
known_type PgProvider.portone raw_type =
    lookup raw_type portone_v2_event_types or_else lookup raw_type portone_status_types
known_type PgProvider.toss raw_type = lookup raw_type toss_event_types
known_type _ raw_type = none

unfoldable pub resolve_known_event_type : PgProvider → String → Option WebhookEventType
resolve_known_event_type provider raw_type =
    if raw_type == "" then none else known_type provider raw_type

abbrev pub resolution : Option WebhookEventType → String → WebhookResolution
resolution (some t) raw_type = record { event_type = t; raw_type = raw_type; ignored = false }
resolution none raw_type = record {
  event_type = webhook_ignored;
  raw_type = raw_type;
  ignored = true;
}

-- `reason` is a message, and left out.
unfoldable pub resolve_webhook_event_type : PgProvider → Fields → WebhookResolution
resolve_webhook_event_type provider payload =
    let raw_type = extract_raw_type provider payload in
    resolution (resolve_known_event_type provider raw_type) raw_type
