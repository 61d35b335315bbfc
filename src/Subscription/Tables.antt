-- ===== src/Subscription/Tables.antt =====
-- The queries of the tables of subscriptions, payments and webhook events. A table is newest first,
-- so `orderBy: { createdAt: 'desc' }` is the order of the list.
use graph_node_be.Billing.Types.{WebhookEventStatus, SubscriptionStatus, active, canceled, expired}
use graph_node_be.Store.Rows.{WebhookEventRow, SubscriptionRow, PaymentHistoryRow}
use graph_node_be.Common.{
  inr, arith, inl, Bool-cases, ◌≡◌, get_or, ◌or_else◌, if◌then◌else◌, ℕ, Bool, true, false, ◌&&◌,
  Option, none, some, List, [], ◌∷◌, String,
}
use graph_node_be.Common.Text.{◌==◌}

abbrev pub status_eq : SubscriptionStatus → SubscriptionStatus → Bool
status_eq SubscriptionStatus.pending SubscriptionStatus.pending = true
status_eq active active = true
status_eq canceled canceled = true
status_eq expired expired = true
status_eq _ _ = false

-- `findFirst({ where: { userId, status }, orderBy: { createdAt: 'desc' } })`
unfoldable pub find_by_status :
    SubscriptionStatus → String → List SubscriptionRow → Option SubscriptionRow
find_by_status s u [] = none
find_by_status s u (r ∷ rs) =
    if r.user_id == u && status_eq r.status s then some r else find_by_status s u rs

unfoldable pub subscriptions_of : String → List SubscriptionRow → List SubscriptionRow
subscriptions_of u [] = []
subscriptions_of u (r ∷ rs) =
    let rest = subscriptions_of u rs in if r.user_id == u then r ∷ rest else rest

-- `rows.find((s) => s.status === status)`
unfoldable pub first_with : SubscriptionStatus → List SubscriptionRow → Option SubscriptionRow
first_with s [] = none
first_with s (r ∷ rs) = if status_eq r.status s then some r else first_with s rs

unfoldable pub find_subscription : String → List SubscriptionRow → Option SubscriptionRow
find_subscription id [] = none
find_subscription id (r ∷ rs) = if r.id == id then some r else find_subscription id rs

-- What `updateStatus` writes: a missing or null date leaves the column alone.
pub record StatusUpdate : Type 0 where
  pub id : String
  pub status : SubscriptionStatus
  pub canceled_at : Option ℕ
  pub current_period_end : Option ℕ

abbrev pub set_status : StatusUpdate → SubscriptionRow → SubscriptionRow
set_status dto r = record r {
  status = dto.status;
  canceled_at = dto.canceled_at or_else r.canceled_at;
  current_period_end = get_or dto.current_period_end r.current_period_end;
}

unfoldable pub update_subscription : StatusUpdate → List SubscriptionRow → List SubscriptionRow
update_subscription dto [] = []
update_subscription dto (r ∷ rs) =
    if r.id == dto.id then set_status dto r ∷ rs else r ∷ update_subscription dto rs

unfoldable pub find_payment : String → List PaymentHistoryRow → Option PaymentHistoryRow
find_payment key [] = none
find_payment key (p ∷ ps) = if p.idempotency_key == key then some p else find_payment key ps

unfoldable pub find_event : String → List WebhookEventRow → Option WebhookEventRow
find_event key [] = none
find_event key (e ∷ es) = if e.idempotency_key == key then some e else find_event key es

unfoldable pub find_event_by_id : String → List WebhookEventRow → Option WebhookEventRow
find_event_by_id id [] = none
find_event_by_id id (e ∷ es) = if e.id == id then some e else find_event_by_id id es

-- `updateStatus` of a webhook event; no date leaves `processedAt` alone.
unfoldable pub update_event :
    String → WebhookEventStatus → Option ℕ → List WebhookEventRow → List WebhookEventRow
update_event id s at [] = []
update_event id s at (e ∷ es) =
    if e.id == id
    then record e { status = s; processed_at = at or_else e.processed_at } ∷ es
    else e ∷ update_event id s at es

-- An update makes no row.
pub find_subscription-update_subscription :
    (id : String) (dto : StatusUpdate) (rows : List SubscriptionRow)
    → find_subscription id rows ≡ none
    → find_subscription id (update_subscription dto rows) ≡ none
unfolding find_subscription update_subscription
find_subscription-update_subscription id dto [] h = h
find_subscription-update_subscription id dto (r ∷ rows) h = elim (Bool-cases (r.id == dto.id)) [
  | inl here ↦ elim (Bool-cases (r.id == id)) [ inl hit ↦ ground arith | inr miss ↦ ground arith ]
  | inr away ↦ elim (Bool-cases (r.id == id)) [
    | inl hit ↦ ground arith
    | inr miss ↦ simp (away, miss, find_subscription-update_subscription id dto rows (ground arith))
  ]
]
