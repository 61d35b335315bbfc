-- ===== src/Subscription/Repository.antt =====
-- src/infra/repositories/SubscriptionRepository.ts, PaymentHistoryRepository.ts and
-- WebhookEventRepository.ts. Each statement is a call of its own, and a row's generated id is an
-- argument.
use graph_node_be.Billing.Types.{SubscriptionStatus, WebhookEventStatus}
use graph_node_be.Store.Rows.{WebhookEventRow, SubscriptionRow, PaymentHistoryRow}
use graph_node_be.Common.{ℕ, Option, none, some, List, ◌∷◌, String}
use graph_node_be.Store.Effects.{
  or_raise, Action, Tx, call, gets, modify, pure, raise, ◌>>=◌, ◌>>◌, not_found, database,
}
use graph_node_be.Subscription.Tables.{
  update_event, set_status, find_event_by_id, update_subscription, find_payment, find_subscription,
  find_by_status, find_event, subscriptions_of, StatusUpdate,
}

unfoldable pub find_active_by_user_id : String → Action (Option SubscriptionRow)
find_active_by_user_id u =
    call (gets (λ d. find_by_status SubscriptionStatus.active u d.subscriptions))

unfoldable pub find_pending_by_user_id : String → Action (Option SubscriptionRow)
find_pending_by_user_id u =
    call (gets (λ d. find_by_status SubscriptionStatus.pending u d.subscriptions))

unfoldable pub find_by_id : String → Action (Option SubscriptionRow)
find_by_id id = call (gets (λ d. find_subscription id d.subscriptions))

unfoldable pub find_by_user_id : String → Action (List SubscriptionRow)
find_by_user_id u = call (gets (λ d. subscriptions_of u d.subscriptions))

-- An insert; the primary key is unique.
abbrev pub insert_subscription : Option SubscriptionRow → SubscriptionRow → Tx SubscriptionRow
insert_subscription (some other) r d = raise database d
insert_subscription none r d = pure r (record d { subscriptions = r ∷ d.subscriptions })

abbrev pub create_tx : SubscriptionRow → Tx SubscriptionRow
create_tx r d = insert_subscription (find_subscription r.id d.subscriptions) r d

unfoldable pub create : SubscriptionRow → Action SubscriptionRow
create r = call (create_tx r)

-- The update answers with the row as it then is, and throws where the row is gone.
abbrev pub status_tx : StatusUpdate → Tx SubscriptionRow
status_tx dto = do
  row ← gets (λ d. find_subscription dto.id d.subscriptions)
  old ← or_raise row database
  modify (λ d. record d { subscriptions = update_subscription dto d.subscriptions })
  pure (set_status dto old)

unfoldable pub update_status : StatusUpdate → Action SubscriptionRow
unfolding find_by_id
update_status dto = do
  existing ← find_by_id dto.id
  or_raise existing not_found
  call (status_tx dto)

-- `idempotencyKey` is unique in `payment_histories`.
abbrev pub insert_payment : Option PaymentHistoryRow → PaymentHistoryRow → Tx (Unit {0})
insert_payment (some other) p = raise database
insert_payment none p = modify (λ d. record d { payments = p ∷ d.payments })

abbrev pub payment_tx : PaymentHistoryRow → Tx (Unit {0})
payment_tx p d = insert_payment (find_payment p.idempotency_key d.payments) p d

unfoldable pub create_payment : PaymentHistoryRow → Action (Unit {0})
create_payment p = call (payment_tx p)

-- `idempotencyKey` is unique in `webhook_events` too.
abbrev pub insert_event : Option WebhookEventRow → WebhookEventRow → Tx WebhookEventRow
insert_event (some other) e d = raise database d
insert_event none e d = pure e (record d { webhook_events = e ∷ d.webhook_events })

unfoldable pub create_event : WebhookEventRow → Action WebhookEventRow
create_event e = call (λ d. insert_event (find_event e.idempotency_key d.webhook_events) e d)

unfoldable pub find_by_idempotency_key : String → Action (Option WebhookEventRow)
find_by_idempotency_key key = call (gets (λ d. find_event key d.webhook_events))

unfoldable pub update_event_status : String → WebhookEventStatus → Option ℕ → Action (Unit {0})
update_event_status id s at = do
  existing ← call (gets (λ d. find_event_by_id id d.webhook_events))
  or_raise existing not_found
  call (modify (λ d. record d { webhook_events = update_event id s at d.webhook_events }))
