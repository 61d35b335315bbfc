-- ===== src/Webhook/Frame.antt =====
-- What the handlers of WebhookProcessingService leave alone: a property of the database that does
-- not read the subscriptions and the payments, and that a refill keeps, survives every handler.
use graph_node_be.Webhook.Payload.{
  data_object_of, second, data_of, before, or_compute, user_of, split_with, extract_user_id,
}
use graph_node_be.Common.{◌or_else◌, Option-cases, inl, inr}
use graph_node_be.Credit.Service.{refill, refund}
use graph_node_be.Subscription.Repository.{
  insert_subscription, insert_payment, status_tx, find_by_id, find_active_by_user_id,
  find_pending_by_user_id, find_by_user_id, create, create_payment, update_status,
}
use graph_node_be.Subscription.Tables.{
  subscriptions_of, find_by_status, find_subscription, StatusUpdate,
}
use graph_node_be.Common.{Option, none, some, String, ℕ, Bool, List}
use graph_node_be.Common.Int.{pos}
use graph_node_be.Billing.Types.{free, PlanType, SubscriptionStatus}
use graph_node_be.Store.Json.{as_object, get, get_in, Fields, Json}
use graph_node_be.Store.Rows.{Database, SubscriptionRow, PaymentHistoryRow, WebhookEventRow}
use graph_node_be.Store.Effects.{
  database, type_error, pure, not_found, Error, roll_back, Action, or_raise,
}
use graph_node_be.Store.Preserves.{
  gets-Preserves, Preserves, Commits, pure-Preserves, raise-Preserves, bind-Preserves,
  then-Preserves, call-Preserves,
}
use graph_node_be.Webhook.Processing.{
  existing_or_create, create_free, downgrade, first_or_scan, Readings, for_user,
}

-- The laws of such a property.
pub record IsAside (I : Database → Type 0) : Type 0 where
  pub subscriptions_aside :
      (d : Database) (rows : List SubscriptionRow) → I d → I (record d { subscriptions = rows })
  pub payments_aside :
      (d : Database) (rows : List PaymentHistoryRow) → I d → I (record d { payments = rows })
  pub refill_keeps : (u : String) (plan : PlanType) (now : ℕ) → Preserves I (refill u plan now)
  pub refund_keeps : (u : String) → Preserves I (refund u (pos 0))

module _ {I : Database → Type 0} (aside : IsAside I) where
  pub find_active-Keeps : (u : String) → Preserves I (find_active_by_user_id u)
  unfolding find_active_by_user_id
  find_active-Keeps u =
      gets-Preserves (λ d. find_by_status SubscriptionStatus.active u d.subscriptions)

  pub find_pending-Keeps : (u : String) → Preserves I (find_pending_by_user_id u)
  unfolding find_pending_by_user_id
  find_pending-Keeps u =
      gets-Preserves (λ d. find_by_status SubscriptionStatus.pending u d.subscriptions)

  pub find_all-Keeps : (u : String) → Preserves I (find_by_user_id u)
  unfolding find_by_user_id
  find_all-Keeps u = gets-Preserves (λ d. subscriptions_of u d.subscriptions)

  insert_keeps :
      (o : Option SubscriptionRow) (s : SubscriptionRow) (d : Database)
      → I d
      → I (roll_back d (insert_subscription o s d)).1
  insert_keeps none s d i = aside.subscriptions_aside d _ i
  insert_keeps (some other) s d i = i

  pub create-Keeps : (s : SubscriptionRow) → Preserves I (create s)
  unfolding create
  create-Keeps s = call-Preserves _ (record { keeps = λ d i. insert_keeps _ s d i })

  insert_payment_keeps :
      (o : Option PaymentHistoryRow) (p : PaymentHistoryRow) (d : Database)
      → I d
      → I (roll_back d (insert_payment o p d)).1
  insert_payment_keeps none p d i = aside.payments_aside d _ i
  insert_payment_keeps (some other) p d i = i

  pub create_payment-Keeps : (p : PaymentHistoryRow) → Preserves I (create_payment p)
  unfolding create_payment
  create_payment-Keeps p = call-Preserves _ (record { keeps = λ d i. insert_payment_keeps _ p d i })

  pub or_raise-Keeps : {A : Type 0} (o : Option A) (e : Error) → Preserves I (or_raise o e)
  or_raise-Keeps none e = raise-Preserves e
  or_raise-Keeps (some a) e = pure-Preserves a

  status_keeps : (dto : StatusUpdate) → Commits I (status_tx dto)
  status_keeps dto = record {
    keeps = λ d i. elim (Option-cases (find_subscription dto.id d.subscriptions)) [
      | inl missing ↦ rw missing i
      | inr (s, found) ↦ rw found (aside.subscriptions_aside d _ i)
    ];
  }

  pub update_status-Keeps : (dto : StatusUpdate) → Preserves I (update_status dto)
  unfolding update_status find_by_id
  update_status-Keeps dto =
      bind-Preserves (find_by_id dto.id) _
        (gets-Preserves (λ d. find_subscription dto.id d.subscriptions))
        (λ o.
          then-Preserves (or_raise o not_found) _ (or_raise-Keeps o not_found)
            (call-Preserves (status_tx dto) (status_keeps dto)))

  pub first_or_scan-Keeps :
      (s : SubscriptionStatus) (o : Option SubscriptionRow) (u : String)
      → Preserves I (first_or_scan s o u)
  first_or_scan-Keeps s none u =
      bind-Preserves (find_by_user_id u) _ (find_all-Keeps u) (λ rows. pure-Preserves _)
  first_or_scan-Keeps s (some row) u = pure-Preserves _

  pub existing_or_create-Keeps :
      (o : Option SubscriptionRow) (u : String) (r : Readings)
      → Preserves I (existing_or_create o u r)
  existing_or_create-Keeps none u r = create-Keeps _
  existing_or_create-Keeps (some s) u r = pure-Preserves s

  pub create_free-Keeps : (u : String) (r : Readings) → Preserves I (create_free u r)
  unfolding create_free
  create_free-Keeps u r =
      bind-Preserves (find_active_by_user_id u) _ (find_active-Keeps u)
        (λ o. existing_or_create-Keeps o u r)

  pub downgrade-Keeps : (u : String) (r : Readings) → Preserves I (downgrade u r)
  downgrade-Keeps u r =
      then-Preserves (create_free u r) (refill u free r.refilled) (create_free-Keeps u r)
        (aside.refill_keeps u free r.refilled)

  pub or_compute-Keeps :
      (o : Option Json) (m : Action (Option Json)) → Preserves I m → Preserves I (or_compute o m)
  or_compute-Keeps none m keeps = keeps
  or_compute-Keeps (some v) m keeps = pure-Preserves _

  pub split_with-Keeps :
      (part : String → Option String) (o : Option Json) → Preserves I (split_with part o)
  split_with-Keeps part none = pure-Preserves none
  split_with-Keeps part (some (Json.text s)) = pure-Preserves _
  split_with-Keeps part (some _) = raise-Preserves type_error

  pub extract-Keeps : (payload : Fields) → Preserves I (extract_user_id payload)
  unfolding extract_user_id
  extract-Keeps payload =
      let customer = λ (s : String). some (before "_" s) in
      let paid = get_in "paymentId" (data_of payload) in
      or_compute-Keeps (get "userId" payload) _ (
        bind-Preserves (split_with customer (get "customer_uid" payload)) _
          (split_with-Keeps customer (get "customer_uid" payload))
          (λ first.
            or_compute-Keeps
              (first
                or_else get_in "userId" (as_object (get "metadata" payload))
                or_else get_in "userId" (data_of payload))
              _
              (bind-Preserves (split_with (second "-") paid) _ (split_with-Keeps (second "-") paid)
                (λ o. pure-Preserves (
                  o
                  or_else get_in "userId"
                      (as_object (get_in "metadata" (data_object_of payload))))))))

  pub user_of-Keeps : (o : Option Json) → Preserves I (user_of o)
  user_of-Keeps none = pure-Preserves none
  user_of-Keeps (some (Json.text s)) = pure-Preserves _
  user_of-Keeps (some (Json.boolean Bool.false)) = pure-Preserves none
  user_of-Keeps (some (Json.number (pos ℕ.zero))) = pure-Preserves none
  user_of-Keeps (some _) = raise-Preserves database

  pub handle_user-Keeps :
      (o : Option String) (k : String → Action (Unit {0}))
      → ((u : String) → Preserves I (k u))
      → Preserves I (elim o [ none ↦ pure tt | some u ↦ k u ])
  handle_user-Keeps none k keeps = pure-Preserves tt
  handle_user-Keeps (some u) k keeps = keeps u

  pub for_user-Keeps :
      (event : WebhookEventRow) (k : String → Action (Unit {0}))
      → ((u : String) → Preserves I (k u))
      → Preserves I (for_user event k)
  for_user-Keeps event k keeps =
      bind-Preserves (extract_user_id event.raw_payload) _ (extract-Keeps event.raw_payload)
        (λ value.
          bind-Preserves (user_of value) _ (user_of-Keeps value)
            (λ found. handle_user-Keeps found k keeps))
