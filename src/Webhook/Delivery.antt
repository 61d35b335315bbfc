-- ===== src/Webhook/Delivery.antt =====
-- A webhook that a provider delivers more than once.
use graph_node_be.Subscription.Repository.{create_event, find_by_idempotency_key}
use graph_node_be.Common.{
  ◌∙◌, arith, inr, ◌or_else◌, inl, ◌≡◌, refl, ℕ, Bool, true, Option, none, some, String, List, [],
  ◌∷◌, Bool-cases,
}
use graph_node_be.Common.Int.{ℤ}
use graph_node_be.Common.Text.{◌==◌, eq_refl}
use graph_node_be.Billing.Types.{PgProvider, WebhookEventStatus}
use graph_node_be.Billing.Config.{BillingOperationPolicy}
use graph_node_be.Store.Json.{Json, Fields}
use graph_node_be.Store.Rows.{Database, WebhookEventRow}
use graph_node_be.Store.Effects.{ok, World}
use graph_node_be.Credit.Sweep.{calm}
use graph_node_be.Subscription.Tables.{find_event, update_event}
use graph_node_be.Webhook.Resolver.{resolve_webhook_event_type}
use graph_node_be.Webhook.Processing.{Readings, process}
use graph_node_be.Webhook.Controller.{
  accept, Request, duplicate, received, handle_webhook, key_candidate, new_event,
  resolve_idempotency_key, provider_map,
}
use graph_node_be.Webhook.Outcome.{Marked, as_processed, as_failed, unmarked, process_ends}

-- A status update leaves every key in the table.
find_event-update_event :
    (key id : String) (s : WebhookEventStatus) (at : Option ℕ) (es : List WebhookEventRow)
    (e : WebhookEventRow)
    → find_event key es ≡ some e
    → (e' : WebhookEventRow) × (find_event key (update_event id s at es) ≡ some e')
unfolding find_event update_event
find_event-update_event key id s at [] e h = (e, h)
find_event-update_event key id s at (x ∷ xs) e h = elim (Bool-cases (x.id == id)) [
  | inl here ↦ elim (Bool-cases (x.idempotency_key == key)) [
    | inl hit ↦
        (record x { status = s; processed_at = at or_else x.processed_at }, simp (here, hit))
    | inr miss ↦ (e, ground arith)
  ]
  | inr away ↦ elim (Bool-cases (x.idempotency_key == key)) [
    | inl hit ↦ (x, simp (away, hit))
    | inr miss ↦
        let (e', found) = find_event-update_event key id s at xs e (ground arith) in
        (e', simp (away, miss, found))
  ]
]

Marked-found :
    (key id : String) (at : ℕ) (es es' : List WebhookEventRow) (e : WebhookEventRow)
    → Marked id at es es'
    → find_event key es ≡ some e
    → (e' : WebhookEventRow) × (find_event key es' ≡ some e')
Marked-found key id at es es' e (as_processed same) h =
    rw same (find_event-update_event key id _ _ es e h)
Marked-found key id at es es' e (as_failed same) h =
    rw same (find_event-update_event key id _ _ es e h)
Marked-found key id at es es' e (unmarked same) h = (e, rw same h)

-- A request that passes the checks of the controller.
handled :
    (q : Request) (p : PgProvider) (payload : Fields) (w : World)
    → provider_map q.provider_param ≡ some p
    → q.configured ≡ true
    → q.signed ≡ true
    → q.body ≡ some (Json.object payload)
    → handle_webhook q w ≡ accept p payload q.now_text q.new_id w
unfolding handle_webhook
handled q p payload w known configured signed body = rw (known, configured, signed, body)

abbrev stored : WebhookEventRow → Database → Database
stored event d = record d { webhook_events = event ∷ d.webhook_events }

accept_fresh :
    (p : PgProvider) (payload : Fields) (now_text id : String) (d : Database)
    → let res = resolve_webhook_event_type p payload in
      let key = resolve_idempotency_key p payload res.raw_type now_text in
      let event = new_event p res key payload id in
      find_event key d.webhook_events ≡ none
      → accept p payload now_text id (calm d)
        ≡ (ok (received id res.ignored, some event), calm (stored event d))
unfolding accept find_by_idempotency_key create_event
accept_fresh p payload now_text id d fresh = simp fresh

accept_again :
    (p : PgProvider) (payload : Fields) (now_text id : String) (d : Database) (e : WebhookEventRow)
    → find_event
        (resolve_idempotency_key p payload (resolve_webhook_event_type p payload).raw_type now_text)
        d.webhook_events
      ≡ some e
    → accept p payload now_text id (calm d) ≡ (ok (duplicate, none), calm d)
unfolding accept find_by_idempotency_key
accept_again p payload now_text id d e again = simp again

key_timeless :
    (p : PgProvider) (payload : Fields) (raw_type k t t' : String)
    → key_candidate payload ≡ some k
    → resolve_idempotency_key p payload raw_type t ≡ resolve_idempotency_key p payload raw_type t'
unfolding resolve_idempotency_key
key_timeless p payload raw_type k t t' named = rw named refl

module _ (convert : Json → Option ℤ) (policy : BillingOperationPolicy) where
  -- A signed webhook whose payload names a transaction, and whose key is not yet in the table, is
  -- stored as a new event. However the processing of that event ends, and whichever of its calls
  -- fail, the same webhook delivered again is answered as a duplicate, changes nothing and schedules
  -- nothing: an event is processed once, and one that FAILED is never tried again.
  pub redeliver :
      (q : Request) (p : PgProvider) (payload : Fields) (k now_text id : String) (d : Database)
      (fs : List Bool) (r : Readings)
      → provider_map q.provider_param ≡ some p
      → q.configured ≡ true
      → q.signed ≡ true
      → q.body ≡ some (Json.object payload)
      → key_candidate payload ≡ some k
      → let res = resolve_webhook_event_type p payload in
        let key = resolve_idempotency_key p payload res.raw_type q.now_text in
        let event = new_event p res key payload q.new_id in
        find_event key d.webhook_events ≡ none
        → let (first, w1) = handle_webhook q (calm d) in
          let w2 = (process convert policy event r (record { db = w1.db; faults = fs })).1 in
          let (second, w3) =
            handle_webhook (record q { now_text = now_text; new_id = id }) (calm w2.db) in
          (first ≡ ok (received q.new_id res.ignored, some event))
          × (second ≡ ok (duplicate, none))
          × (w3.db ≡ w2.db)
  unfolding find_event
  redeliver q p payload k now_text id d fs r known configured signed body named fresh =
      let res = resolve_webhook_event_type p payload in
      let key = resolve_idempotency_key p payload res.raw_type q.now_text in
      let event = new_event p res key payload q.new_id in
      let d' = stored event d in
      let whole1 =
        handled q p payload (calm d) known configured signed body
        ∙ accept_fresh p payload q.now_text q.new_id d fresh in
      let w2 = (process convert policy event r (record { db = d'; faults = fs })).1 in
      let q' = record q { now_text = now_text; new_id = id } in
      let marked = (process_ends convert policy event r (record { db = d'; faults = fs })).1 in
      let (e', still) =
        Marked-found key event.id r.processed_at _ _ event marked (rw (eq_refl key) refl) in
      let whole2 =
        handled q' p payload (calm w2.db) known configured signed body
        ∙ accept_again p payload now_text id w2.db e'
            (rw (key_timeless p payload res.raw_type k now_text q.now_text named) still) in
      rw whole1 (refl, rw whole2 refl, rw whole2 refl)
