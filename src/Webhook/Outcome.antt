-- ===== src/Webhook/Outcome.antt =====
-- How `process` ends, and what it does to the table of webhook events.
use graph_node_be.Credit.Tables.{find_balance}
use graph_node_be.Subscription.Tables.{find_event_by_id, update_event}
use graph_node_be.Subscription.Repository.{update_event_status}
use graph_node_be.Common.{
  ◌≡◌, refl, ◌∙◌, ◌⊎◌, inl, inr, ℕ, Option, none, some, String, List, Option-cases, Bool-cases,
}
use graph_node_be.Common.Int.{ℤ, pos}
use graph_node_be.Billing.Types.{WebhookEventStatus}
use graph_node_be.Billing.Config.{BillingOperationPolicy}
use graph_node_be.Store.Json.{Json}
use graph_node_be.Store.Rows.{Database, WebhookEventRow}
use graph_node_be.Store.Effects.{
  later, not_found, continue, database, catch, handle, Result, ok, err, Error, World, fails,
}
use graph_node_be.Store.Preserves.{catch-Preserves, call-Preserves, pure-Preserves, raise-Preserves}
use graph_node_be.Credit.Service.{ignore, refill, refund}
use graph_node_be.Credit.Repository.{refill_balance, refund_balance}
use graph_node_be.Webhook.Frame.{IsAside}
use graph_node_be.Webhook.Handlers.{dispatch-Keeps}
use graph_node_be.Webhook.Processing.{unless_processed, Readings, process, dispatch, run_event}

-- The table of webhook events is `es`.
abbrev pub EventsAre : List WebhookEventRow → Database → Type 0
EventsAre es d = d.webhook_events ≡ es

pub EventsAre-IsAside : (es : List WebhookEventRow) → IsAside (EventsAre es)
unfolding refill refund refill_balance refund_balance
EventsAre-IsAside es = record {
  subscriptions_aside = λ d rows h. h;
  payments_aside = λ d rows h. h;
  refill_keeps = λ u plan now.
      catch-Preserves _ _
        (call-Preserves (refill_balance u _ plan now _) (record {
          keeps = λ d h. elim (Option-cases (find_balance u d.balances)) [
            | inl missing ↦ rw missing h
            | inr (b, found) ↦ rw found h
          ];
        }))
        (λ e. raise-Preserves _);
  refund_keeps = λ u.
      catch-Preserves _ _
        (call-Preserves (refund_balance u (pos 0)) (record {
          keeps = λ d h. elim (Option-cases (find_balance u d.balances)) [
            | inl missing ↦ rw missing h
            | inr (b, found) ↦ rw found h
          ];
        }))
        (λ e. pure-Preserves tt);
}

-- The status of an event is written, or the call throws and the table is as it was.
update_event_cases :
    (id : String) (s : WebhookEventStatus) (at : Option ℕ) (w : World)
    → let (r, w') = update_event_status id s at w in
      ((r ≡ ok tt) × (w'.db.webhook_events ≡ update_event id s at w.db.webhook_events))
      ⊎ ((e : Error) × (r ≡ err e) × (w'.db.webhook_events ≡ w.db.webhook_events))
unfolding update_event_status
update_event_cases id s at w = elim (Bool-cases (fails w.faults)) [
  | inl down ↦ inr (database, simp down, simp down)
  | inr up ↦ elim (Option-cases (find_event_by_id id w.db.webhook_events)) [
    | inl missing ↦ inr (not_found, simp (up, missing), simp (up, missing))
    | inr (e, found) ↦ elim (Bool-cases (fails (later w.faults))) [
      | inl down ↦ inr (database, simp (up, found, down), simp (up, found, down))
      | inr still ↦ inl (simp (up, found, still), simp (up, found, still))
    ]
  ]
]

-- The ways the table of events may be after `process`, when it was `es` before.
pub data Marked (id : String) (at : ℕ) (es es' : List WebhookEventRow) : Type 0 where
  as_processed :
      es' ≡ update_event id WebhookEventStatus.processed (some at) es → Marked id at es es'
  as_failed : es' ≡ update_event id WebhookEventStatus.failed none es → Marked id at es es'
  unmarked : es' ≡ es → Marked id at es es'

-- The end of `process`, after the handler ended in `r` and `w`.
abbrev finish : String → ℕ → Result (Unit {0}) → World → Result (Unit {0}) × World
finish id at r w =
    handle (λ e. catch (update_event_status id WebhookEventStatus.failed none) (ignore tt))
      (continue (λ _. update_event_status id WebhookEventStatus.processed (some at)) (r, w))

abbrev Ends : String → ℕ → List WebhookEventRow → Result (Unit {0}) × World → Type 0
Ends id at es (r, w) = (r ≡ ok tt) × Marked id at es w.db.webhook_events

mark_failed :
    (id : String) (at : ℕ) (es : List WebhookEventRow) (w : World)
    → w.db.webhook_events ≡ es
    → Ends id at es (catch (update_event_status id WebhookEventStatus.failed none) (ignore tt) w)
mark_failed id at es w h = elim (update_event_cases id WebhookEventStatus.failed none w) [
  | inl (e, after) ↦ (rw e refl, as_failed (rw e (after ∙ rw h refl)))
  | inr (error, e, same) ↦ (rw e refl, unmarked (rw e (same ∙ h)))
]

finish-Ends :
    (id : String) (at : ℕ) (es : List WebhookEventRow) (r : Result (Unit {0})) (w : World)
    → w.db.webhook_events ≡ es
    → Ends id at es (finish id at r w)
finish-Ends id at es (ok _) w h =
    elim (update_event_cases id WebhookEventStatus.processed (some at) w) [
      | inl (e, after) ↦ (rw e refl, as_processed (rw e (after ∙ rw h refl)))
      | inr (error, e, same) ↦ rw e (mark_failed id at es _ (same ∙ h))
    ]
finish-Ends id at es (err e) w h = mark_failed id at es w h

module _ (convert : Json → Option ℤ) (policy : BillingOperationPolicy) where
  run_event-Ends :
      (event : WebhookEventRow) (r : Readings) (w : World)
      → Ends event.id r.processed_at w.db.webhook_events (run_event convert policy event r w)
  run_event-Ends event r w =
      let es = w.db.webhook_events in
      let (result, w') = dispatch convert policy event.event_type event r w in
      finish-Ends event.id r.processed_at es result w' (
        (dispatch-Keeps (EventsAre-IsAside es) convert policy event.event_type event r).keeps w
          refl)

  unless-Ends :
      (s : WebhookEventStatus) (event : WebhookEventRow) (r : Readings) (w : World)
      → Ends event.id r.processed_at w.db.webhook_events
          (unless_processed convert policy s (run_event convert policy event r) w)
  unless-Ends WebhookEventStatus.processed event r w = (refl, unmarked refl)
  unless-Ends WebhookEventStatus.received event r w = run_event-Ends event r w
  unless-Ends WebhookEventStatus.failed event r w = run_event-Ends event r w

  pub process_ends :
      (event : WebhookEventRow) (r : Readings) (w : World)
      → let (result, w') = process convert policy event r w in
        (result ≡ ok tt) × Marked event.id r.processed_at w.db.webhook_events w'.db.webhook_events
  unfolding process
  process_ends event r w = unless-Ends event.status event r w
