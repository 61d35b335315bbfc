-- ===== src/Webhook/Credits.antt =====
-- The credit tables under the processing of webhooks.
use graph_node_be.Store.Effects.{World}
use graph_node_be.Subscription.Tables.{update_event}
use graph_node_be.Credit.Ledger.Rows.{outstanding_neutral}
use graph_node_be.Subscription.Tables.{find_event_by_id}
use graph_node_be.Store.Effects.{modify, not_found, or_raise, gets, call, Action}
use graph_node_be.Subscription.Repository.{update_event_status}
use graph_node_be.Credit.Tables.{find_balance}
use graph_node_be.Credit.Invariant.Transactions.{
  refund_balance-IsConsistent, refill_balance-IsConsistent,
}
use graph_node_be.Common.{
  ◌∙◌, arith, Option, ◌≡◌, refl, ℕ, Option-cases, inl, inr, none, some, String,
}
use graph_node_be.Common.Int.{ℤ, pos}
use graph_node_be.Billing.Types.{WebhookEventStatus}
use graph_node_be.Billing.Config.{BillingOperationPolicy, plan_credit_limits}
use graph_node_be.Store.Json.{Json}
use graph_node_be.Store.Rows.{Database, WebhookEventRow}
use graph_node_be.Store.Preserves.{
  gets-Preserves, bind-Preserves, then-Preserves, Preserves, catch-Preserves, call-Preserves,
  pure-Preserves, raise-Preserves,
}
use graph_node_be.Credit.Invariant.{IsConsistent}
use graph_node_be.Credit.Ledger.{outstanding}
use graph_node_be.Credit.Service.{refill, refund}
use graph_node_be.Credit.Repository.{refill_balance, refund_balance}
use graph_node_be.Webhook.Frame.{or_raise-Keeps, IsAside}
use graph_node_be.Webhook.Handlers.{dispatch-Keeps}
use graph_node_be.Webhook.Processing.{unless_processed, dispatch, Readings, process}

-- The credit tables are consistent, and no HOLD is open.
pub record IsSettled (d : Database) : Type 0 where
  pub consistent : IsConsistent d
  pub idle : (u : String) → outstanding u d.transactions ≡ pos 0

IsSettled-IsAside : IsAside IsSettled
unfolding refill refund refill_balance refund_balance plan_credit_limits
IsSettled-IsAside = record {
  subscriptions_aside = λ d rows h. record {
    consistent = record { ledger = h.consistent.ledger; balanced = h.consistent.balanced };
    idle = h.idle;
  };
  payments_aside = λ d rows h. record {
    consistent = record { ledger = h.consistent.ledger; balanced = h.consistent.balanced };
    idle = h.idle;
  };
  refill_keeps = λ u plan now.
      catch-Preserves _ _
        (call-Preserves (refill_balance u _ plan now _) (record {
          keeps = λ d h. record {
            consistent =
                refill_balance-IsConsistent u _ plan now _ d h.consistent (h.idle u) (omega arith);
            idle = λ v. elim (Option-cases (find_balance u d.balances)) [
              | inl missing ↦ rw missing (h.idle v)
              | inr (b, found) ↦
                  rw found (outstanding_neutral _ d.transactions v refl refl ∙ h.idle v)
            ];
          };
        }))
        (λ e. raise-Preserves _);
  refund_keeps = λ u.
      catch-Preserves _ _
        (call-Preserves (refund_balance u (pos 0)) (record {
          keeps = λ d h. record {
            consistent = refund_balance-IsConsistent u (pos 0) d h.consistent (omega arith);
            idle = λ v. elim (Option-cases (find_balance u d.balances)) [
              | inl missing ↦ rw missing (h.idle v)
              | inr (b, found) ↦
                  rw found (outstanding_neutral _ d.transactions v refl refl ∙ h.idle v)
            ];
          };
        }))
        (λ e. pure-Preserves tt);
}

module _ (convert : Json → Option ℤ) (policy : BillingOperationPolicy) where
  status-IsSettled :
      (id : String) (s : WebhookEventStatus) (at : Option ℕ)
      → Preserves IsSettled (update_event_status id s at)
  unfolding update_event_status
  status-IsSettled id s at =
      bind-Preserves (call (gets (λ d. find_event_by_id id d.webhook_events))) _
        (gets-Preserves (λ d. find_event_by_id id d.webhook_events))
        (λ o.
          then-Preserves (or_raise o not_found) _ (or_raise-Keeps IsSettled-IsAside o not_found) (
            call-Preserves
              (modify (λ d. record d { webhook_events = update_event id s at d.webhook_events }))
              (record {
                keeps = λ d h. record {
                  consistent = record {
                    ledger = h.consistent.ledger;
                    balanced = h.consistent.balanced;
                  };
                  idle = h.idle;
                };
              })))

  unless-IsSettled :
      (s : WebhookEventStatus) (m : Action (Unit {0}))
      → Preserves IsSettled m
      → Preserves IsSettled (unless_processed convert policy s m)
  unless-IsSettled WebhookEventStatus.processed m keeps = pure-Preserves tt
  unless-IsSettled WebhookEventStatus.received m keeps = keeps
  unless-IsSettled WebhookEventStatus.failed m keeps = keeps

  process-Preserves :
      (event : WebhookEventRow) (r : Readings)
      → Preserves IsSettled (process convert policy event r)
  unfolding process
  process-Preserves event r = unless-IsSettled event.status _ (
      catch-Preserves _ _
        (then-Preserves (dispatch convert policy event.event_type event r) _
          (dispatch-Keeps IsSettled-IsAside convert policy event.event_type event r)
          (status-IsSettled event.id WebhookEventStatus.processed (some r.processed_at)))
        (λ e.
          catch-Preserves _ _ (status-IsSettled event.id WebhookEventStatus.failed none)
            (λ e'. pure-Preserves tt)))

  -- Where the credit tables are consistent and no HOLD is open, every webhook event leaves them so,
  -- whatever its payload holds and whichever database calls fail.
  pub process-IsSettled :
      (event : WebhookEventRow) (r : Readings) (w : World)
      → IsSettled w.db
      → IsSettled (process convert policy event r w).1.db
  process-IsSettled event r w h = (process-Preserves event r).keeps w h
