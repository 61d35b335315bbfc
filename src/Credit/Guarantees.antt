-- ===== src/Credit/Guarantees.antt =====
-- The methods of the credit service keep the invariant of the credit tables whichever of their
-- database calls fail.
use graph_node_be.Common.{
  ◌+◌, ℕ, Bool, true, false, Option, none, some, List, [], ◌∷◌, String, arith,
}
use graph_node_be.Common.Int.{ℤ, pos, ◌≤ℤ◌}
use graph_node_be.Billing.Types.{CreditFeature}
use graph_node_be.Billing.Config.{
  hold_expiry_ms, CreditContext, CreditCostCalculator, plan_credit_limits,
}
use graph_node_be.Store.Rows.{CreditBalanceRow, CreditTransactionRow, Database, UsageStatus}
use graph_node_be.Store.Effects.{raise_if, World, call}
use graph_node_be.Store.Preserves.{
  call-Ensures, after-Ensures, bind-Ensures, catch-Ensures, Ensures, raise_if-Preserves,
  then-Preserves, bind-Preserves, Preserves, catch-Preserves, call-Preserves, pure-Preserves,
}
use graph_node_be.Credit.Workers.{committing, rolling_back}
use graph_node_be.Credit.Repository.{
  hold_balance, commit_hold, rollback_hold, deduct_balance, refund_balance, create_usage_log,
  find_balance_by_user_id, create_balance, find_expired_holds, find_hold_by_task_id,
}
use graph_node_be.Credit.Service.{
  hold, roll_back_task, log_hold, log_when, ignore, found_or_create, ensure_balance, deduct,
  commit_by_task_id, rollback_by_task_id, refund, expire_each, expire_stale_holds,
  insufficient_or_upstream, cost_of,
}
use graph_node_be.Credit.Invariant.{IsConsistent}
use graph_node_be.Credit.Invariant.Transactions.{
  hold_balance-IsConsistent, IsFresh, create_balance-IsConsistent, deduct_balance-IsConsistent,
  refund_balance-IsConsistent,
}
use graph_node_be.Credit.Faults.{
  log-Commits, ensure_balance-Preserves, settle_hold-Preserves, handler-Preserves,
}

module _ (costs : CreditFeature → CreditCostCalculator) where
  deduct-Preserves :
      (u : String) (feature : CreditFeature) (context : Option CreditContext) (now : ℕ)
      → Preserves IsConsistent (deduct costs u feature context now)
  unfolding deduct
  deduct-Preserves u feature context now =
      let cost = cost_of costs feature context in
      catch-Preserves _ insufficient_or_upstream
        (bind-Preserves (ensure_balance u now) _ (ensure_balance-Preserves u now) (λ b.
          then-Preserves (raise_if _ _) _ (raise_if-Preserves _ _) (
            bind-Preserves (call (deduct_balance u cost feature)) _
              (call-Preserves (deduct_balance u cost feature)
                (record { keeps = deduct_balance-IsConsistent u cost feature }))
              (λ o.
                then-Preserves (raise_if _ _) _ (raise_if-Preserves _ _)
                  (call-Preserves _ (log-Commits u (some feature) none cost _))))))
        handler-Preserves

log_hold-Preserves :
    (o : Option CreditTransactionRow) (t : String) (used : CreditTransactionRow → ℤ)
    (status : UsageStatus)
    → Preserves IsConsistent (log_hold o t used status)
log_hold-Preserves none t used status = pure-Preserves tt
log_hold-Preserves (some h) t used status =
    call-Preserves (create_usage_log h.user_id h.feature (some t) (used h) status)
      (log-Commits h.user_id h.feature (some t) (used h) status)

log_when-Preserves :
    (b : Bool) (t : String) (used : CreditTransactionRow → ℤ) (status : UsageStatus)
    → Preserves IsConsistent (log_when b t used status)
unfolding find_hold_by_task_id
log_when-Preserves false t used status = pure-Preserves tt
log_when-Preserves true t used status =
    bind-Preserves (call (find_hold_by_task_id t)) (λ o. log_hold o t used status)
      (call-Preserves (find_hold_by_task_id t) (record { keeps = λ d c. c }))
      (λ o. log_hold-Preserves o t used status)

commit_by_task_id-Preserves : (t : String) → Preserves IsConsistent (commit_by_task_id t)
unfolding commit_by_task_id
commit_by_task_id-Preserves t =
    catch-Preserves _ (ignore tt)
      (bind-Preserves (commit_hold t) _ (settle_hold-Preserves committing t)
        (λ b. log_when-Preserves b t _ _))
      (λ e. pure-Preserves tt)

rollback_by_task_id-Preserves : (t : String) → Preserves IsConsistent (rollback_by_task_id t)
unfolding rollback_by_task_id
rollback_by_task_id-Preserves t =
    catch-Preserves _ (ignore tt)
      (bind-Preserves (rollback_hold t) _ (settle_hold-Preserves rolling_back t)
        (λ b. log_when-Preserves b t _ _))
      (λ e. pure-Preserves tt)

refund-Preserves :
    (u : String) (amount : ℤ) → pos 0 ≤ℤ amount → Preserves IsConsistent (refund u amount)
unfolding refund
refund-Preserves u amount nonneg =
    catch-Preserves (call (refund_balance u amount)) (ignore tt)
      (call-Preserves (refund_balance u amount)
        (record { keeps = λ d c. refund_balance-IsConsistent u amount d c nonneg }))
      (λ e. pure-Preserves tt)

roll_back_task-Preserves : (o : Option String) → Preserves IsConsistent (roll_back_task o)
roll_back_task-Preserves none = pure-Preserves false
roll_back_task-Preserves (some t) =
    catch-Preserves (rollback_hold t) (ignore false) (settle_hold-Preserves rolling_back t)
      (λ e. pure-Preserves false)

expire_each-Preserves : (hs : List CreditTransactionRow) → Preserves IsConsistent (expire_each hs)
unfolding expire_each
expire_each-Preserves [] = pure-Preserves tt
expire_each-Preserves (h ∷ hs) =
    then-Preserves (roll_back_task h.task_id) (expire_each hs) (roll_back_task-Preserves h.task_id)
      (expire_each-Preserves hs)

expire_stale_holds-Preserves : (now : ℕ) → Preserves IsConsistent (expire_stale_holds now)
unfolding expire_stale_holds find_expired_holds
expire_stale_holds-Preserves now =
    bind-Preserves (call (find_expired_holds now)) expire_each
      (call-Preserves (find_expired_holds now) (record { keeps = λ d c. c })) expire_each-Preserves

-- The invariant with a task that is new to the ledger.
abbrev IsReady : String → Database → Type 0
IsReady t d = IsConsistent d × IsFresh t d

found_or_create-IsReady :
    (t : String) (o : Option CreditBalanceRow) (u : String) (now : ℕ)
    → Preserves (IsReady t) (found_or_create o u now)
unfolding plan_credit_limits create_balance
found_or_create-IsReady t (some b) u now = pure-Preserves b
found_or_create-IsReady t none u now = call-Preserves _ (record {
  keeps = λ d c. (create_balance-IsConsistent u _ _ _ _ d c.0 (omega arith), ground arith);
})

module _ (costs : CreditFeature → CreditCostCalculator) where
  hold-Ensures :
      (u : String) (feature : CreditFeature) (t : String) (context : Option CreditContext)
      (placed now : ℕ)
      → Ensures (IsReady t) IsConsistent (hold costs u feature t context placed now)
  unfolding hold ensure_balance find_balance_by_user_id
  hold-Ensures u feature t context placed now =
      let cost = cost_of costs feature context in
      let drop_task = λ (d : Database) (c : IsReady t d). c.0 in
      catch-Ensures _ insufficient_or_upstream
        (bind-Ensures (ensure_balance u now) _ drop_task
          (bind-Preserves (call (find_balance_by_user_id u)) _
            (call-Preserves (find_balance_by_user_id u) (record { keeps = λ d c. c }))
            (λ o. found_or_create-IsReady t o u now))
          (λ b. bind-Ensures (raise_if _ _) _ drop_task (raise_if-Preserves _ _) (λ _.
            after-Ensures (call (hold_balance u cost feature t (placed + hold_expiry_ms))) _
              (call-Ensures _ drop_task
                (λ d c. hold_balance-IsConsistent u cost feature t _ d c.0 c.1 (omega arith)))
              (λ o. raise_if-Preserves _ _))))
        handler-Preserves

  -- Whichever of their database calls fail, and however they end, the methods of the service keep
  -- the invariant: `deduct`, `hold` for a task that is new to the ledger, `commitByTaskId`,
  -- `rollbackByTaskId`, `refund` of an amount that is not negative, and `expireStaleHolds`.
  pub service-IsConsistent :
      (u t : String) (feature : CreditFeature) (context : Option CreditContext) (amount : ℤ)
      (placed now : ℕ) (w : World)
      → IsConsistent w.db
      → IsFresh t w.db
      → pos 0 ≤ℤ amount
      → IsConsistent (deduct costs u feature context now w).1.db
        × IsConsistent (hold costs u feature t context placed now w).1.db
        × IsConsistent (commit_by_task_id t w).1.db
        × IsConsistent (rollback_by_task_id t w).1.db
        × IsConsistent (refund u amount w).1.db
        × IsConsistent (expire_stale_holds now w).1.db
  service-IsConsistent u t feature context amount placed now w c fresh nonneg = (
    (deduct-Preserves costs u feature context now).keeps w c,
    (hold-Ensures u feature t context placed now).keeps w (c, fresh),
    (commit_by_task_id-Preserves t).keeps w c,
    (rollback_by_task_id-Preserves t).keeps w c,
    (refund-Preserves u amount nonneg).keeps w c,
    (expire_stale_holds-Preserves now).keeps w c,
  )
