-- ===== src/Credit/Service.antt =====
-- src/core/services/CreditService.ts. Each reading of the clock is an argument. The costs are an
-- argument too, the table `FEATURE_COSTS` in the program: the file says that a change of the price
-- model replaces its calculators and nothing else. Logging is left out.
use graph_node_be.Common.{
  ℕ, ◌+◌, Bool, true, false, not, Option, none, some, List, [], ◌∷◌, String, ltb,
}
use graph_node_be.Common.Int.{ℤ, pos, ◌-ℤ◌, ltb_ℤ}
use graph_node_be.Billing.Types.{PlanType, free, CreditFeature}
use graph_node_be.Billing.Config.{
  CreditContext, CreditCostCalculator, plan_credit_limits, hold_expiry_ms, billing_cycle_days,
  days_ms,
}
use graph_node_be.Store.Rows.{CreditBalanceRow, CreditTransactionRow, UsageStatus}
use graph_node_be.Store.Effects.{
  Action, Error, insufficient_credit, upstream, pure, raise, raise_if, call, catch, ◌>>=◌, ◌>>◌,
}
use graph_node_be.Credit.Repository.{
  UsagePage, available, find_balance_by_user_id, create_balance, find_hold_by_task_id,
  create_usage_log, deduct_balance, hold_balance, commit_hold, rollback_hold, refund_balance,
  refill_balance, find_users_with_expired_cycle, find_expired_holds, find_usage_logs,
}

abbrev pub found_or_create : Option CreditBalanceRow → String → ℕ → Action CreditBalanceRow
found_or_create (some b) u now = pure b
found_or_create none u now =
    call
      (create_balance u (pos (plan_credit_limits free)) free now (now + days_ms billing_cycle_days))

unfoldable pub ensure_balance : String → ℕ → Action CreditBalanceRow
ensure_balance u now = do
  existing ← call (find_balance_by_user_id u)
  found_or_create existing u now

-- `if (err instanceof InsufficientCreditError) throw err; throw new UpstreamError(…)`
abbrev pub insufficient_or_upstream : {A : Type 0} → Error → Action A
insufficient_or_upstream (insufficient_credit required left) =
    raise (insufficient_credit required left)
insufficient_or_upstream _ = raise upstream

module _ (costs : CreditFeature → CreditCostCalculator) where
  abbrev pub cost_of : CreditFeature → Option CreditContext → ℤ
  cost_of feature context = pos ((costs feature).calculate context)

  unfoldable pub deduct : String → CreditFeature → Option CreditContext → ℕ → Action (Unit {0})
  deduct u feature context now =
      let cost = cost_of feature context in
      catch
        (do
          balance ← ensure_balance u now
          raise_if (ltb_ℤ (available balance) cost) (insufficient_credit cost (available balance))
          result ← call (deduct_balance u cost feature)
          raise_if (not result.success) (insufficient_credit cost result.available_after)
          call (create_usage_log u (some feature) none cost UsageStatus.success))
        insufficient_or_upstream

  -- `placed` is the reading for `expiresAt`, `now` that of `ensureBalance`.
  unfoldable pub hold :
      String → CreditFeature → String → Option CreditContext → (placed now : ℕ) → Action (Unit {0})
  hold u feature t context placed now =
      let cost = cost_of feature context in
      catch
        (do
          balance ← ensure_balance u now
          raise_if (ltb_ℤ (available balance) cost) (insufficient_credit cost (available balance))
          result ← call (hold_balance u cost feature t (placed + hold_expiry_ms))
          raise_if (not result.success) (insufficient_credit cost result.available_after))
        insufficient_or_upstream

abbrev pub ignore : {A : Type 0} → A → Error → Action A
ignore a e = pure a

abbrev pub log_hold :
    Option CreditTransactionRow
    → String
    → (CreditTransactionRow → ℤ)
    → UsageStatus
    → Action (Unit {0})
log_hold none t used status = pure tt
log_hold (some h) t used status =
    call (create_usage_log h.user_id h.feature (some t) (used h) status)

abbrev pub log_when : Bool → String → (CreditTransactionRow → ℤ) → UsageStatus → Action (Unit {0})
log_when false t used status = pure tt
log_when true t used status = do h ← call (find_hold_by_task_id t); log_hold h t used status

unfoldable pub commit_by_task_id : String → Action (Unit {0})
commit_by_task_id t =
    catch (do committed ← commit_hold t; log_when committed t (λ h. h.amount) UsageStatus.success)
      (ignore tt)

unfoldable pub rollback_by_task_id : String → Action (Unit {0})
rollback_by_task_id t =
    catch (do rolled ← rollback_hold t; log_when rolled t (λ h. pos 0) UsageStatus.failed)
      (ignore tt)

unfoldable pub refund : String → ℤ → Action (Unit {0})
refund u amount = catch (call (refund_balance u amount)) (ignore tt)

unfoldable pub refill : String → PlanType → ℕ → Action (Unit {0})
refill u plan now =
    catch
      (call (
        refill_balance u (pos (plan_credit_limits plan)) plan now
          (now + days_ms billing_cycle_days)))
      (λ e. raise upstream)

-- The loop of `refillAllActiveSubscribers`; `clock` has the reading of each refill.
unfoldable pub refill_each : List (String × PlanType) → (ℕ → ℕ) → Action (Unit {0})
refill_each [] clock = pure tt
refill_each ((u, plan) ∷ users) clock = do
  catch (refill u plan (clock 0)) (ignore tt)
  refill_each users (λ i. clock (i + 1))

unfoldable pub refill_all_active_subscribers : ℕ → (ℕ → ℕ) → Action (Unit {0})
refill_all_active_subscribers now clock = do
  expired ← call (find_users_with_expired_cycle now)
  refill_each expired clock

pub record CreditBalanceDto : Type 0 where
  pub user_id : String
  pub balance : ℤ
  pub hold_amount : ℤ
  pub available_balance : ℤ
  pub plan_type : PlanType
  pub cycle_start : ℕ
  pub cycle_end : ℕ

abbrev pub to_dto : CreditBalanceRow → CreditBalanceDto
to_dto b = record {
  user_id = b.user_id;
  balance = b.balance;
  hold_amount = b.hold_amount;
  available_balance = b.balance -ℤ b.hold_amount;
  plan_type = b.plan_type;
  cycle_start = b.cycle_start;
  cycle_end = b.cycle_end;
}

abbrev pub refreshed_or : Option CreditBalanceRow → CreditBalanceRow → CreditBalanceDto
refreshed_or none b = to_dto b
refreshed_or (some fresh) b = to_dto fresh

abbrev pub refill_if_due : Bool → CreditBalanceRow → String → ℕ → Action CreditBalanceDto
refill_if_due false b u now = pure (to_dto b)
refill_if_due true b u now = do
  catch (refill u b.plan_type now) (ignore tt)
  fresh ← call (find_balance_by_user_id u)
  pure (refreshed_or fresh b)

-- `created`, `checked` and `refilled` are the readings of `ensureBalance`, of the test and of
-- `refill`.
unfoldable pub get_balance : String → (created checked refilled : ℕ) → Action CreditBalanceDto
get_balance u created checked refilled = do
  balance ← ensure_balance u created
  refill_if_due (ltb balance.cycle_end checked) balance u refilled

-- `rollbackHold(hold.taskId!)`: `hold_balance` writes a task in every HOLD, so the null case is not
-- reached.
abbrev pub roll_back_task : Option String → Action Bool
roll_back_task none = pure false
roll_back_task (some t) = catch (rollback_hold t) (ignore false)

unfoldable pub expire_each : List CreditTransactionRow → Action (Unit {0})
expire_each [] = pure tt
expire_each (h ∷ hs) = do roll_back_task h.task_id; expire_each hs

unfoldable pub expire_stale_holds : ℕ → Action (Unit {0})
expire_stale_holds now = do expired ← call (find_expired_holds now); expire_each expired

unfoldable pub get_usage_logs : String → ℕ → ℕ → Action UsagePage
get_usage_logs u limit offset =
    catch (find_usage_logs u (some limit) (some offset)) (λ e. raise upstream)
