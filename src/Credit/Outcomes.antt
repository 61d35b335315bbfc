-- ===== src/Credit/Outcomes.antt =====
-- How `CreditService.deduct` can end, with database calls that may fail.
use graph_node_be.Credit.Tables.{update_rows, find_balance}
use graph_node_be.Store.Effects.{
  later, upstream, insufficient_credit, err, fails, World, ok, Result,
}
use graph_node_be.Common.{
  Bool, List, ◌∷◌, refl, true, false, inr, inl, Bool-cases, none, some, ◌≡◌, ℕ, Option,
}
use graph_node_be.Store.Rows.{UsageStatus, Database, CreditBalanceRow}
use graph_node_be.Billing.Config.{CreditContext, CreditCostCalculator}
use Prim.Native.String.{String}
use graph_node_be.Billing.Types.{CreditTransactionType, CreditFeature}
use graph_node_be.Common.Int.{◌-ℤ◌, not_ltb_ℤ→le, ◌≤ℤ◌, ℤ, ◌<ℤ◌, ltb_ℤ, ltb_ℤ→lt}
use graph_node_be.Credit.Repository.{
  Outcome, available, deduct_balance, create_usage_log, find_balance_by_user_id,
}
use graph_node_be.Credit.Service.{deduct, cost_of, ensure_balance}

-- The database with the cost taken off the balance of `u` and a DEDUCT row in the ledger.
abbrev pub charge : String → ℤ → CreditFeature → Database → Database
charge u cost feature d = record d {
  balances = update_rows u (λ r. record r { balance = r.balance -ℤ cost }) d.balances;
  transactions =
      record {
        user_id = u;
        type = CreditTransactionType.deduct;
        feature = some feature;
        amount = cost;
        task_id = none;
        expires_at = none;
      }
      ∷ d.transactions;
}

-- The database with a successful use in the usage log.
abbrev pub log_use : String → ℤ → CreditFeature → Database → Database
log_use u cost feature d = record d {
  usage_logs =
      record {
        user_id = u;
        feature = some feature;
        task_id = none;
        credit_used = cost;
        status = UsageStatus.success;
      }
      ∷ d.usage_logs;
}

-- How a call of `deduct` for a cost ended, for a user whose row was `b`, and under which of the
-- faults `fs` of its three database calls: the look-up of the row, the transaction, the log.
pub data Ended (u : String) (cost : ℤ) (feature : CreditFeature) (b : CreditBalanceRow)
    (d : Database) (fs : List Bool) (r : Result (Unit {0})) (d' : Database) : Type 0 where
  -- covered, and no call fails: charged, and logged
  charged :
      fails fs ≡ false
      → cost ≤ℤ available b
      → fails (later fs) ≡ false
      → fails (later (later fs)) ≡ false
      → r ≡ ok tt
      → d' ≡ log_use u cost feature (charge u cost feature d)
      → Ended u cost feature b d fs r d'
  -- not covered: refused, nothing written
  refused :
      fails fs ≡ false
      → available b <ℤ cost
      → r ≡ err (insufficient_credit cost (available b))
      → d' ≡ d
      → Ended u cost feature b d fs r d'
  -- the row cannot be read: a failure, nothing written
  unread : fails fs ≡ true → r ≡ err upstream → d' ≡ d → Ended u cost feature b d fs r d'
  -- covered, and the transaction fails: a failure, nothing written
  uncharged :
      fails fs ≡ false
      → cost ≤ℤ available b
      → fails (later fs) ≡ true
      → r ≡ err upstream
      → d' ≡ d
      → Ended u cost feature b d fs r d'
  -- covered, and only the log fails: charged, and reported as a failure
  unlogged :
      fails fs ≡ false
      → cost ≤ℤ available b
      → fails (later fs) ≡ false
      → fails (later (later fs)) ≡ true
      → r ≡ err upstream
      → d' ≡ charge u cost feature d
      → Ended u cost feature b d fs r d'

-- The transaction where the row covers the cost.
deduct_balance-granted :
    (u : String) (cost : ℤ) (feature : CreditFeature) (d : Database) (b : CreditBalanceRow)
    → find_balance u d.balances ≡ some b
    → ltb_ℤ (available b) cost ≡ false
    → (o : Outcome) × (deduct_balance u cost feature d ≡ (ok o, charge u cost feature d))
      × (o.success ≡ true)
unfolding deduct_balance
deduct_balance-granted u cost feature d b found enough = (
  record { success = true; available_after = b.balance -ℤ cost -ℤ b.hold_amount },
  rw (found, enough, found),
  refl,
)

module _ (costs : CreditFeature → CreditCostCalculator) where
  -- `deduct` for a user with a row `b`, where any of its database calls may fail. With the row read
  -- and credits that do not cover the cost, it throws InsufficientCreditError with the cost and the
  -- available credits, and writes nothing. With credits that cover it and no call that fails, it
  -- answers, and has charged the cost and logged it. It throws UpstreamError only where a call
  -- fails: nothing is written where that is the look-up of the row or the transaction, and the
  -- credits are gone where it is the usage log.
  pub deduct_outcomes :
      (u : String) (feature : CreditFeature) (context : Option CreditContext) (now : ℕ) (w : World)
      (b : CreditBalanceRow)
      → find_balance u w.db.balances ≡ some b
      → let (r, w') = deduct costs u feature context now w in
        Ended u (cost_of costs feature context) feature b w.db w.faults r w'.db
  unfolding deduct ensure_balance find_balance_by_user_id create_usage_log
  deduct_outcomes u feature context now w b found =
      let cost = cost_of costs feature context in
      elim (Bool-cases (fails w.faults)) [
        | inl down ↦ unread down (simp down) (simp down)
        | inr up ↦ elim (Bool-cases (ltb_ℤ (available b) cost)) [
          | inl short ↦
              refused up (ltb_ℤ→lt (available b) cost short) (simp (up, found, short))
                (simp (up, found, short))
          | inr enough ↦
              let covers = not_ltb_ℤ→le (available b) cost enough in
              let (o, e, granted) = deduct_balance-granted u cost feature w.db b found enough in
              elim (Bool-cases (fails (later w.faults))) [
                | inl down ↦
                    uncharged up covers down (simp (up, found, enough, down))
                      (simp (up, found, enough, down))
                | inr still ↦ elim (Bool-cases (fails (later (later w.faults)))) [
                  | inl down ↦
                      unlogged up covers still down
                        (simp (up, found, enough, still, e, granted, down))
                        (simp (up, found, enough, still, e, granted, down))
                  | inr fine ↦
                      charged up covers still fine
                        (simp (up, found, enough, still, e, granted, fine))
                        (simp (up, found, enough, still, e, granted, fine))
                ]
              ]
        ]
      ]
