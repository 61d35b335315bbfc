-- ===== src/Credit/Workers/Holds.antt =====
-- No transaction hides a HOLD that was there: the ledger only grows, and a new HOLD has a new task.
use graph_node_be.Common.{ℕ, ◌≡◌, some, String, arith}
use graph_node_be.Common.Int.{ℤ}
use graph_node_be.Common.Text.{eq_iff}
use graph_node_be.Billing.Types.{PlanType, CreditFeature}
use graph_node_be.Store.Rows.{CreditTransactionRow, Database}
use graph_node_be.Credit.Tables.{find_hold}
use graph_node_be.Credit.Repository.{
  deduct_balance, hold_balance, commit_tx, rollback_tx, refund_balance, refill_balance,
  create_balance,
}
use graph_node_be.Credit.Invariant.Transactions.{IsFresh}
use graph_node_be.Credit.Workers.{after, Ending, committing, rolling_back, settlement_of}

module _ (t : String) (h : CreditTransactionRow) (d : Database)
    (held : find_hold t d.transactions ≡ some h) where
  abbrev StillHeld : Database → Type 0
  StillHeld d' = find_hold t d'.transactions ≡ some h

  pub find_hold-create :
      (u : String) (balance : ℤ) (plan : PlanType) (cycle_start cycle_end : ℕ)
      → StillHeld (after (create_balance u balance plan cycle_start cycle_end) d)
  unfolding create_balance
  find_hold-create u balance plan cycle_start cycle_end = ground arith

  pub find_hold-deduct :
      (u : String) (cost : ℤ) (feature : CreditFeature)
      → StillHeld (after (deduct_balance u cost feature) d)
  unfolding deduct_balance find_hold
  find_hold-deduct u cost feature = ground arith

  pub find_hold-hold :
      (u : String) (cost : ℤ) (feature : CreditFeature) (x : String) (expires_at : ℕ)
      → IsFresh x d
      → StillHeld (after (hold_balance u cost feature x expires_at) d)
  unfolding hold_balance find_hold
  find_hold-hold u cost feature x expires_at fresh = ground (arith, eq_iff x t)

  pub find_hold-refund : (u : String) (amount : ℤ) → StillHeld (after (refund_balance u amount) d)
  unfolding refund_balance find_hold
  find_hold-refund u amount = ground arith

  pub find_hold-refill :
      (u : String) (limit : ℤ) (plan : PlanType) (cycle_start cycle_end : ℕ)
      → StillHeld (after (refill_balance u limit plan cycle_start cycle_end) d)
  unfolding refill_balance find_hold
  find_hold-refill u limit plan cycle_start cycle_end = ground arith

  pub find_hold-settle :
      (ending : Ending) (x : String) (g : CreditTransactionRow)
      → StillHeld (after (settlement_of ending x g) d)
  unfolding commit_tx rollback_tx find_hold
  find_hold-settle committing x g = ground arith
  find_hold-settle rolling_back x g = ground arith
