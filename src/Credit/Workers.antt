-- ===== src/Credit/Workers.antt =====
-- Servers and queue workers at work on one database: each transaction is atomic, and between the
-- reads of `commitHold` or `rollbackHold` and its transaction anything else may happen.
pub mod Holds
pub mod Safety
use graph_node_be.Common.{
  ℕ, ◌≡◌, Bool, true, false, Option, none, some, List, [], ◌∷◌, ◌++◌, String,
}
use graph_node_be.Common.Int.{ℤ, pos, ◌≤ℤ◌}
use graph_node_be.Billing.Types.{PlanType, CreditFeature}
use graph_node_be.Store.Rows.{CreditTransactionRow, Database}
use graph_node_be.Store.Effects.{Tx, roll_back}
use graph_node_be.Credit.Tables.{find_hold, is_settled}
use graph_node_be.Credit.Repository.{
  deduct_balance, hold_balance, commit_tx, rollback_tx, refund_balance, refill_balance,
  create_balance,
}
use graph_node_be.Credit.Ledger.{outstanding}
use graph_node_be.Credit.Invariant.Transactions.{IsFresh}

pub data Ending : Type 0 where
  committing rolling_back : Ending

-- A call of `commitHold` or `rollbackHold` that has read the HOLD and found it unsettled.
pub record Worker : Type 0 where
  pub ending : Ending
  pub task : String
  pub hold_tx : CreditTransactionRow

pub record System : Type 0 where
  pub db : Database
  pub workers : List Worker

abbrev pub settlement_of : Ending → String → CreditTransactionRow → Tx Bool
settlement_of committing = commit_tx
settlement_of rolling_back = rollback_tx

-- The database after a transaction.
abbrev pub after : {A : Type 0} → Tx A → Database → Database
after t d = (roll_back d (t d)).1

-- A HOLD is placed under a new task, amounts are not negative, and a refill meets no unsettled HOLD
-- of its user.
pub data Step (s s' : System) : Type 0 where
  create :
      (u : String) (balance : ℤ) (plan : PlanType) (cycle_start cycle_end : ℕ)
      → pos 0 ≤ℤ balance
      → s' ≡ record s { db = after (create_balance u balance plan cycle_start cycle_end) s.db }
      → Step s s'
  deduct :
      (u : String) (cost : ℤ) (feature : CreditFeature)
      → s' ≡ record s { db = after (deduct_balance u cost feature) s.db }
      → Step s s'
  hold :
      (u : String) (cost : ℤ) (feature : CreditFeature) (t : String) (expires_at : ℕ)
      → IsFresh t s.db
      → pos 0 ≤ℤ cost
      → s' ≡ record s { db = after (hold_balance u cost feature t expires_at) s.db }
      → Step s s'
  refund :
      (u : String) (amount : ℤ)
      → pos 0 ≤ℤ amount
      → s' ≡ record s { db = after (refund_balance u amount) s.db }
      → Step s s'
  refill :
      (u : String) (limit : ℤ) (plan : PlanType) (cycle_start cycle_end : ℕ)
      → outstanding u s.db.transactions ≡ pos 0
      → pos 0 ≤ℤ limit
      → s' ≡ record s { db = after (refill_balance u limit plan cycle_start cycle_end) s.db }
      → Step s s'
  read :
      (ending : Ending) (t : String) (h : CreditTransactionRow)
      → find_hold t s.db.transactions ≡ some h
      → is_settled t s.db.transactions ≡ false
      → s' ≡ record s { workers = record { ending = ending; task = t; hold_tx = h } ∷ s.workers }
      → Step s s'
  settle :
      (ws : List Worker) (w : Worker) (vs : List Worker)
      → s.workers ≡ ws ++ w ∷ vs
      → s'
        ≡ record { db = after (settlement_of w.ending w.task w.hold_tx) s.db; workers = ws ++ vs }
      → Step s s'

pub data Reach (s : System) : System → Type 0 where
  here : Reach s s
  next : {t u : System} → Reach s t → Step t u → Reach s u
