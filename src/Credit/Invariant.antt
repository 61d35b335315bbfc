-- ===== src/Credit/Invariant.antt =====
-- The invariant of the credit tables: a user's `holdAmount` is what the ledger's unsettled HOLDs
-- keep back, and no more than the balance.
pub mod Post
pub mod Transactions
use graph_node_be.Common.{◌≡◌, Option, none, some, String}
use graph_node_be.Common.Int.{ℤ, pos, ◌≤ℤ◌}
use graph_node_be.Store.Rows.{CreditBalanceRow, Database}
use graph_node_be.Credit.Tables.{find_balance}
use graph_node_be.Credit.Ledger.{outstanding, IsLedger}

-- A user's row beside what the ledger keeps back of the user.
abbrev pub Matches : Option CreditBalanceRow → ℤ → Type 0
Matches none kept = kept ≡ pos 0
Matches (some b) kept = (b.hold_amount ≡ kept) × (b.hold_amount ≤ℤ b.balance)

pub record IsConsistent (d : Database) : Type 0 where
  pub ledger : IsLedger d.transactions
  pub balanced : (u : String) → Matches (find_balance u d.balances) (outstanding u d.transactions)
