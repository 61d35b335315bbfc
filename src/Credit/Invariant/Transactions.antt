-- ===== src/Credit/Invariant/Transactions.antt =====
-- Every transaction of the repository keeps the invariant, but `refillBalance`: that one does only
-- where no HOLD of the user is unsettled.
use graph_node_be.Common.{
  ℕ, ◌≡◌, refl, sym, false, none, some, String, Option-cases, Bool-cases, inl, inr,
}
use graph_node_be.Common.Int.{ℤ, pos, ◌≤ℤ◌, ltb_ℤ, int_laws, not_ltb_ℤ→le}
use graph_node_be.Common.Text.{◌==◌, eq_iff}
use graph_node_be.Billing.Types.{PlanType, CreditFeature}
use graph_node_be.Store.Rows.{CreditBalanceRow, CreditTransactionRow, Database}
use graph_node_be.Store.Effects.{roll_back}
use graph_node_be.Credit.Tables.{find_balance, find_hold, is_settled}
use graph_node_be.Credit.Repository.{
  available, deduct_balance, hold_balance, commit_tx, rollback_tx, refund_balance, refill_balance,
  create_balance,
}
use graph_node_be.Credit.Ledger.{outstanding}
use graph_node_be.Credit.Ledger.Rows.{amount-le-outstanding}
use graph_node_be.Credit.Invariant.{Matches, IsConsistent}
use graph_node_be.Credit.Invariant.Post.{post_neutral, post_hold, post_settle}

-- The user's row under the invariant.
row-Matches :
    {d : Database} {b : CreditBalanceRow} (u : String)
    → IsConsistent d
    → find_balance u d.balances ≡ some b
    → Matches (some b) (outstanding u d.transactions)
row-Matches u c found = rw found at (c.balanced u)

pub deduct_balance-IsConsistent :
    (u : String) (cost : ℤ) (feature : CreditFeature) (d : Database)
    → IsConsistent d
    → IsConsistent (roll_back d (deduct_balance u cost feature d)).1
unfolding deduct_balance
deduct_balance-IsConsistent u cost feature d c = elim (Option-cases (find_balance u d.balances)) [
  | inl missing ↦ rw missing c
  | inr (b, found) ↦ elim (Bool-cases (ltb_ℤ (available b) cost)) [
    | inl short ↦ rw (found, short) c
    | inr enough ↦
        let covers = not_ltb_ℤ→le (available b) cost enough in
        rw (found, enough, found) (post_neutral d u _ _ b c found refl refl refl (omega int_laws))
  ]
]

-- The task is new to the ledger.
abbrev pub IsFresh : String → Database → Type 0
IsFresh t d = (find_hold t d.transactions ≡ none) × (is_settled t d.transactions ≡ false)

pub hold_balance-IsConsistent :
    (u : String) (cost : ℤ) (feature : CreditFeature) (t : String) (expires_at : ℕ) (d : Database)
    → IsConsistent d
    → IsFresh t d
    → pos 0 ≤ℤ cost
    → IsConsistent (roll_back d (hold_balance u cost feature t expires_at d)).1
unfolding hold_balance
hold_balance-IsConsistent u cost feature t expires_at d c (unknown, unsettled) nonneg =
    elim (Option-cases (find_balance u d.balances)) [
      | inl missing ↦ rw missing c
      | inr (b, found) ↦ elim (Bool-cases (ltb_ℤ (available b) cost)) [
        | inl short ↦ rw (found, short) c
        | inr enough ↦
            let covers = not_ltb_ℤ→le (available b) cost enough in
            rw (found, enough, found)
              (post_hold d u _ _ b c found t refl refl refl refl unknown unsettled nonneg refl
                (omega int_laws))
      ]
    ]

-- An unsettled HOLD is covered by the balance of its user.
pub hold_covered :
    (t : String) (h : CreditTransactionRow) (b : CreditBalanceRow) (d : Database)
    → IsConsistent d
    → find_hold t d.transactions ≡ some h
    → is_settled t d.transactions ≡ false
    → find_balance h.user_id d.balances ≡ some b
    → (h.amount ≤ℤ b.hold_amount) × (b.hold_amount ≤ℤ b.balance)
hold_covered t h b d c held unsettled found =
    let (was, covered) = row-Matches h.user_id c found in
    (rw was (amount-le-outstanding t d.transactions h c.ledger held unsettled), covered)

pub commit_tx-IsConsistent :
    (t : String) (h : CreditTransactionRow) (d : Database)
    → IsConsistent d
    → find_hold t d.transactions ≡ some h
    → IsConsistent (roll_back d (commit_tx t h d)).1
unfolding commit_tx
commit_tx-IsConsistent t h d c held = elim (Bool-cases (is_settled t d.transactions)) [
  | inl settled ↦ rw settled c
  | inr unsettled ↦ elim (Option-cases (find_balance h.user_id d.balances)) [
    | inl missing ↦ rw (unsettled, missing) c
    | inr (b, found) ↦
        let (_, covered) = row-Matches h.user_id c found in
        rw (unsettled, found)
          (post_settle d h.user_id _ _ b c found t h refl refl refl refl held unsettled refl
            (omega int_laws))
  ]
]

pub rollback_tx-IsConsistent :
    (t : String) (h : CreditTransactionRow) (d : Database)
    → IsConsistent d
    → find_hold t d.transactions ≡ some h
    → pos 0 ≤ℤ h.amount
    → IsConsistent (roll_back d (rollback_tx t h d)).1
unfolding rollback_tx
rollback_tx-IsConsistent t h d c held nonneg = elim (Bool-cases (is_settled t d.transactions)) [
  | inl settled ↦ rw settled c
  | inr unsettled ↦ elim (Option-cases (find_balance h.user_id d.balances)) [
    | inl missing ↦ rw (unsettled, missing) c
    | inr (b, found) ↦
        let (_, covered) = row-Matches h.user_id c found in
        rw (unsettled, found)
          (post_settle d h.user_id _ _ b c found t h refl refl refl refl held unsettled refl
            (omega int_laws))
  ]
]

pub refund_balance-IsConsistent :
    (u : String) (amount : ℤ) (d : Database)
    → IsConsistent d
    → pos 0 ≤ℤ amount
    → IsConsistent (roll_back d (refund_balance u amount d)).1
unfolding refund_balance
refund_balance-IsConsistent u amount d c nonneg = elim (Option-cases (find_balance u d.balances)) [
  | inl missing ↦ rw missing c
  | inr (b, found) ↦
      let (_, covered) = row-Matches u c found in
      rw found (post_neutral d u _ _ b c found refl refl refl (omega int_laws))
]

-- A refill keeps the invariant where no HOLD of the user is unsettled.
pub refill_balance-IsConsistent :
    (u : String) (limit : ℤ) (plan : PlanType) (cycle_start cycle_end : ℕ) (d : Database)
    → IsConsistent d
    → outstanding u d.transactions ≡ pos 0
    → pos 0 ≤ℤ limit
    → IsConsistent (roll_back d (refill_balance u limit plan cycle_start cycle_end d)).1
unfolding refill_balance
refill_balance-IsConsistent u limit plan cycle_start cycle_end d c idle nonneg =
    elim (Option-cases (find_balance u d.balances)) [
      | inl missing ↦ rw missing c
      | inr (b, found) ↦
          let (held, _) = row-Matches u c found in
          rw found
            (post_neutral d u _ _ b c found refl refl (rw (held, idle)) (rw (held, idle) nonneg))
    ]

pub create_balance-IsConsistent :
    (u : String) (balance : ℤ) (plan : PlanType) (cycle_start cycle_end : ℕ) (d : Database)
    → IsConsistent d
    → pos 0 ≤ℤ balance
    → IsConsistent (roll_back d (create_balance u balance plan cycle_start cycle_end d)).1
unfolding create_balance find_balance
create_balance-IsConsistent u balance plan cycle_start cycle_end d c nonneg =
    elim (Option-cases (find_balance u d.balances)) [
      | inl missing ↦
          let idle : outstanding u d.transactions ≡ pos 0 = rw missing at (c.balanced u) in
          rw missing (record {
            ledger = c.ledger;
            balanced = λ v. elim (Bool-cases (u == v)) [
              | inl same ↦ let e : u ≡ v = (eq_iff u v).0 same in rw (same, ← e) (sym idle, nonneg)
              | inr other ↦ rw other (c.balanced v)
            ];
          })
      | inr (b, found) ↦ rw found c
    ]
