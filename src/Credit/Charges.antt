-- ===== src/Credit/Charges.antt =====
-- `deductBalance` and `holdBalance`: when they succeed, what they write and what they report.
use graph_node_be.Common.{
  inr, inl, ℕ, Bool-cases, not, ◌≡◌, refl, Bool, false, some, String, if◌then◌else◌,
}
use graph_node_be.Common.Int.{int_laws, ◌+ℤ◌, ℤ, ◌-ℤ◌, ltb_ℤ}
use graph_node_be.Common.Text.{◌==◌, eq_refl}
use graph_node_be.Billing.Types.{CreditFeature}
use graph_node_be.Store.Rows.{CreditBalanceRow, Database}
use graph_node_be.Store.Effects.{Result, ok}
use graph_node_be.Credit.Tables.{find_balance, find_balance-update_rows}
use graph_node_be.Credit.Repository.{hold_balance, Outcome, available, deduct_balance}

-- A call that found the row `b` of user `u` either refused and changed nothing, or made the row
-- `b'` of it and left all other rows as they were, such as that of `v`; in both cases it reports what is available
-- afterwards.
abbrev pub IsCharge :
    String
    → String
    → Bool
    → CreditBalanceRow
    → CreditBalanceRow
    → Database
    → Result Outcome × Database
    → Type 0
IsCharge u v enough b b' d (r, d') =
    (o : Outcome) × (r ≡ ok o)
    × (o.success ≡ enough)
    × (find_balance u d'.balances ≡ some (if enough then b' else b))
    × (o.available_after ≡ available (if enough then b' else b))
    × (find_balance v d'.balances ≡ find_balance v d.balances)

module _ (u : String) (cost : ℤ) (feature : CreditFeature) (d : Database) (b : CreditBalanceRow)
    (found : find_balance u d.balances ≡ some b) where
  -- `deductBalance` on a user's row `b` succeeds exactly when the balance without the held credits
  -- covers the cost. It then lowers the balance by the cost; a refusal changes no row. Either way
  -- `availableAfter` is what the user has available afterwards, and the row of another user `v` does not
  -- change.
  pub deduct_balance-IsCharge :
      (v : String)
      → (u == v) ≡ false
      → IsCharge u v
          (not (ltb_ℤ (available b) cost))
          b
          (record b { balance = b.balance -ℤ cost })
          d
          (deduct_balance u cost feature d)
  unfolding deduct_balance
  deduct_balance-IsCharge v other = elim (Bool-cases (ltb_ℤ (available b) cost)) [
    | inl short ↦ rw (found, short) (_, refl, refl, found, refl, refl)
    | inr enough ↦
        rw (found, enough, found)
          (
            _,
            refl,
            refl,
            rw (find_balance-update_rows, eq_refl u, found),
            refl,
            rw (find_balance-update_rows, other) refl,
          )
  ]

  -- `holdBalance` on a user's row `b` succeeds in the same case. It then raises the held amount by
  -- the cost and leaves the balance; the rest is as for `deductBalance`.
  pub hold_balance-IsCharge :
      (t : String) (expires_at : ℕ) (v : String)
      → (u == v) ≡ false
      → IsCharge u v
          (not (ltb_ℤ (available b) cost))
          b
          (record b { hold_amount = b.hold_amount +ℤ cost })
          d
          (hold_balance u cost feature t expires_at d)
  unfolding hold_balance
  hold_balance-IsCharge t expires_at v other = elim (Bool-cases (ltb_ℤ (available b) cost)) [
    | inl short ↦ rw (found, short) (_, refl, refl, found, refl, refl)
    | inr enough ↦
        rw (found, enough, found)
          (
            _,
            refl,
            refl,
            rw (find_balance-update_rows, eq_refl u, found),
            omega int_laws,
            rw (find_balance-update_rows, other) refl,
          )
  ]
